-- ===== src/Async/Locks.antt =====
-- Methods that hold locks, among other methods that take and free locks. `L` says that a key is
-- locked, and `M` holds all along.
use payment_orchestration_la.Common.{String, Option, none, some, ◌≡◌, ◌≢◌, ◌⊎◌, inl, inr, arith}
use payment_orchestration_la.Common.Effect.{Result, ok, err}
use payment_orchestration_la.Async.{Task, done, step, give, ◌>>=◌, rescue, within, holding}
use payment_orchestration_la.Async.Rules.{Steps, ended, going}
use payment_orchestration_la.Async.Lens.{Part, zoom}

module _ {S : Type 0} (M : S → Type 0) (L : String → S → Type 0) where
  -- a step outside every critical section, which frees no lock
  pub record Quiet (l : Option String) (s s' : S) : Type 0 where
    pub free : l ≡ none
    pub mode : M s → M s'
    pub locks : (key : String) → L key s → L key s'

  -- What a step may do: it frees no lock but its own, and after it the method holds the lock that it
  -- held, or one that was free before and is locked now.
  pub record Fairly {X A : Type 0} (l : Option String) (s s' : S) (rest : Task S X A) : Type 0 where
    pub mode : M s'
    pub others : (key : String) → l ≢ some key → L key s → L key s'
    pub holds :
        (key : String)
        → holding rest ≡ some key
        → ((L key s → ⊥) × L key s') ⊎ ((l ≡ some key) × (L key s → L key s'))

  -- Every step does only what a step may do.
  pub data Fair {X A : Type 0} : Task S X A → Type 0 where
    over : (r : Result X A) → Fair (done r)
    more :
        (l : Option String) (u : S → S) (k : S → Task S X A)
        → ((s : S) → M s → Fairly l s (u s) (k s))
        → ((s : S) → M s → Fair (k s))
        → Fair (step l u k)

  module _ {X A : Type 0} where
    pub Quiet-holds_none :
        {t : Task S X A} (s : S) (key : String) → Steps Quiet t → holding t ≡ some key → ⊥
    unfolding holding
    Quiet-holds_none s key (ended r) e = ground arith
    Quiet-holds_none s key (going l u k h i) e = let free = (h s).free in ground arith

    -- A method that never holds a lock.
    pub Quiet-Fair : {t : Task S X A} → Steps Quiet t → Fair t
    Quiet-Fair (ended r) = over r
    Quiet-Fair (going l u k h i) =
        more l u k
          (λ s m. record {
            mode = (h s).mode m;
            others = λ key ne. (h s).locks key;
            holds = λ key e. absurd (Quiet-holds_none (u s) key (i s) e);
          })
          (λ s m. Quiet-Fair (i s))

    pub within_holds :
        (key j : String) (t : Task S X A) → holding (within key t) ≡ some j → some key ≡ some j
    unfolding holding within
    within_holds key j (done r) e = absurd (ground arith)
    within_holds key j (step l u k) e = e

    -- A critical section whose last step, after an error, may free the lock.
    pub within-Fair :
        (key : String) {t : Task S X A} (h : X → Task S X A)
        → Steps Quiet t
        → ((x : X) → Fair (within key (h x)))
        → Fair (within key (rescue t h))
    unfolding within rescue
    within-Fair key h (ended (ok a)) f = over _
    within-Fair key h (ended (err x)) f = f x
    within-Fair key h (going l u k g i) f =
        more _ u _
          (λ s m. record {
            mode = (g s).mode m;
            others = λ j ne. (g s).locks j;
            holds = λ j e. inr (within_holds key j _ e, (g s).locks j);
          })
          (λ s m. within-Fair key h (i s) f)

-- What is locked in a part of the state is locked in the state, and the other way round.
pub record Shows {T S : Type 0} (p : Part T S) (M : S → Type 0) (L : String → S → Type 0)
    (M' : T → Type 0) (L' : String → T → Type 0) : Type 0 where
  pub mode_in : (a : T) → M' a → M (p.get a)
  pub mode_out : (a : T) (s : S) → M s → M' (p.put s a)
  pub lock_in : (key : String) (a : T) → L' key a → L key (p.get a)
  pub lock_out : (key : String) (a : T) (s : S) → L key s → L' key (p.put s a)

module _ {T S X A : Type 0} (p : Part T S) where
  pub zoom_holds :
      (t : Task S X A) (key : String) → holding (zoom p t) ≡ some key → holding t ≡ some key
  unfolding holding zoom
  zoom_holds (done r) key e = e
  zoom_holds (step l u k) key e = e

module _ {T S X A : Type 0} (p : Part T S) {M : S → Type 0} {L : String → S → Type 0}
    {M' : T → Type 0} {L' : String → T → Type 0} (v : Shows p M L M' L') where
  pub zoom-Fair : {t : Task S X A} → Fair M L t → Fair M' L' (zoom p t)
  unfolding zoom
  zoom-Fair (over r) = over r
  zoom-Fair (more l u k h i) =
      more l _ _
        (λ a m.
          let f = h (p.get a) (v.mode_in a m) in
          record {
            mode = v.mode_out a _ f.mode;
            others = λ key ne q. v.lock_out key a _ (f.others key ne (v.lock_in key a q));
            holds = λ key e. elim (f.holds key (zoom_holds p (k (p.get a)) key e)) [
              | inl (free, q) ↦ inl ((λ q'. free (v.lock_in key a q')), v.lock_out key a _ q)
              | inr (same, q) ↦ inr (same, λ q'. v.lock_out key a _ (q (v.lock_in key a q')))
            ];
          })
        (λ a m. zoom-Fair (i (p.get a) (v.mode_in a m)))

module _ {S X A : Type 0} where
  pub answered_holds :
      (t : Task S X A) (key : String)
      → holding (t >>= λ a. give {A = Unit {0}} tt) ≡ some key
      → holding t ≡ some key
  unfolding holding ◌>>=◌ give
  answered_holds (done (ok a)) key e = e
  answered_holds (done (err x)) key e = e
  answered_holds (step l u k) key e = e

module _ {S X A : Type 0} {M : S → Type 0} {L : String → S → Type 0} where
  -- a method whose answer is left to the caller
  pub answered-Fair : {t : Task S X A} → Fair M L t → Fair M L (t >>= λ a. give {A = Unit {0}} tt)
  unfolding ◌>>=◌ give
  answered-Fair (over (ok a)) = over _
  answered-Fair (over (err x)) = over _
  answered-Fair (more l u k h i) =
      more l _ _
        (λ s m.
          let f = h s m in
          record {
            mode = f.mode;
            others = f.others;
            holds = λ key e. f.holds key (answered_holds (k s) key e);
          })
        (λ s m. answered-Fair (i s m))
