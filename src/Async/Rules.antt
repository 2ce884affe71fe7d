-- ===== src/Async/Rules.antt =====
-- What every step of a method does, and a rule for each way to build a method.
use payment_orchestration_la.Common.{String, Option, none, some, Bool, true, false, if◌then◌else◌}
use payment_orchestration_la.Common.Effect.{Result, ok, err, Action}
use payment_orchestration_la.Async.{Task, done, step, await, give, fail, ◌>>=◌, rescue, within}

-- A relation of the states before and after a step, and of the lock under which it is done.
abbrev pub Guarantee : Type 0 → Type 1
Guarantee S = Option String → S → S → Type 0

-- Every step, at whatever state it is done, is as the relation says.
pub data Steps {S X A : Type 0} (R : Guarantee S) : Task S X A → Type 0 where
  ended : (r : Result X A) → Steps R (done r)
  going :
      (l : Option String) (u : S → S) (k : S → Task S X A)
      → ((s : S) → R l s (u s))
      → ((s : S) → Steps R (k s))
      → Steps R (step l u k)

module _ {S X A : Type 0} {R : Guarantee S} {l : Option String} {u : S → S}
    {k : S → Task S X A} where
  -- the next step, and the steps after it
  pub first_of : Steps R (step l u k) → (s : S) → R l s (u s)
  first_of (going _ _ _ h i) = h

  pub rest-Steps : Steps R (step l u k) → (s : S) → Steps R (k s)
  rest-Steps (going _ _ _ h i) = i

module _ {S X : Type 0} {R : Guarantee S} where
  pub Steps-await :
      {A : Type 0} (m : Action S X A) → ((s : S) → R none s (m s).1) → Steps R (await m)
  unfolding await
  Steps-await m h = going none _ _ h (λ s. ended (m s).0)

  pub Steps-give : {A : Type 0} (a : A) → Steps {X = X} R (give a)
  unfolding give
  Steps-give a = ended (ok a)

  pub Steps-fail : {A : Type 0} (x : X) → Steps {A = A} R (fail x)
  unfolding fail
  Steps-fail x = ended (err x)

  pub Steps-bind :
      {A B : Type 0} {t : Task S X A} {f : A → Task S X B}
      → Steps R t
      → ((a : A) → Steps R (f a))
      → Steps R (t >>= f)
  unfolding ◌>>=◌
  Steps-bind (ended (ok a)) k = k a
  Steps-bind (ended (err x)) k = ended (err x)
  Steps-bind (going l u n h i) k = going l u _ h (λ s. Steps-bind (i s) k)

  pub Steps-rescue :
      {A : Type 0} {t : Task S X A} {h : X → Task S X A}
      → Steps R t
      → ((x : X) → Steps R (h x))
      → Steps R (rescue t h)
  unfolding rescue
  Steps-rescue (ended (ok a)) k = ended (ok a)
  Steps-rescue (ended (err x)) k = k x
  Steps-rescue (going l u n g i) k = going l u _ g (λ s. Steps-rescue (i s) k)

  pub Steps-if :
      {A : Type 0} (b : Bool) {t n : Task S X A}
      → Steps R t
      → Steps R n
      → Steps R (if b then t else n)
  Steps-if true h k = h
  Steps-if false h k = k

  pub Steps-elim :
      {A B : Type 0} (o : Option B) {n : Task S X A} {f : B → Task S X A}
      → Steps R n
      → ((b : B) → Steps R (f b))
      → Steps R (elim o [ none ↦ n | some b ↦ f b ])
  Steps-elim none h k = h
  Steps-elim (some b) h k = k b

-- a weaker relation, and the relation under a lock
pub Steps-mono :
    {S X A : Type 0} {R Q : Guarantee S} {t : Task S X A}
    → ((l : Option String) (s s' : S) → R l s s' → Q l s s')
    → Steps R t
    → Steps Q t
Steps-mono h (ended r) = ended r
Steps-mono h (going l u k g i) = going l u k (λ s. h l s (u s) (g s)) (λ s. Steps-mono h (i s))

pub Steps-within :
    {S X A : Type 0} {R Q : Guarantee S} {t : Task S X A} (key : String)
    → ((l : Option String) (s s' : S) → R l s s' → Q (some key) s s')
    → Steps R t
    → Steps Q (within key t)
unfolding within
Steps-within key h (ended r) = ended r
Steps-within key h (going l u k g i) =
    going (some key) u _ (λ s. h l s (u s) (g s)) (λ s. Steps-within key h (i s))
