-- ===== src/App/Process/Apart.antt =====
-- Requests of which no two hold the lock of one key, and one of which goes on.
use payment_orchestration_la.Common.{
  ℕ, zero, suc, String, ◌≡◌, ◌≢◌, inl, inr, Option, some, List, [], ◌∷◌, All,
}
use payment_orchestration_la.Redis.{RedisService}
use payment_orchestration_la.Redis.Quiet.{Fallen, Taken}
use payment_orchestration_la.App.{Platform, App}
use payment_orchestration_la.App.Process.{Request, go_on, go_on_at}
use payment_orchestration_la.Async.{done, step, holding}
use payment_orchestration_la.Async.Locks.{Fair, more}

module _ (P : Platform) where
  abbrev pub service : App P → RedisService P.client
  service a = a.redis

  abbrev pub M : App P → Type 0
  M = Fallen P.client service

  abbrev pub L : String → App P → Type 0
  L = Taken P.client service

  -- no request of these holds the lock of `key`
  abbrev pub NotHeld : String → List (Request P) → Type 0
  NotHeld key = All (λ t. holding t ≢ some key)

  -- the locks that these requests hold are locked
  abbrev pub Backed : App P → List (Request P) → Type 0
  Backed a = All (λ t. (key : String) → holding t ≡ some key → L key a)

  -- every request is fair, and no two hold the lock of one key
  pub data Apart : List (Request P) → Type 0 where
    no_one : Apart []
    one_more :
        (t : Request P) (ts : List (Request P))
        → Fair M L t
        → ((key : String) → holding t ≡ some key → NotHeld key ts)
        → Apart ts
        → Apart (t ∷ ts)

  pub record Moved (ts : List (Request P)) (a : App P) (o : List (Request P) × App P) : Type 0 where
    pub mode : M o.1
    pub apart : Apart o.0
    pub backed : Backed o.1 o.0
    pub others : (key : String) → NotHeld key ts → L key a → NotHeld key o.0 × L key o.1

  -- a key that is free is held by no request
  unheld :
      (a : App P) (key : String) (ts : List (Request P))
      → (L key a → ⊥)
      → Backed a ts
      → NotHeld key ts
  unheld a key [] free b = tt
  unheld a key (t ∷ ts) free b = ((λ e. free (b.0 key e)), unheld a key ts free b.1)

  -- a step that spares the locks of others leaves them backed
  pub still-Backed :
      (a a' : App P) (l : Option String) (ts : List (Request P))
      → ((key : String) → l ≢ some key → L key a → L key a')
      → ((key : String) → l ≡ some key → NotHeld key ts)
      → Backed a ts
      → Backed a' ts
  still-Backed a a' l [] spares alone b = tt
  still-Backed a a' l (t ∷ ts) spares alone b = (
    (λ key e. spares key (λ same. (alone key same).0 e) (b.0 key e)),
    still-Backed a a' l ts spares (λ key same. (alone key same).1) b.1,
  )

  head-Moved :
      (t : Request P) (ts : List (Request P)) (a : App P)
      → M a
      → Apart (t ∷ ts)
      → Backed a (t ∷ ts)
      → let (t', a') = go_on P t a in Moved (t ∷ ts) a (t' ∷ ts, a')
  unfolding go_on holding
  head-Moved (done r) ts a m h b = record {
    mode = m;
    apart = h;
    backed = b;
    others = λ key n q. (n, q);
  }
  head-Moved (step l u k) ts a m (one_more _ _ (more _ _ _ f i) alone h) b =
      let now = f a m in
      record {
        mode = now.mode;
        apart =
            one_more (k a) ts (i a m)
              (λ key e. elim (now.holds key e) [
                | inl (free, q) ↦ unheld a key ts free b.1
                | inr (same, q) ↦ alone key same
              ])
              h;
        backed = (
          (λ key e. elim (now.holds key e) [
            | inl (free, q) ↦ q
            | inr (same, q) ↦ q (b.0 key same)
          ]),
          still-Backed a (u a) l ts now.others alone b.1,
        );
        others = λ key n q. (
          (
            (λ e. elim (now.holds key e) [ inl (free, q') ↦ free q | inr (same, q') ↦ n.0 same ]),
            n.1,
          ),
          now.others key n.0 q,
        );
      }

  pub at-Moved :
      (ts : List (Request P)) (i : ℕ) (a : App P)
      → M a
      → Apart ts
      → Backed a ts
      → Moved ts a (go_on_at P ts i a)
  unfolding go_on_at
  at-Moved [] i a m h b = record { mode = m; apart = h; backed = b; others = λ key n q. (n, q) }
  at-Moved (t ∷ ts) zero a m h b = head-Moved t ts a m h b
  at-Moved (t ∷ ts) (suc i) a m (one_more _ _ f alone h) b =
      let moved = at-Moved ts i a m h b.1 in
      record {
        mode = moved.mode;
        apart =
            one_more t (go_on_at P ts i a).0 f
              (λ key e. (moved.others key (alone key e) (b.0 key e)).0) moved.apart;
        backed = ((λ key e. (moved.others key (alone key e) (b.0 key e)).1), moved.backed);
        others = λ key n q. let rest = moved.others key n.1 q in ((n.0, rest.0), rest.1);
      }
