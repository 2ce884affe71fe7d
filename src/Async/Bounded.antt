-- ===== src/Async/Bounded.antt =====
-- Methods that end after a bounded number of awaits, whatever other methods do at each of them.
use payment_orchestration_la.Common.{ℕ, zero, suc, Bool, true, false, String, Option, if◌then◌else◌}
use payment_orchestration_la.Common.Effect.{Result, ok, err, Action}
use payment_orchestration_la.Async.{Task, done, step, await, give, ◌>>=◌}
use payment_orchestration_la.Async.Lens.{Part, zoom}

-- At most so many awaits are left, whatever the method sees.
pub data AtMost {S X A : Type 0} : ℕ → Task S X A → Type 0 where
  over : (n : ℕ) (r : Result X A) → AtMost n (done r)
  more :
      (n : ℕ) (l : Option String) (u : S → S) (k : S → Task S X A)
      → ((s : S) → AtMost n (k s))
      → AtMost (suc n) (step l u k)

-- `k` more than `n`
unfoldable pub more_by : ℕ → ℕ → ℕ
more_by zero n = n
more_by (suc k) n = suc (more_by k n)

module _ {S X : Type 0} where
  pub AtMost-await : {A : Type 0} {n : ℕ} (m : Action S X A) → AtMost (suc n) (await m)
  unfolding await
  AtMost-await m = more _ _ _ _ (λ s. over _ _)

  pub AtMost-give : {A : Type 0} {n : ℕ} (a : A) → AtMost {X = X} n (give {S = S} a)
  unfolding give
  AtMost-give a = over _ _

  -- one more is at most one more
  pub AtMost-suc : {A : Type 0} {n : ℕ} {t : Task S X A} → AtMost n t → AtMost (suc n) t
  AtMost-suc (over n r) = over _ r
  AtMost-suc (more n l u k h) = more _ l u k (λ s. AtMost-suc (h s))

  pub AtMost-if :
      {A : Type 0} {n : ℕ} (b : Bool) {t m : Task S X A}
      → AtMost n t
      → AtMost n m
      → AtMost n (if b then t else m)
  AtMost-if true h k = h
  AtMost-if false h k = k

  -- an await, and what follows it
  pub AtMost-then :
      {A B : Type 0} {n : ℕ} (m : Action S X A) {f : A → Task S X B}
      → ((a : A) → AtMost n (f a))
      → AtMost (suc n) (await m >>= f)
  unfolding await ◌>>=◌
  AtMost-then {n = n} m {f = f} h = more _ _ _ _ (λ s. goes (m s).0)
    where
      goes : (r : Result X _) → AtMost n (done r >>= f)
      goes (ok a) = h a
      goes (err x) = over _ _

  AtMost-raise : {A : Type 0} {n : ℕ} (k : ℕ) {t : Task S X A} → AtMost n t → AtMost (more_by k n) t
  unfolding more_by
  AtMost-raise zero h = h
  AtMost-raise (suc k) h = AtMost-suc (AtMost-raise k h)

  -- a method of `k` awaits, and what follows it
  pub AtMost-bind :
      {A B : Type 0} {n : ℕ} (k : ℕ) {t : Task S X A} {f : A → Task S X B}
      → AtMost k t
      → ((a : A) → AtMost n (f a))
      → AtMost (more_by k n) (t >>= f)
  unfolding ◌>>=◌ more_by
  AtMost-bind k (over _ (ok a)) h = AtMost-raise k (h a)
  AtMost-bind k (over _ (err x)) h = over _ _
  AtMost-bind (suc k) (more _ l u m g) h = more _ l u _ (λ s. AtMost-bind k (g s) h)

pub AtMost-zoom :
    {T S X A : Type 0} {n : ℕ} (p : Part T S) {t : Task S X A} → AtMost n t → AtMost n (zoom p t)
unfolding zoom
AtMost-zoom p (over n r) = over n r
AtMost-zoom p (more n l u k h) = more n l _ _ (λ a. AtMost-zoom p (h (p.get a)))
