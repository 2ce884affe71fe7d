-- ===== src/Async.antt =====
-- `async` methods on the event loop. Between two awaits a method runs alone: it changes the state and
-- goes on with what it has seen. At an await any other method may run.
pub mod Rules
pub mod Alone
pub mod Lens
pub mod Keeping
pub mod Bounded
pub mod Locks
use payment_orchestration_la.Common.{String, Option, none, some, Bool}
use payment_orchestration_la.Common.Effect.{Result, ok, err, Action}

-- A method that is under way. The text of a step is the idempotency key whose lock the method holds
-- at that point, if it holds one.
pub data Task (S X A : Type 0) : Type 0 where
  done : Result X A → Task S X A
  step : Option String → (S → S) → (S → Task S X A) → Task S X A

module _ {S X : Type 0} where
  -- one await
  unfoldable pub await : {A : Type 0} → Action S X A → Task S X A
  await m = step none (λ s. (m s).1) (λ s. done (m s).0)

  unfoldable pub give : {A : Type 0} → A → Task S X A
  give a = done (ok a)

  unfoldable pub fail : {A : Type 0} → X → Task S X A
  fail x = done (err x)

  infixl 5 ◌>>=◌ ◌>>◌
  unfoldable pub ◌>>=◌ : {A B : Type 0} → Task S X A → (A → Task S X B) → Task S X B
  done (ok a) >>= f = f a
  done (err x) >>= f = done (err x)
  step l u k >>= f = step l u (λ s. k s >>= f)

  abbrev pub ◌>>◌ : {A B : Type 0} → Task S X A → Task S X B → Task S X B
  t >> n = t >>= λ _. n

  -- `try { t } catch (x) { h x }`
  unfoldable pub rescue : {A : Type 0} → Task S X A → (X → Task S X A) → Task S X A
  rescue (done (ok a)) h = done (ok a)
  rescue (done (err x)) h = h x
  rescue (step l u k) h = step l u (λ s. rescue (k s) h)

  -- what is done while the lock of a key is held
  unfoldable pub within : {A : Type 0} → String → Task S X A → Task S X A
  within key (done r) = done r
  within key (step l u k) = step (some key) u (λ s. within key (k s))

  -- the key whose lock the method holds
  unfoldable pub holding : {A : Type 0} → Task S X A → Option String
  holding (done r) = none
  holding (step l u k) = l

  -- the method runs on while nothing else does
  unfoldable pub run : {A : Type 0} → Task S X A → Action S X A
  run (done r) s = (r, s)
  run (step l u k) s = run (k s) (u s)
