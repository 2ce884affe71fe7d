-- ===== src/Common/Effect.antt =====
-- What an `async` method does: it changes a state and returns, or it changes a state and throws.
-- What was written before a throw stays written, unless the code undoes it.
pub mod Rules
pub mod Keeps
use mathlib.Core.Bool.{Bool, true, false}
use mathlib.Core.Option.{Option, none, some}

pub data Result {ℓ} (X A : Type ℓ) : Type ℓ where
  ok : A → Result X A
  err : X → Result X A

abbrev pub Action : Type 0 → Type 0 → Type 0 → Type 0
Action S X A = S → Result X A × S

module _ {S X A : Type 0} where
  unfoldable pub pure : A → Action S X A
  pure a s = (ok a, s)

  unfoldable pub throw : X → Action S X A
  throw x s = (err x, s)

  unfoldable pub gets : (S → A) → Action S X A
  gets f s = (ok (f s), s)

  unfoldable pub or_throw : Option A → X → Action S X A
  or_throw none x s = (err x, s)
  or_throw (some a) x s = (ok a, s)

unfoldable pub modify : {S X : Type 0} → (S → S) → Action S X (Unit {0})
modify f s = (ok tt, f s)

-- `if (!b) throw …`
unfoldable pub ensure : {S X : Type 0} → Bool → X → Action S X (Unit {0})
ensure true x s = (ok tt, s)
ensure false x s = (err x, s)

infixl 5 ◌>>=◌ ◌>>◌
unfoldable pub ◌>>=◌ : {S X A B : Type 0} → Action S X A → (A → Action S X B) → Action S X B
◌>>=◌ m f s = let (r, s') = m s in elim r [ ok a ↦ f a s' | err x ↦ (err x, s') ]

abbrev pub ◌>>◌ : {S X A B : Type 0} → Action S X A → Action S X B → Action S X B
m >> k = m >>= λ _. k

-- `try { m } catch (x) { h x }`
unfoldable pub catch : {S X A : Type 0} → Action S X A → (X → Action S X A) → Action S X A
catch m h s = let (r, s') = m s in elim r [ ok a ↦ (ok a, s') | err x ↦ h x s' ]
