-- ===== src/Common/Effect/Rules.antt =====
-- How an action ended, and a rule for each way to build an action.
use mathlib.Core.Path.{◌≡◌, refl, sym, ap, subst}
use mathlib.Core.Bool.{Bool, true, false}
use mathlib.Core.Option.{Option, none, some}
use payment_orchestration_la.Common.Effect.{
  Result, ok, err, Action, pure, throw, gets, or_throw, ensure, ◌>>=◌, catch,
}

abbrev pub Post : {S X A : Type 0} → (A → S → Type 0) → (X → S → Type 0) → Result X A × S → Type 0
Post P E (ok a, s') = P a s'
Post P E (err x, s') = E x s'

-- It returned and `P` holds, or it threw and `E` holds, of the value and of the state it left.
pub record Ends {S X A : Type 0} (P : A → S → Type 0) (E : X → S → Type 0) (o : Result X A × S)
    : Type 0 where
  pub holds : Post P E o

-- What a statement that was refused has done at `s`: nothing.
abbrev pub Unchanged : {S X : Type 0} → S → X → S → Type 0
Unchanged s x s' = s' ≡ s

abbrev pub Always : {S X : Type 0} → X → S → Type 0
Always x s = Unit

abbrev pub Never : {S X : Type 0} → X → S → Type 0
Never x s = ⊥

module _ {S X A : Type 0} {P : A → S → Type 0} {E : X → S → Type 0} where
  pub Ends-ok : (a : A) (s : S) → P a s → Ends P E (ok a, s)
  Ends-ok a s h = record { holds = h }

  pub Ends-err : (x : X) (s : S) → E x s → Ends P E (err x, s)
  Ends-err x s h = record { holds = h }

  -- weaker conditions, which may use how the action ended
  pub Ends-mono :
      {Q : A → S → Type 0} {F : X → S → Type 0} (o : Result X A × S)
      → Ends P E o
      → ((a : A) (s : S) → o ≡ (ok a, s) → P a s → Q a s)
      → ((x : X) (s : S) → o ≡ (err x, s) → E x s → F x s)
      → Ends Q F o
  Ends-mono (ok a, s) h f g = record { holds = f a s refl h.holds }
  Ends-mono (err x, s) h f g = record { holds = g x s refl h.holds }

  pub Ends-pure : (a : A) (s : S) → P a s → Ends P E (pure a s)
  unfolding pure
  Ends-pure a s h = record { holds = h }

  pub Ends-throw : (x : X) (s : S) → E x s → Ends P E (throw x s)
  unfolding throw
  Ends-throw x s h = record { holds = h }

  pub Ends-gets : (f : S → A) (s : S) → P (f s) s → Ends P E (gets f s)
  unfolding gets
  Ends-gets f s h = record { holds = h }

abbrev after_result : {S X A B : Type 0} → (A → Action S X B) → Result X A × S → Result X B × S
after_result f (r, s) = elim r [ ok a ↦ f a s | err x ↦ (err x, s) ]

-- the parts of a bind that are known
module _ {S X A B : Type 0} (m : Action S X A) (f : A → Action S X B) {s s' : S} where
  pub bind_ok : {a : A} → m s ≡ (ok a, s') → (m >>= f) s ≡ f a s'
  unfolding ◌>>=◌
  bind_ok e = ap (after_result f) e

  pub bind_err : {x : X} → m s ≡ (err x, s') → (m >>= f) s ≡ (err x, s')
  unfolding ◌>>=◌
  bind_err e = ap (after_result f) e

module _ {S X A B : Type 0} {P : B → S → Type 0} {E : X → S → Type 0} where
  -- the first action has a known end
  pub Ends-bind_known :
      (m : Action S X A) (f : A → Action S X B) (s s' : S) (a : A)
      → m s ≡ (ok a, s')
      → Ends P E (f a s')
      → Ends P E ((m >>= f) s)
  Ends-bind_known m f s s' a e h = subst (Ends P E) (sym (bind_ok m f e)) h

  pub Ends-bind :
      (Q : A → S → Type 0) (m : Action S X A) (f : A → Action S X B) (s : S)
      → Ends Q E (m s)
      → ((a : A) (s' : S) → Q a s' → Ends P E (f a s'))
      → Ends P E ((m >>= f) s)
  unfolding ◌>>=◌
  Ends-bind Q m f s h k = after (m s) h
    where
      after :
          (o : Result X A × S)
          → Ends Q E o
          → Ends P E (let (r, s') = o in elim r [ ok a ↦ f a s' | err x ↦ (err x, s') ])
      after (ok a, s') h' = k a s' h'.holds
      after (err x, s') h' = record { holds = h'.holds }

module _ {S X A : Type 0} {P : A → S → Type 0} {E : X → S → Type 0} where
  pub Ends-catch :
      (F : X → S → Type 0) (m : Action S X A) (h : X → Action S X A) (s : S)
      → Ends P F (m s)
      → ((x : X) (s' : S) → F x s' → Ends P E (h x s'))
      → Ends P E (catch m h s)
  unfolding catch
  Ends-catch F m h s e k = after (m s) e
    where
      after :
          (o : Result X A × S)
          → Ends P F o
          → Ends P E (let (r, s') = o in elim r [ ok a ↦ (ok a, s') | err x ↦ h x s' ])
      after (ok a, s') e' = record { holds = e'.holds }
      after (err x, s') e' = k x s' e'.holds

module _ {S X A : Type 0} where
  pub gets_lem : (f : S → A) (s : S) → gets {X = X} f s ≡ (ok (f s), s)
  unfolding gets
  gets_lem f s = refl

  pub or_throw-some :
      (o : Option A) (x : X) (a : A) (s : S) → o ≡ some a → or_throw o x s ≡ (ok a, s)
  unfolding or_throw
  or_throw-some o x a s e = rw (e, or_throw)

  pub or_throw-none : (o : Option A) (x : X) (s : S) → o ≡ none → or_throw o x s ≡ (err x, s)
  unfolding or_throw
  or_throw-none o x s e = rw (e, or_throw)

module _ {S X : Type 0} where
  pub ensure-true : (b : Bool) (x : X) (s : S) → b ≡ true → ensure b x s ≡ (ok tt, s)
  unfolding ensure
  ensure-true b x s e = rw (e, ensure)

  pub ensure-false : (b : Bool) (x : X) (s : S) → b ≡ false → ensure b x s ≡ (err x, s)
  unfolding ensure
  ensure-false b x s e = rw (e, ensure)

-- an action that cannot throw returns
pub returns :
    {S X A : Type 0} {P : A → S → Type 0} (o : Result X A × S)
    → Ends P Never o
    → (a : A) × (s : S) × (o ≡ (ok a, s)) × P a s
returns (ok a, s) h = (a, s, refl, h.holds)
returns (err x, s) h = absurd h.holds
