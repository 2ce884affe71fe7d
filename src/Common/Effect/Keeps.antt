-- ===== src/Common/Effect/Keeps.antt =====
-- Actions that keep a condition on the state, however they end.
use payment_orchestration_la.Common.{Bool, true, false, Option, none, some, if◌then◌else◌}
use payment_orchestration_la.Common.Effect.{
  Result, ok, err, Action, pure, throw, gets, catch, ◌>>=◌,
}
use payment_orchestration_la.Common.Effect.Rules.{
  Ends, Ends-bind, Ends-pure, Ends-throw, Ends-gets, Ends-catch,
}

pub record Keeps {S X A : Type 0} (I : S → Type 0) (m : Action S X A) : Type 0 where
  pub kept : (s : S) → I s → Ends (λ a s'. I s') (λ x s'. I s') (m s)

module _ {S X : Type 0} {I : S → Type 0} where
  pub Ends-any :
      {A : Type 0} (r : Result X A) (s : S) → I s → Ends (λ a s'. I s') (λ x s'. I s') (r, s)
  Ends-any (ok a) s h = record { holds = h }
  Ends-any (err x) s h = record { holds = h }

  pub Keeps-bind :
      {A B : Type 0} (m : Action S X A) (f : A → Action S X B)
      → Keeps I m
      → ((a : A) → Keeps I (f a))
      → Keeps I (m >>= f)
  Keeps-bind m f h k = record {
    kept = λ s i. Ends-bind (λ a s'. I s') m f s (h.kept s i) λ a s' i'. (k a).kept s' i';
  }

  pub Keeps-pure : {A : Type 0} (a : A) → Keeps I (pure {S = S} {X = X} a)
  Keeps-pure a = record { kept = λ s i. Ends-pure a s i }

  pub Keeps-throw : {A : Type 0} (x : X) → Keeps {A = A} I (throw x)
  Keeps-throw x = record { kept = λ s i. Ends-throw x s i }

  pub Keeps-gets : {A : Type 0} (f : S → A) → Keeps I (gets {X = X} f)
  Keeps-gets f = record { kept = λ s i. Ends-gets f s i }

  pub Keeps-if :
      {A : Type 0} (b : Bool) (m n : Action S X A)
      → Keeps I m
      → Keeps I n
      → Keeps I (if b then m else n)
  Keeps-if true m n h k = h
  Keeps-if false m n h k = k

  pub Keeps-elim :
      {A B : Type 0} (o : Option B) (n : Action S X A) (f : B → Action S X A)
      → Keeps I n
      → ((b : B) → Keeps I (f b))
      → Keeps I (elim o [ none ↦ n | some b ↦ f b ])
  Keeps-elim none n f h k = h
  Keeps-elim (some b) n f h k = k b

  pub Keeps-catch :
      {A : Type 0} (m : Action S X A) (h : X → Action S X A)
      → Keeps I m
      → ((x : X) → Keeps I (h x))
      → Keeps I (catch m h)
  Keeps-catch m h k l = record {
    kept = λ s i. Ends-catch (λ x s'. I s') m h s (k.kept s i) λ x s' i'. (l x).kept s' i';
  }
