-- ===== src/Async/Keeping.antt =====
-- Methods none of whose steps breaks a condition on the state.
use payment_orchestration_la.Common.{String, Option}
use payment_orchestration_la.Common.Effect.{Result, ok, err, Action, gets}
use payment_orchestration_la.Common.Effect.Rules.{Ends}
use payment_orchestration_la.Common.Effect.Keeps.{Keeps}
use payment_orchestration_la.Async.{Task, done, step, await}
use payment_orchestration_la.Async.Rules.{Guarantee, Steps, ended, going, Steps-await}

abbrev pub Keeping : {S : Type 0} → (S → Type 0) → Guarantee S
Keeping I l s s' = I s → I s'

-- the state that an action leaves, however it ends
left_in :
    {S X A : Type 0} (I : S → Type 0) (o : Result X A × S)
    → Ends (λ a s'. I s') (λ x s'. I s') o
    → I o.1
left_in I (ok a, s) h = h.holds
left_in I (err x, s) h = h.holds

module _ {S X A : Type 0} where
  pub Keeping-await : {I : S → Type 0} {m : Action S X A} → Keeps I m → Steps (Keeping I) (await m)
  Keeping-await {I = I} {m = m} h = Steps-await m λ s i. left_in I (m s) (h.kept s i)

  -- reading changes nothing
  pub Keeping-gets : {I : S → Type 0} (f : S → A) → Steps {X = X} (Keeping I) (await (gets f))
  unfolding gets
  Keeping-gets f = Steps-await _ λ s i. i

  -- what is true of all changes of the state
  pub Steps-all :
      {R : Guarantee S} (t : Task S X A) → ((l : Option String) (s s' : S) → R l s s') → Steps R t
  Steps-all (done r) h = ended r
  Steps-all (step l u k) h = going l u k (λ s. h l s (u s)) (λ s. Steps-all (k s) h)
