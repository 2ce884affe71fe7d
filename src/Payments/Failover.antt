-- ===== src/Payments/Failover.antt =====
-- The failover loop does what its plain description says, where the database refuses no write.
use payment_orchestration_la.Common.{
  ℕ, ◌+◌, String, ◌≡◌, refl, true, false, Bool, some, List, [], ◌∷◌, map, length, if◌then◌else◌,
  subst, ap, ◌∙◌,
}
use payment_orchestration_la.Common.Effect.{Action, ◌>>=◌}
use payment_orchestration_la.Common.Effect.Rules.{Ends, Never, Ends-bind, Ends-pure, Ends-mono}
use payment_orchestration_la.Enums.{
  routed, processing, retry_pending, success, failed, GatewayProvider, allowed,
}
use payment_orchestration_la.Entities.{Transaction}
use payment_orchestration_la.Database.{IsLawful, IsAvailable, Exception}
use payment_orchestration_la.Routing.Stats.{IsStatsRepo}
use payment_orchestration_la.Routing.Effects.{SavesAll}
use payment_orchestration_la.StateMachine.{mutate}
use payment_orchestration_la.Payments.Charge.{GatewayChargeRequest, GatewayChargeResponse}
use payment_orchestration_la.Payments.World.{System, World}
use payment_orchestration_la.Payments.Requests.{
  CreateTransactionDto, routed_metadata, processing_metadata, success_metadata, retry_metadata,
  failure_metadata, charge_request,
}
use payment_orchestration_la.Payments.Service.{
  attempt, finish_success, finish_failed, settle, run_attempts,
}
use payment_orchestration_la.Payments.Attempts.{
  answer_of, pays, tried, final_state, at_charge, paid_row, final_row, final_row_state,
  final_row_count,
}
use payment_orchestration_la.Payments.Row.{Row, Row-trans}
use payment_orchestration_la.Payments.Steps.{
  move_end, success_end, failure_end, cache_end, call_end,
}

if_same : {A : Type 0} (b : Bool) (x : A) → (if b then x else x) ≡ x
if_same true x = refl
if_same false x = refl

if_map :
    {A B : Type 0} (f : A → B) (b : Bool) (xs ys : List A)
    → (if b then map f xs else map f ys) ≡ map f (if b then xs else ys)
if_map f true xs ys = refl
if_map f false xs ys = refl

module _ (Y : System) (lawful : IsLawful Y.database) (available : IsAvailable Y.database)
    (stats_law : IsStatsRepo Y.stats) (all : SavesAll Y.stats) where
  open Y use {database, outside, stats, client, double}

  -- a branch, where the description branches alike
  if_end :
      (b : Bool) (id : String) (t₁ t₂ : Transaction)
      (c₁ c₂ : List (GatewayProvider × GatewayChargeRequest)) (w w₁ : World Y)
      (m n : Action (World Y) Exception Transaction)
      → Ends (λ t' w'. (t' ≡ t₁) × Row Y id c₁ t₁ w w') Never (m w₁)
      → Ends (λ t' w'. (t' ≡ t₂) × Row Y id c₂ t₂ w w') Never (n w₁)
      → Ends
          (λ t' w'.
            (t' ≡ (if b then t₁ else t₂))
            × Row Y id (if b then c₁ else c₂) (if b then t₁ else t₂) w w')
          Never
          ((if b then m else n) w₁)
  if_end true id t₁ t₂ c₁ c₂ w w₁ m n hm hn = hm
  if_end false id t₁ t₂ c₁ c₂ w w₁ m n hm hn = hn

  module _ (dto : CreateTransactionDto) (id : String) where
    pub call_of : GatewayProvider → GatewayProvider × GatewayChargeRequest
    call_of g = (g, charge_request dto id g)

    attempt_end :
        (g : GatewayProvider) (t : Transaction) (w : World Y)
        → database.find_txn id w.db ≡ some t
        → allowed t.current_state routed ≡ true
        → Ends
            (λ a w'.
              (a ≡ answer_of Y dto id g) × Row Y id (call_of g ∷ []) (at_charge Y dto id g t) w w')
            Never
            (attempt Y dto id g w)
    unfolding attempt at_charge call_of
    attempt_end g t w found may =
        Ends-bind _ _ _ w
          (move_end Y lawful available stats_law all id routed (routed_metadata g) t w found may)
          λ t₁ w₁ r₁.
            Ends-bind _ _ _ w₁
              (move_end Y lawful available stats_law all id processing (processing_metadata g) _ w₁
                r₁.1.stored (unfold mutate allowed in refl))
              λ t₂ w₂ r₂.
                Ends-bind _ _ _ w₂
                  (call_end Y lawful available stats_law all id _ (g, charge_request dto id g) w₂
                    r₂.1.stored)
                  λ u w₃ r₃. Ends-pure _ w₃ (refl, Row-trans Y (Row-trans Y r₁.1 r₂.1) r₃)

    -- what `finish_success` and `finish_failed` leave
    finish_success_end :
        (g : GatewayProvider) (t : Transaction) (w : World Y)
        → database.find_txn id w.db ≡ some (at_charge Y dto id g t)
        → Ends
            (λ t' w'. (t' ≡ paid_row Y dto id g t) × Row Y id [] (paid_row Y dto id g t) w w')
            Never
            (finish_success Y dto id g (answer_of Y dto id g) w)
    unfolding finish_success paid_row
    finish_success_end g t w found =
        Ends-bind _ _ _ w
          (move_end Y lawful available stats_law all id success
            (success_metadata g (answer_of Y dto id g).0) _ w found
            (unfold mutate allowed at_charge in refl))
          λ t₁ w₁ r₁.
            Ends-bind _ _ _ w₁
              (success_end Y lawful available stats_law all id _ g _ w₁ r₁.1.stored)
              λ u w₂ r₂.
                Ends-bind _ _ _ w₂
                  (cache_end Y lawful available stats_law all id dto.idempotency_key _ t₁ w₂
                    r₂.stored)
                  λ v w₃ r₃. Ends-pure t₁ w₃ (r₁.0, Row-trans Y r₁.1 (Row-trans Y r₂ r₃))

    finish_failed_end :
        (g : GatewayProvider) (t : Transaction) (w : World Y)
        → database.find_txn id w.db ≡ some (at_charge Y dto id g t)
        → let t₁ =
            mutate outside.now failed
              (failure_metadata g (answer_of Y dto id g).0)
              (at_charge Y dto id g t) in
          Ends
            (λ t' w'. (t' ≡ t₁) × Row Y id [] t₁ w w')
            Never
            (finish_failed Y dto id g (answer_of Y dto id g) w)
    unfolding finish_failed
    finish_failed_end g t w found =
        Ends-bind _ _ _ w
          (move_end Y lawful available stats_law all id failed
            (failure_metadata g (answer_of Y dto id g).0) _ w found
            (unfold mutate allowed at_charge in refl))
          λ t₁ w₁ r₁.
            Ends-bind _ _ _ w₁
              (cache_end Y lawful available stats_law all id dto.idempotency_key _ t₁ w₁
                r₁.1.stored)
              λ v w₂ r₂. Ends-pure t₁ w₂ (r₁.0, Row-trans Y r₁.1 r₂)

    -- one round of the loop, for any continuation of a failed charge
    round_end :
        (g : GatewayProvider) (t lost : Transaction)
        (more : List (GatewayProvider × GatewayChargeRequest))
        (on_failure : GatewayChargeResponse × ℕ → Action (World Y) Exception Transaction)
        (w : World Y)
        → database.find_txn id w.db ≡ some t
        → allowed t.current_state routed ≡ true
        → ((w' : World Y)
            → database.find_txn id w'.db ≡ some (at_charge Y dto id g t)
            → Ends
                (λ t' w''. (t' ≡ lost) × Row Y id more lost w' w'')
                Never
                (on_failure (answer_of Y dto id g) w'))
        → let t₁ = if pays Y dto id g then paid_row Y dto id g t else lost in
          let calls = if pays Y dto id g then call_of g ∷ [] else call_of g ∷ more in
          Ends
            (λ t' w'. (t' ≡ t₁) × Row Y id calls t₁ w w')
            Never
            ((attempt Y dto id g >>= settle Y dto id g on_failure) w)
    unfolding settle
    round_end g t lost more on_failure w found may next =
        Ends-bind _ _ _ w (attempt_end g t w found may) λ a w₁ r₁. rw r₁.0 (
          if_end (pays Y dto id g) id (paid_row Y dto id g t) lost (call_of g ∷ [])
            (call_of g ∷ more) w w₁ _ _
            (Ends-mono _ (finish_success_end g t w₁ r₁.1.stored)
              (λ t' w' e r. (r.0, Row-trans Y r₁.1 r.1)) (λ x s e never. never))
            (Ends-bind _ _ _ w₁
              (failure_end Y lawful available stats_law all id _ g _ w₁ r₁.1.stored)
              λ u w₂ r₂.
                Ends-mono _ (next w₂ r₂.stored)
                  (λ t' w' e r. (r.0, Row-trans Y r₁.1 (Row-trans Y r₂ r.1)))
                  (λ x s e never. never)))

    -- The loop, in a database that refuses no write and from a row that may be routed, returns. It
    -- returns the row that `final_row` describes and leaves it in the database, changes no other
    -- row, and has charged exactly the gateways of `tried`, in that order.
    pub run_attempts_end :
        (g : GatewayProvider) (rest : List GatewayProvider) (t : Transaction) (w : World Y)
        → database.find_txn id w.db ≡ some t
        → allowed t.current_state routed ≡ true
        → Ends
            (λ t' w'.
              (t' ≡ final_row Y dto id g rest t)
              × Row Y id (map call_of (tried Y dto id g rest)) (final_row Y dto id g rest t) w w')
            Never
            (run_attempts Y dto id g rest w)
    unfolding run_attempts final_row
    run_attempts_end g [] t w found may =
        Ends-mono _
          (round_end g t _ [] (finish_failed Y dto id g) w found may
            (λ w' found'. finish_failed_end g t w' found'))
          (λ t' w' e r. (
            r.0,
            subst (λ c. Row Y id c (final_row Y dto id g [] t) w w') (if_same (pays Y dto id g) _)
                r.1,
          ))
          (λ x s e never. never)
    run_attempts_end g (next ∷ rest) t w found may =
        let waiting =
          mutate outside.now retry_pending (retry_metadata g (answer_of Y dto id g).0)
            (at_charge Y dto id g t) in
        Ends-mono _
          (round_end g t (final_row Y dto id next rest waiting)
            (map call_of (tried Y dto id next rest)) _ w found may
            λ w' found'.
              Ends-bind _ _ _ w'
                (move_end Y lawful available stats_law all id retry_pending
                  (retry_metadata g (answer_of Y dto id g).0) _ w' found'
                  (unfold mutate allowed at_charge in refl))
                λ t₁ w₁ r₁.
                  Ends-mono _
                    (run_attempts_end next rest waiting w₁ r₁.1.stored
                      (unfold mutate allowed in refl))
                    (λ t₂ w₂ e r. (r.0, Row-trans Y r₁.1 r.1)) (λ x s e never. never))
          (λ t' w' e r. (
            r.0,
            subst (λ c. Row Y id c (final_row Y dto id g (next ∷ rest) t) w w')
                (if_map call_of (pays Y dto id g) (g ∷ []) (g ∷ tried Y dto id next rest)) r.1,
          ))
          (λ x s e never. never)

    -- The loop, in a database that refuses no write and from a row that may be routed, returns a
    -- transaction that is SUCCESS if one of the gateways pays within the time limit and FAILED
    -- otherwise, and whose attempts have grown by the number of gateways that were charged.
    pub run_attempts_result :
        (g : GatewayProvider) (rest : List GatewayProvider) (t : Transaction) (w : World Y)
        → database.find_txn id w.db ≡ some t
        → allowed t.current_state routed ≡ true
        → Ends
            (λ t' w'.
              (t'.current_state ≡ final_state Y dto id g rest)
              × (t'.attempt_count ≡ t.attempt_count + length (tried Y dto id g rest)))
            Never
            (run_attempts Y dto id g rest w)
    run_attempts_result g rest t w found may =
        Ends-mono _ (run_attempts_end g rest t w found may)
          (λ t' w' e r. (
            ap (λ x. x.current_state) r.0 ∙ final_row_state Y dto id g rest t,
            ap (λ x. x.attempt_count) r.0 ∙ final_row_count Y dto id g rest t,
          ))
          (λ x s e never. never)
