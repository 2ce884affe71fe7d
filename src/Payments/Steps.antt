-- ===== src/Payments/Steps.antt =====
-- The single steps of the failover loop, where the database refuses no write.
use mathlib.Core.List.{append-nil}
use payment_orchestration_la.Common.{ℕ, String, ◌≡◌, refl, true, some, [], ◌∷◌, sym, ap, ◌∙◌}
use payment_orchestration_la.Common.Effect.Rules.{Ends, Never, Ends-bind, Ends-pure, Ends-mono}
use payment_orchestration_la.Enums.{TransactionState, GatewayProvider, allowed}
use payment_orchestration_la.Entities.{Transaction}
use payment_orchestration_la.Database.{IsLawful, IsAvailable}
use payment_orchestration_la.Routing.Stats.{IsStatsRepo}
use payment_orchestration_la.Routing.Engine.{redis, record_success, record_failure}
use payment_orchestration_la.Routing.Effects.{SavesAll, record_success_end, record_failure_end}
use payment_orchestration_la.StateMachine.{Metadata, mutate}
use payment_orchestration_la.StateMachine.Transition.{transition_total}
use payment_orchestration_la.Payments.Charge.{GatewayChargeRequest}
use payment_orchestration_la.Payments.World.{
  System, World, Ends-on_db, Ends-on_shared, call_adapter, on_shared,
}
use payment_orchestration_la.Payments.Service.{move, cache_completed}
use payment_orchestration_la.Payments.Row.{Row, Row-same}

module _ (Y : System) (lawful : IsLawful Y.database) (available : IsAvailable Y.database)
    (stats_law : IsStatsRepo Y.stats) (all : SavesAll Y.stats) where
  open Y use {database, outside, stats, client, double}

  pub move_end :
      (id : String) (to : TransactionState) (metadata : Metadata) (t : Transaction) (w : World Y)
      → database.find_txn id w.db ≡ some t
      → allowed t.current_state to ≡ true
      → Ends
          (λ t' w'.
            (t' ≡ mutate outside.now to metadata t)
            × Row Y id [] (mutate outside.now to metadata t) w w')
          Never
          (move Y id to metadata w)
  unfolding move
  move_end id to metadata t w found may = Ends-on_db Y _ w (
      Ends-mono _
        (transition_total database lawful available outside.now id to metadata t w.db found may)
        (λ t' db' e moved. (
          moved.result,
          record {
            stored = moved.stored ∙ ap some moved.result;
            others = moved.others;
            charges = sym (append-nil w.charged);
          },
        ))
        (λ x s e never. never))

  pub success_end :
      (id : String) (t : Transaction) (g : GatewayProvider) (latency : ℕ) (w : World Y)
      → database.find_txn id w.db ≡ some t
      → Ends
          (λ u w'. Row Y id [] t w w')
          Never
          (on_shared Y (record_success stats client double g latency) w)
  success_end id t g latency w found = Ends-on_shared Y _ w (
      Ends-mono _ (record_success_end stats client double stats_law all g latency w.shared)
        (λ u s e done. Row-same Y found refl refl) (λ x s e never. never))

  pub failure_end :
      (id : String) (t : Transaction) (g : GatewayProvider) (latency : ℕ) (w : World Y)
      → database.find_txn id w.db ≡ some t
      → Ends
          (λ u w'. Row Y id [] t w w')
          Never
          (on_shared Y (record_failure stats client double g latency) w)
  failure_end id t g latency w found = Ends-on_shared Y _ w (
      Ends-mono _ (record_failure_end stats client double stats_law all g latency w.shared)
        (λ u s e done. Row-same Y found refl refl) (λ x s e never. never))

  pub cache_end :
      (id key : String) (t cached : Transaction) (w : World Y)
      → database.find_txn id w.db ≡ some t
      → Ends (λ u w'. Row Y id [] t w w') Never (cache_completed Y key cached w)
  unfolding cache_completed redis
  cache_end id key t cached w found =
      Ends-bind (λ a w'. Row Y id [] t w w') _ _ w
        (Ends-on_shared Y _ w (record { holds = Row-same Y found refl refl }))
        (λ a w' same. Ends-pure tt w' same)

  pub call_end :
      (id : String) (t : Transaction) (c : GatewayProvider × GatewayChargeRequest) (w : World Y)
      → database.find_txn id w.db ≡ some t
      → Ends (λ u w'. Row Y id (c ∷ []) t w w') Never (call_adapter Y c w)
  unfolding call_adapter
  call_end id t c w found = record {
    holds = record { stored = found; others = λ j ne. refl; charges = refl };
  }
