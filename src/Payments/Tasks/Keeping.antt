-- ===== src/Payments/Tasks/Keeping.antt =====
-- No await of a payment request breaks what the calls of the state machine and the two writes that
-- create a row keep.
use payment_orchestration_la.Common.{String, Bool, true, false, Option}
use payment_orchestration_la.Common.Effect.{Action}
use payment_orchestration_la.Common.Effect.Keeps.{Keeps, Ends-any, Keeps-bind, Keeps-pure}
use payment_orchestration_la.Enums.{TransactionState}
use payment_orchestration_la.Entities.{Transaction, AuditLog}
use payment_orchestration_la.Database.{Exception}
use payment_orchestration_la.Routing.Stats.{Shared}
use payment_orchestration_la.StateMachine.{Metadata, transition}
use payment_orchestration_la.Payments.World.{System, World, on_shared, call_adapter}
use payment_orchestration_la.Payments.Requests.{CreateTransactionDto}
use payment_orchestration_la.Payments.Service.{on_redis, cache_completed, move}
use payment_orchestration_la.Payments.Controller.{with_header}
use payment_orchestration_la.Payments.Invariant.{OnDb, db-Keeps}
use payment_orchestration_la.Payments.Tasks.{
  shared_part, release_task, locked_task, create_task, post_payment_task,
}
use payment_orchestration_la.Payments.Tasks.Each.{Each, execute-Each, replay-Each}
use payment_orchestration_la.Async.{Task, await}
use payment_orchestration_la.Async.Rules.{
  Steps, Steps-await, Steps-fail, Steps-bind, Steps-rescue, Steps-if, Steps-within,
}
use payment_orchestration_la.Async.Keeping.{Keeping, Keeping-await, Keeping-gets, Steps-all}
use payment_orchestration_la.Async.Lens.{zoom, Steps-zoom}

-- What keeps `I`: each call of the state machine, and each of the writes that create a row.
pub record IsKeptAlways (Y : System) (I : Y.database.Db → Type 0) : Type 0 where
  pub moves :
      (id : String) (to : TransactionState) (md : Metadata)
      → Keeps I (transition Y.database Y.outside.now id to md)
  pub inserts : (t : Transaction) → Keeps I (Y.database.insert_txn t)
  pub logs : (e : AuditLog) → Keeps I (Y.database.insert_audit e)

module _ (Y : System) (I : Y.database.Db → Type 0) (k : IsKeptAlways Y I) where
  abbrev J : World Y → Type 0
  J = OnDb Y I

  module _ (dto : CreateTransactionDto) where
    shared-Keeping :
        {A : Type 0} (t : Task (Shared Y.stats Y.client) Exception A)
        → Steps (Keeping J) (zoom (shared_part Y) t)
    shared-Keeping t =
        Steps-zoom _ {R = λ l s s'. Unit {0}} (λ l a s u i. i) (Steps-all t λ l s s'. tt)

    call-Keeping :
        {A : Type 0} (m : Action (Shared Y.stats Y.client) Exception A)
        → Steps (Keeping J) (await (on_shared Y m))
    unfolding on_shared
    call-Keeping m = Steps-await _ λ w i. i

    move-Keeping :
        (id : String) (to : TransactionState) (md : Metadata)
        → Steps (Keeping J) (await (move Y id to md))
    unfolding move
    move-Keeping id to md = Keeping-await (db-Keeps Y I _ (k.moves id to md))

    cache-Keeping :
        (key : String) (t : Transaction) → Steps (Keeping J) (await (cache_completed Y key t))
    unfolding cache_completed on_redis on_shared
    cache-Keeping key t =
        Keeping-await
          (Keeps-bind _ _ (record { kept = λ w i. Ends-any _ _ i }) λ written. Keeps-pure _)

    each : Each Y (Keeping J)
    unfolding call_adapter
    each = record {
      reads = Keeping-gets;
      moves = move-Keeping;
      inserts = λ t. Keeping-await (db-Keeps Y I _ (k.inserts t));
      logs = λ e. Keeping-await (db-Keeps Y I _ (k.logs e));
      charges = λ c. Steps-await _ λ w i. i;
      ranks = λ amount. shared-Keeping _;
      successes = λ g latency. shared-Keeping _;
      failures = λ g latency. shared-Keeping _;
      caches = cache-Keeping;
    }

    locked-Keeping : (taken : Bool) → Steps (Keeping J) (locked_task Y dto taken)
    unfolding locked_task release_task on_redis
    locked-Keeping true =
        Steps-within _ (λ l s s' h. h)
          (Steps-rescue (execute-Each Y _ each dto)
            λ x. Steps-bind (call-Keeping _) λ n. Steps-fail _)
    locked-Keeping false = Steps-bind (call-Keeping _) (replay-Each Y _ each dto)

    create-Keeping : Steps (Keeping J) (create_task Y dto)
    unfolding create_task on_redis
    create-Keeping = Steps-bind (call-Keeping _) locked-Keeping

  -- No await of a posted payment breaks what the calls of the state machine and the two writes that
  -- create a row keep.
  pub post_payment-Keeping :
      (dto : CreateTransactionDto) (header : Option String)
      → Steps (Keeping J) (post_payment_task Y dto header)
  unfolding post_payment_task
  post_payment-Keeping dto header =
      Steps-if _ (Steps-fail _) (create-Keeping (with_header header dto))
