-- ===== src/Payments/Tasks/Alone.antt =====
-- A payment request that runs alone does what `create` of Payments/Service does.
use payment_orchestration_la.Common.{
  ℕ, String, Bool, true, false, Option, none, some, List, [], ◌∷◌,
}
use payment_orchestration_la.Common.Effect.{Action, catch, ◌>>=◌}
use payment_orchestration_la.Enums.{GatewayProvider}
use payment_orchestration_la.Database.{Exception}
use payment_orchestration_la.Entities.{Transaction}
use payment_orchestration_la.Redis.{redis_get}
use payment_orchestration_la.Redis.Store.{idempotency, Stored, processing_mark, completed, text}
use payment_orchestration_la.Routing.Stats.{Shared}
use payment_orchestration_la.Routing.Tasks.{ranked-Does, success-Does, failure-Does}
use payment_orchestration_la.Payments.Charge.{GatewayChargeResponse}
use payment_orchestration_la.Payments.World.{System, World, on_shared}
use payment_orchestration_la.Payments.Requests.{CreateTransactionDto}
use payment_orchestration_la.Payments.Service.{
  on_redis, attempt, finish_success, finish_failed, settle, run_attempts, create_with,
  cache_existing, execute, replay_stored, replay, release, create,
}
use payment_orchestration_la.Payments.Controller.{with_header, checked, post_payment}
use payment_orchestration_la.Payments.Tasks.{
  shared_part, attempt_task, finish_success_task, finish_failed_task, settle_task, attempts_task,
  create_with_task, existing_task, execute_task, replay_task, release_task, locked_task,
  create_task, post_payment_task,
}
use payment_orchestration_la.Async.{Task}
use payment_orchestration_la.Async.Lens.{zoom, zoomed, Does-zoom}
use payment_orchestration_la.Async.Alone.{
  Does, Does-await, Does-give, Does-fail, Does-bind, Does-rescue, Does-within, Does-if, Does-elim,
}

module _ (Y : System) (dto : CreateTransactionDto) where
  shared-Does :
      {A : Type 0} {t : Task (Shared Y.stats Y.client) Exception A}
      {m : Action (Shared Y.stats Y.client) Exception A}
      → Does t m
      → Does (zoom (shared_part Y) t) (on_shared Y m)
  unfolding on_shared zoomed
  shared-Does h = Does-zoom (shared_part Y) h

  attempt-Does :
      (id : String) (g : GatewayProvider) → Does (attempt_task Y dto id g) (attempt Y dto id g)
  unfolding attempt_task attempt
  attempt-Does id g =
      Does-bind (Does-await _)
        λ t. Does-bind (Does-await _) λ u. Does-bind (Does-await _) λ v. Does-give _

  success_end-Does :
      (id : String) (g : GatewayProvider) (a : GatewayChargeResponse × ℕ)
      → Does (finish_success_task Y dto id g a) (finish_success Y dto id g a)
  unfolding finish_success_task finish_success
  success_end-Does id g a = Does-bind (Does-await _) λ t.
      Does-bind (shared-Does (success-Does _ _ _ g _))
        λ u. Does-bind (Does-await _) λ v. Does-give _

  failed_end-Does :
      (id : String) (g : GatewayProvider) (a : GatewayChargeResponse × ℕ)
      → Does (finish_failed_task Y dto id g a) (finish_failed Y dto id g a)
  unfolding finish_failed_task finish_failed
  failed_end-Does id g a = Does-bind (Does-await _) λ t. Does-bind (Does-await _) λ v. Does-give _

  settle-Does :
      (id : String) (g : GatewayProvider)
      {f : GatewayChargeResponse × ℕ → Task (World Y) Exception Transaction}
      {n : GatewayChargeResponse × ℕ → Action (World Y) Exception Transaction}
      → ((a : GatewayChargeResponse × ℕ) → Does (f a) (n a))
      → (a : GatewayChargeResponse × ℕ) → Does (settle_task Y dto id g f a) (settle Y dto id g n a)
  unfolding settle_task settle
  settle-Does id g h a =
      Does-if _ (success_end-Does id g a)
        (Does-bind (shared-Does (failure-Does _ _ _ g _)) λ u. h a)

  attempts-Does :
      (id : String) (g : GatewayProvider) (rest : List GatewayProvider)
      → Does (attempts_task Y dto id g rest) (run_attempts Y dto id g rest)
  unfolding attempts_task run_attempts
  attempts-Does id g [] = Does-bind (attempt-Does id g) (settle-Does id g (failed_end-Does id g))
  attempts-Does id g (next ∷ rest) =
      Does-bind (attempt-Does id g)
        (settle-Does id g λ a. Does-bind (Does-await _) λ t. attempts-Does id next rest)

  create_with-Does :
      (gs : List GatewayProvider) → Does (create_with_task Y dto gs) (create_with Y dto gs)
  unfolding create_with_task create_with
  create_with-Does [] = Does-fail _
  create_with-Does (g ∷ gs) =
      Does-bind (Does-await _) λ t. Does-bind (Does-await _) λ u. attempts-Does t.id g gs

  existing-Does : (t : Transaction) → Does (existing_task Y dto t) (cache_existing Y dto t)
  unfolding existing_task cache_existing
  existing-Does t = Does-bind (Does-await _) λ u. Does-give _

  execute-Does : Does (execute_task Y dto) (execute Y dto)
  unfolding execute_task execute
  execute-Does = Does-bind (Does-await _) λ o.
      Does-elim o (Does-bind (shared-Does (ranked-Does _ _ _ _ _)) create_with-Does) existing-Does

  replay-Does : (o : Option Stored) → Does (replay_task Y dto o) (replay Y dto o)
  unfolding replay_task replay replay_stored
  replay-Does (some processing_mark) = Does-fail _
  replay-Does (some (completed t)) = Does-give _
  replay-Does (some (text s)) = Does-fail _
  replay-Does none = Does-bind (Does-await _) λ o. Does-elim o (Does-fail _) existing-Does

  release-Does : (x : Exception) → Does (release_task Y dto x) (release Y dto x)
  unfolding release_task release
  release-Does x = Does-bind (Does-await _) λ n. Does-fail _

  locked-Does :
      (taken : Bool)
      → Does
          (locked_task Y dto taken)
          (elim taken as (λ x. Action (World Y) Exception Transaction) [
            | true ↦ catch (execute Y dto) (release Y dto)
            | false ↦
                on_redis Y (redis_get Y.client (idempotency dto.idempotency_key)) >>= replay Y dto
          ])
  unfolding locked_task
  locked-Does true = Does-within _ (Does-rescue execute-Does release-Does)
  locked-Does false = Does-bind (Does-await _) replay-Does

  pub create-Does : Does (create_task Y dto) (create Y dto)
  unfolding create_task create
  create-Does = Does-bind (Does-await _) locked-Does

-- A posted payment that runs alone.
pub post_payment-Does :
    (Y : System) (dto : CreateTransactionDto) (header : Option String)
    → Does (post_payment_task Y dto header) (post_payment Y dto header)
unfolding post_payment_task post_payment checked
post_payment-Does Y dto header = Does-if _ (Does-fail _) (create-Does Y (with_header header dto))
