-- ===== src/App/Process.antt =====
-- The service as one process on the event loop: the requests that are under way and the worker take
-- turns, and each turn runs one of them up to its next await.
pub mod Safety
pub mod Alone
pub mod Apart
pub mod Exclusion
use payment_orchestration_la.Common.{ℕ, zero, suc, String, Option, List, [], ◌∷◌, refl}
use payment_orchestration_la.Enums.{GatewayProvider}
use payment_orchestration_la.Database.{Exception}
use payment_orchestration_la.Routing.Config.{Env}
use payment_orchestration_la.Payments.Charge.{Outside}
use payment_orchestration_la.Payments.World.{World}
use payment_orchestration_la.Payments.Requests.{CreateTransactionDto}
use payment_orchestration_la.Payments.Tasks.{post_payment_task}
use payment_orchestration_la.Webhooks.Events.{Inbox}
use payment_orchestration_la.Webhooks.Endpoints.{HookRequest}
use payment_orchestration_la.Webhooks.Tasks.{hook_task}
use payment_orchestration_la.Webhooks.Loop.{
  Worker, fresh_worker, on_module_init, on_module_destroy, tick,
}
use payment_orchestration_la.App.{Platform, App, system, world, inbox}
use payment_orchestration_la.Async.{Task, done, step, give, ◌>>◌}
use payment_orchestration_la.Async.Lens.{Part, zoom}

-- Who runs next.
pub data Turn : Type 0 where
  accept_payment : Env → Outside → CreateTransactionDto → Option String → Turn
  accept_webhook : Env → GatewayProvider → HookRequest → Turn
  resume : ℕ → Turn
  start_worker : ℕ → Turn
  work : ℕ → Turn
  stop_worker : Turn

module _ (P : Platform) where
  abbrev pub Request : Type 0
  Request = Task (App P) Exception (Unit {0})

  pub record Process : Type 0 where
    pub app : App P
    pub requests : List Request
    pub worker : Worker P.database P.events P.client

  -- what the payment service works on
  abbrev pub world_part :
      (env : Env) (outside : Outside) → Part (App P) (World (system P env outside))
  world_part env outside = record {
    get = world P env outside;
    put = λ w a. record a {
      db = w.db;
      stats = w.shared.stats;
      redis = w.shared.redis;
      charged = w.charged;
    };
    get-put = λ w a. refl;
    put-get = λ a. refl;
    put-put = λ w w' a. refl;
  }

  -- what the webhook services work on
  abbrev pub inbox_part : Part (App P) (Inbox P.database P.events P.client)
  inbox_part = record {
    get = inbox P;
    put = λ w a. record a { db = w.db; events = w.events; redis = w.redis };
    get-put = λ w a. refl;
    put-get = λ a. refl;
    put-put = λ w w' a. refl;
  }

  unfoldable pub payment_request : Env → Outside → CreateTransactionDto → Option String → Request
  payment_request env outside dto header =
      zoom (world_part env outside) (post_payment_task (system P env outside) dto header) >> give tt

  unfoldable pub webhook_request : Env → GatewayProvider → HookRequest → Request
  webhook_request env gateway r =
      zoom inbox_part (hook_task P.database P.events P.client P.as_text P.crypto env gateway r)
      >> give tt

  -- A request runs up to its next await.
  unfoldable pub go_on : Request → App P → Request × App P
  go_on (done r) a = (done r, a)
  go_on (step l u k) a = (k a, u a)

  unfoldable pub go_on_at : List Request → ℕ → App P → List Request × App P
  unfolding go_on
  go_on_at [] i a = ([], a)
  go_on_at (t ∷ ts) zero a = let (t', a') = go_on t a in (t' ∷ ts, a')
  go_on_at (t ∷ ts) (suc i) a = let (ts', a') = go_on_at ts i a in (t ∷ ts', a')

  unfoldable pub take_turn : Turn → Process → Process
  unfolding payment_request webhook_request go_on_at
  take_turn (accept_payment env outside dto header) p = record p {
    requests = payment_request env outside dto header ∷ p.requests;
  }
  take_turn (accept_webhook env gateway r) p = record p {
    requests = webhook_request env gateway r ∷ p.requests;
  }
  take_turn (resume i) p =
      let (requests', app') = go_on_at p.requests i p.app in
      record p { requests = requests'; app = app' }
  take_turn (start_worker now) p = record p {
    worker = on_module_init P.database P.events P.client P.as_text now p.worker;
  }
  take_turn (work now) p =
      let (worker', w) = tick P.database P.events P.client P.as_text now p.worker (inbox P p.app) in
      record p { worker = worker'; app = inbox_part.put w p.app }
  take_turn stop_worker p = record p {
    worker = on_module_destroy P.database P.events P.client P.as_text p.worker;
  }

  unfoldable pub take_turns : List Turn → Process → Process
  unfolding take_turn
  take_turns [] p = p
  take_turns (turn ∷ rest) p = take_turns rest (take_turn turn p)

  -- The process before its first turn.
  unfoldable pub fresh_process : App P → Process
  fresh_process a = record {
    app = a;
    requests = [];
    worker = fresh_worker P.database P.events P.client;
  }
