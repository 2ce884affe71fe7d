-- ===== src/App.antt =====
-- The whole service: payment requests, webhooks and rounds of the worker, one after the other, on
-- one database, one Redis and one set of tables.
pub mod Safety
pub mod Trail
pub mod Process
mod Tests
use payment_orchestration_la.Common.{ℕ, String, Option, List, [], ◌∷◌}
use payment_orchestration_la.Common.Effect.{Result, Action}
use payment_orchestration_la.Enums.{GatewayProvider}
use payment_orchestration_la.Json.{Json}
use payment_orchestration_la.Database.{Database, Exception}
use payment_orchestration_la.Redis.{RedisClient, RedisService}
use payment_orchestration_la.Double.{Double}
use payment_orchestration_la.Routing.Config.{Env}
use payment_orchestration_la.Routing.Stats.{StatsRepo}
use payment_orchestration_la.Payments.Charge.{Outside, GatewayChargeRequest}
use payment_orchestration_la.Payments.World.{System, World}
use payment_orchestration_la.Payments.Requests.{CreateTransactionDto}
use payment_orchestration_la.Payments.Controller.{post_payment}
use payment_orchestration_la.Webhooks.Events.{EventRepo, Inbox}
use payment_orchestration_la.Webhooks.Worker.{poll}
use payment_orchestration_la.Webhooks.Signature.{Crypto}
use payment_orchestration_la.Webhooks.Endpoints.{HookRequest, hook}

-- What the service runs on.
pub record Platform : Type 1 where
  pub database : Database
  pub stats : StatsRepo
  pub client : RedisClient
  pub events : EventRepo
  pub double : Double
  pub crypto : Crypto
  pub as_text : Json → String

-- A call of the service, with the environment, the adapters' answers and the time of that call.
pub data Call : Type 0 where
  pay : Env → Outside → CreateTransactionDto → Option String → Call
  notify : Env → GatewayProvider → HookRequest → Call
  work : ℕ → Call

module _ (P : Platform) where
  pub record App : Type 0 where
    pub db : P.database.Db
    pub stats : P.stats.State
    pub redis : RedisService P.client
    pub events : P.events.State
    pub charged : List (GatewayProvider × GatewayChargeRequest)

  abbrev pub system : Env → Outside → System
  system env outside = record {
    database = P.database;
    stats = P.stats;
    client = P.client;
    double = P.double;
    env = env;
    outside = outside;
  }

  abbrev pub world : (env : Env) (outside : Outside) → App → World (system env outside)
  world env outside a = record {
    db = a.db;
    shared = record { stats = a.stats; redis = a.redis };
    charged = a.charged;
  }

  abbrev pub inbox : App → Inbox P.database P.events P.client
  inbox a = record { db = a.db; events = a.events; redis = a.redis }

  -- The state that a call leaves; its answer goes to the caller.
  unfoldable pub serve : Call → App → App
  serve (pay env outside dto header) a =
      let w = (post_payment (system env outside) dto header (world env outside a)).1 in
      record a { db = w.db; stats = w.shared.stats; redis = w.shared.redis; charged = w.charged }
  serve (notify env gateway r) a =
      let w = (hook P.as_text P.database P.events P.client P.crypto env gateway r (inbox a)).1 in
      record a { db = w.db; events = w.events; redis = w.redis }
  serve (work now) a =
      let w = (poll P.database P.events P.client now P.as_text (inbox a)).1 in
      record a { db = w.db; events = w.events; redis = w.redis }

  unfoldable pub serve_all : List Call → App → App
  unfolding serve
  serve_all [] a = a
  serve_all (c ∷ cs) a = serve_all cs (serve c a)
