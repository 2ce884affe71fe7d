-- ===== src/Payments/World.antt =====
-- The state that the payment service works on.
use payment_orchestration_la.Common.{List, [], ◌∷◌, ◌++◌}
use payment_orchestration_la.Common.Effect.{Result, ok, err, Action}
use payment_orchestration_la.Common.Effect.Rules.{Ends}
use payment_orchestration_la.Enums.{GatewayProvider}
use payment_orchestration_la.Database.{Database, Exception}
use payment_orchestration_la.Redis.{RedisClient}
use payment_orchestration_la.Routing.Stats.{StatsRepo, Shared}
use payment_orchestration_la.Double.{Double}
use payment_orchestration_la.Routing.Config.{Env}
use payment_orchestration_la.Payments.Charge.{GatewayChargeRequest, Outside}

-- What the service is built on: its database, Redis, arithmetic, environment and adapters.
pub record System : Type 1 where
  pub database : Database
  pub stats : StatsRepo
  pub client : RedisClient
  pub double : Double
  pub env : Env
  pub outside : Outside

module _ (Y : System) where
  abbrev Db : Type 0
  Db = Y.database.Db

  abbrev Both : Type 0
  Both = Shared Y.stats Y.client

  -- `charged` lists the calls of the adapters, the first one first.
  pub record World : Type 0 where
    pub db : Db
    pub shared : Both
    pub charged : List (GatewayProvider × GatewayChargeRequest)

  unfoldable pub on_db : {A : Type 0} → Action Db Exception A → Action World Exception A
  on_db m w = let (r, db') = m w.db in (r, record w { db = db' })

  unfoldable pub on_shared : {A : Type 0} → Action Both Exception A → Action World Exception A
  on_shared m w = let (r, s') = m w.shared in (r, record w { shared = s' })

  unfoldable pub call_adapter :
      GatewayProvider × GatewayChargeRequest → Action World Exception (Unit {0})
  call_adapter c w = (ok tt, record w { charged = w.charged ++ c ∷ [] })

  module _ {A : Type 0} {P : A → World → Type 0} {E : Exception → World → Type 0} where
    pub Ends-on_db :
        (m : Action Db Exception A) (w : World)
        → Ends
            (λ a db'. P a (record w { db = db' }))
            (λ x db'. E x (record w { db = db' }))
            (m w.db)
        → Ends P E (on_db m w)
    unfolding on_db
    Ends-on_db m w h = ended (m w.db) h
      where
        ended :
            (o : Result Exception A × Db)
            → Ends (λ a db'. P a (record w { db = db' })) (λ x db'. E x (record w { db = db' })) o
            → Ends P E (let (r, db') = o in (r, record w { db = db' }))
        ended (ok a, db') h' = record { holds = h'.holds }
        ended (err x, db') h' = record { holds = h'.holds }

    pub Ends-on_shared :
        (m : Action Both Exception A) (w : World)
        → Ends
            (λ a s'. P a (record w { shared = s' }))
            (λ x s'. E x (record w { shared = s' }))
            (m w.shared)
        → Ends P E (on_shared m w)
    unfolding on_shared
    Ends-on_shared m w h = ended (m w.shared) h
      where
        ended :
            (o : Result Exception A × Both)
            → Ends
                (λ a s'. P a (record w { shared = s' }))
                (λ x s'. E x (record w { shared = s' }))
                o
            → Ends P E (let (r, s') = o in (r, record w { shared = s' }))
        ended (ok a, s') h' = record { holds = h'.holds }
        ended (err x, s') h' = record { holds = h'.holds }
