-- ===== src/Payments/Create.antt =====
-- `create` of transactions/transactions.service.ts: what a request does whose key is held, and what
-- a request does that is the first one with its key.
use payment_orchestration_la.Common.{
  ◌≡◌, refl, true, false, none, some, List, ◌∷◌, ◌++◌, map, arith, sym, subst, ap, ◌∙◌,
}
use payment_orchestration_la.Common.Effect.{ok, err, pure, throw}
use payment_orchestration_la.Common.Effect.Rules.{Ends, Unchanged, Ends-bind, Ends-mono, bind_ok}
use payment_orchestration_la.Enums.{allowed, routed, GatewayProvider}
use payment_orchestration_la.Entities.{Transaction}
use payment_orchestration_la.Database.{IsLawful, IsAvailable, Inserted, Logged, conflict}
use payment_orchestration_la.Redis.{nx, ex, redis_set, redis_get, mock_set, mock_get}
use payment_orchestration_la.Redis.Store.{
  idempotency, Stored, processing_mark, completed, truthy_value, has-eq-get,
}
use payment_orchestration_la.Redis.Mock.{IsMock, held}
use payment_orchestration_la.Routing.Engine.{redis}
use payment_orchestration_la.Routing.Stats.{IsStatsRepo}
use payment_orchestration_la.Routing.Effects.{SavesAll}
use payment_orchestration_la.Payments.World.{System, World, on_shared, Ends-on_db}
use payment_orchestration_la.Payments.Requests.{
  CreateTransactionDto, new_transaction, creation_entry,
}
use payment_orchestration_la.Payments.Service.{on_redis, replay, create, create_with}
use payment_orchestration_la.Payments.Attempts.{tried, final_row}
use payment_orchestration_la.Payments.Row.{Row}
use payment_orchestration_la.Payments.Failover.{run_attempts_end, call_of}

module _ (Y : System) (dto : CreateTransactionDto) where
  open Y use {database, client}

  -- The service in fallback mode on a key that it holds: SET NX answers null, GET the value.
  set_held :
      (v : Stored) (w : World Y)
      → IsMock client w.shared.redis
      → held client (idempotency dto.idempotency_key) w.shared.redis ≡ some v
      → on_redis Y
          (redis_set client
            (idempotency dto.idempotency_key)
            processing_mark
            (some nx)
            (some ex)
            (some 10))
          w
        ≡ (ok false, w)
  unfolding on_redis on_shared redis redis_set mock_set
  set_held v w mock found =
      ground (arith, has-eq-get (idempotency dto.idempotency_key) w.shared.redis.mock_store)

  get_held :
      (v : Stored) (w : World Y)
      → IsMock client w.shared.redis
      → held client (idempotency dto.idempotency_key) w.shared.redis ≡ some v
      → on_redis Y (redis_get client (idempotency dto.idempotency_key)) w
        ≡ (ok (truthy_value (some v)), w)
  unfolding on_redis on_shared redis redis_get mock_get
  get_held v w mock found = ground arith

  -- A request whose key the service in fallback mode holds goes on from what the key holds.
  create-replay :
      (v : Stored) (w : World Y)
      → IsMock client w.shared.redis
      → held client (idempotency dto.idempotency_key) w.shared.redis ≡ some v
      → create Y dto w ≡ replay Y dto (truthy_value (some v)) w
  unfolding create
  create-replay v w mock found =
      bind_ok _ _ (set_held v w mock found) ∙ bind_ok _ (replay Y dto) (get_held v w mock found)

  -- A request whose key the service in fallback mode holds, while the first request with it is
  -- processed, is refused as a conflict; it changes nothing and charges nobody.
  pub create_conflicts :
      (w : World Y)
      → IsMock client w.shared.redis
      → held client (idempotency dto.idempotency_key) w.shared.redis ≡ some processing_mark
      → create Y dto w
        ≡ (err (conflict "Payment request is already processing. Please try again shortly."), w)
  unfolding replay throw
  create_conflicts w mock found = create-replay processing_mark w mock found

  -- A request whose key the service in fallback mode holds, with a completed transaction, is
  -- answered with that transaction; it changes nothing and charges nobody.
  pub create_replays :
      (t : Transaction) (w : World Y)
      → IsMock client w.shared.redis
      → held client (idempotency dto.idempotency_key) w.shared.redis ≡ some (completed t)
      → create Y dto w ≡ (ok t, w)
  unfolding replay pure
  create_replays t w mock found = create-replay (completed t) w mock found

module _ (Y : System) (lawful : IsLawful Y.database) (available : IsAvailable Y.database)
    (stats_law : IsStatsRepo Y.stats) (all : SavesAll Y.stats) (dto : CreateTransactionDto) where
  open Y use {database}

  -- What a first request has done: it has inserted one row, and left it as `final_row` says.
  pub record Created (g : GatewayProvider) (rest : List GatewayProvider) (t' : Transaction)
      (w w' : World Y) : Type 0 where
    pub inserted : Transaction
    pub columns : inserted ≡ record (new_transaction dto g rest) { id = inserted.id }
    pub fresh : database.find_txn inserted.id w.db ≡ none
    pub result : t' ≡ final_row Y dto inserted.id g rest inserted
    pub row :
        Row Y inserted.id
          (map
            (call_of Y lawful available stats_law all dto inserted.id)
            (tried Y dto inserted.id g rest))
          t'
          w
          w'

  -- Steps 3 and 4 for a ranking that is not empty, in a database that refuses no entry and no
  -- change of a row: either the new row is refused, and nothing has changed, or one row was
  -- inserted under an unused id, the gateways of `tried` were charged for it in that order, the
  -- row is returned and stored as `final_row` describes, and no other row has changed.
  pub create_with_end :
      (g : GatewayProvider) (rest : List GatewayProvider) (w : World Y)
      → Ends (λ t' w'. Created g rest t' w w') (Unchanged w) (create_with Y dto (g ∷ rest) w)
  unfolding create_with creation_entry new_transaction
  create_with_end g rest w =
      Ends-bind
        (λ t w₁.
          Inserted database (new_transaction dto g rest) t w.db w₁.db × (w₁.charged ≡ w.charged))
        _ _ w
        (Ends-on_db Y _ w (
          Ends-mono _ (lawful.insert_txn_lem (new_transaction dto g rest) w.db)
            (λ t db e done. (done, refl)) (λ x db e same. ap (λ d. record w { db = d }) same)))
        λ t w₁ i.
          Ends-bind
            (λ u w₂.
              Logged database (creation_entry t.id g) w₁.db w₂.db × (w₂.charged ≡ w₁.charged))
            _ _ w₁
            (Ends-on_db Y _ w₁ (
              Ends-mono _ (available.insert_audit_total (creation_entry t.id g) w₁.db)
                (λ u db e done. (done, refl)) (λ x db e never. absurd never)))
            λ u w₂ l.
              Ends-mono _
                (run_attempts_end Y lawful available stats_law all dto t.id g rest t w₂
                  (l.0.same_txn t.id ∙ i.0.stored)
                  (subst (λ x. allowed x.current_state routed ≡ true) (sym i.0.returned)
                    (unfold allowed in refl)))
                (λ t' w' e r. record {
                  inserted = t;
                  columns = i.0.returned;
                  fresh = i.0.unused;
                  result = r.0;
                  row = record {
                    stored = r.1.stored ∙ ap some (sym r.0);
                    others = λ j ne. r.1.others j ne ∙ (l.0.same_txn j ∙ i.0.others j ne);
                    charges =
                        r.1.charges
                        ∙ ap
                            (λ c.
                              c
                              ++ map (call_of Y lawful available stats_law all dto t.id)
                                  (tried Y dto t.id g rest))
                            (l.1 ∙ i.1);
                  };
                })
                (λ x s e never. absurd never)
