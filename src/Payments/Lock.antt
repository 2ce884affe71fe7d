-- ===== src/Payments/Lock.antt =====
-- The idempotency key of a first request, with Redis in fallback mode.
use payment_orchestration_la.Common.{
  String, ℕ, ◌≡◌, ap, true, false, Bool, none, some, List, [], ◌∷◌, arith, if◌then◌else◌, Option,
}
use payment_orchestration_la.Common.Effect.{ok, Action, pure, throw, ◌>>=◌, ◌>>◌}
use payment_orchestration_la.Common.Effect.Rules.{
  Ends, Ends-bind, Ends-bind_known, Ends-throw, Ends-gets, Ends-catch,
}
use payment_orchestration_la.Common.Effect.Keeps.{Keeps, Ends-any, Keeps-bind, Keeps-pure}
use payment_orchestration_la.Enums.{retry_pending, GatewayProvider}
use payment_orchestration_la.Entities.{Transaction}
use payment_orchestration_la.Database.{Exception}
use payment_orchestration_la.Redis.{nx, ex, redis_set, redis_del, mock_set, mock_del}
use payment_orchestration_la.Redis.Store.{
  idempotency, processing_mark, completed, has-eq-get, get-set, get-delete, key_eq_refl,
}
use payment_orchestration_la.Redis.Mock.{IsMock, held}
use payment_orchestration_la.Routing.Engine.{redis}
use payment_orchestration_la.Payments.World.{
  System, World, on_db, on_shared, Ends-on_shared, call_adapter,
}
use payment_orchestration_la.Payments.Charge.{GatewayChargeResponse}
use payment_orchestration_la.Payments.Requests.{CreateTransactionDto, retry_metadata}
use payment_orchestration_la.Payments.Service.{
  on_redis, cache_completed, move, attempt, finish_success, finish_failed, settle, run_attempts,
  create_with, cache_existing, execute, release, create,
}
use payment_orchestration_la.Payments.Fallback.{
  SharedMock, ranked-Keeps, success-Keeps, failure-Keeps,
}

module _ (Y : System) where
  open Y use {database, client, stats}

  abbrev pub Mocked : World Y → Type 0
  Mocked w = IsMock client w.shared.redis

  db-Keeps : {A : Type 0} (m : Action database.Db Exception A) → Keeps Mocked (on_db Y m)
  unfolding on_db
  db-Keeps m = record { kept = λ w mock. Ends-any (m w.db).0 _ mock }

  shared-Keeps :
      {A : Type 0} (m : Action _ Exception A)
      → Keeps (SharedMock stats client) m
      → Keeps Mocked (on_shared Y m)
  shared-Keeps m h = record { kept = λ w mock. Ends-on_shared Y m w (h.kept w.shared mock) }

  call-Keeps : (c : _) → Keeps Mocked (call_adapter Y c)
  unfolding call_adapter
  call-Keeps c = record { kept = λ w mock. record { holds = mock } }

  module _ (dto : CreateTransactionDto) where
    -- the answer of a request is cached under its key
    abbrev pub Cached : Transaction → World Y → Type 0
    Cached t w =
        Mocked w
        × (held client (idempotency dto.idempotency_key) w.shared.redis ≡ some (completed t))

    abbrev Thrown : Exception → World Y → Type 0
    Thrown x w = Mocked w

    cached_lem :
        (t : Transaction) (w : World Y)
        → Mocked w
        → Ends Cached Thrown ((cache_completed Y dto.idempotency_key t >> pure t) w)
    unfolding cache_completed on_redis on_shared redis redis_set mock_set pure ◌>>=◌
    cached_lem t w mock = record {
      holds = ground (
        arith,
        get-set (idempotency dto.idempotency_key) (idempotency dto.idempotency_key) (completed t)
            w.shared.redis.mock_store,
        key_eq_refl (idempotency dto.idempotency_key),
      );
    }

    attempt-Keeps : (id : String) (g : GatewayProvider) → Keeps Mocked (attempt Y dto id g)
    unfolding attempt move
    attempt-Keeps id g =
        Keeps-bind _ _ (db-Keeps _)
          λ t. Keeps-bind _ _ (db-Keeps _) λ u. Keeps-bind _ _ (call-Keeps _) λ v. Keeps-pure _

    success_caches :
        (id : String) (g : GatewayProvider) (a : _) (w : World Y)
        → Mocked w
        → Ends Cached Thrown (finish_success Y dto id g a w)
    unfolding finish_success move
    success_caches id g a w mock = Ends-bind _ _ _ w ((db-Keeps _).kept w mock) λ t w₁ mock₁.
        Ends-bind _ _ _ w₁ ((shared-Keeps _ (success-Keeps _ _ _ _ _)).kept w₁ mock₁)
          λ u w₂ mock₂. cached_lem t w₂ mock₂

    failed_caches :
        (id : String) (g : GatewayProvider) (a : _) (w : World Y)
        → Mocked w
        → Ends Cached Thrown (finish_failed Y dto id g a w)
    unfolding finish_failed move
    failed_caches id g a w mock =
        Ends-bind _ _ _ w ((db-Keeps _).kept w mock) λ t w₁ mock₁. cached_lem t w₁ mock₁

    if_caches :
        (b : Bool) (m n : Action (World Y) Exception Transaction) (w : World Y)
        → Ends Cached Thrown (m w)
        → Ends Cached Thrown (n w)
        → Ends Cached Thrown ((if b then m else n) w)
    if_caches true m n w hm hn = hm
    if_caches false m n w hm hn = hn

    settle_caches :
        (id : String) (g : GatewayProvider)
        (f : GatewayChargeResponse × ℕ → Action (World Y) Exception Transaction)
        (a : GatewayChargeResponse × ℕ) (w : World Y)
        → ((w' : World Y) → Mocked w' → Ends Cached Thrown (f a w'))
        → Mocked w
        → Ends Cached Thrown (settle Y dto id g f a w)
    unfolding settle
    settle_caches id g f a w next mock =
        if_caches a.0.success _ _ w (success_caches id g a w mock) (
          Ends-bind _ _ _ w ((shared-Keeps _ (failure-Keeps _ _ _ _ _)).kept w mock)
            λ u w₁ mock₁. next w₁ mock₁)

    run_caches :
        (id : String) (g : GatewayProvider) (rest : List GatewayProvider) (w : World Y)
        → Mocked w
        → Ends Cached Thrown (run_attempts Y dto id g rest w)
    unfolding run_attempts move
    run_caches id g [] w mock = Ends-bind _ _ _ w ((attempt-Keeps id g).kept w mock) λ a w₁ mock₁.
        settle_caches id g (finish_failed Y dto id g) a w₁ (failed_caches id g a) mock₁
    run_caches id g (next ∷ rest) w mock =
        Ends-bind _ _ _ w ((attempt-Keeps id g).kept w mock) λ a w₁ mock₁.
          settle_caches id g
            (λ b. move Y id retry_pending (retry_metadata g b.0) >> run_attempts Y dto id next rest)
            a w₁
            (λ w₂ mock₂.
              Ends-bind _ _ _ w₂ ((db-Keeps _).kept w₂ mock₂)
                λ t w₃ mock₃. run_caches id next rest w₃ mock₃)
            mock₁

    create_with_caches :
        (gs : List GatewayProvider) (w : World Y)
        → Mocked w
        → Ends Cached Thrown (create_with Y dto gs w)
    unfolding create_with
    create_with_caches [] w mock = Ends-throw _ w mock
    create_with_caches (g ∷ gs) w mock = Ends-bind _ _ _ w ((db-Keeps _).kept w mock) λ t w₁ mock₁.
        Ends-bind _ _ _ w₁ ((db-Keeps _).kept w₁ mock₁) λ u w₂ mock₂. run_caches t.id g gs w₂ mock₂

    found_caches :
        (o : Option Transaction) (n : Action (World Y) Exception Transaction) (w : World Y)
        → Mocked w
        → Ends Cached Thrown (n w)
        → let m : Action (World Y) Exception Transaction = elim o [
          | none ↦ n
          | some t ↦ cache_existing Y dto t
        ] in
          Ends Cached Thrown (m w)
    unfolding cache_existing
    found_caches none n w mock h = h
    found_caches (some t) n w mock h = cached_lem t w mock

    execute_caches : (w : World Y) → Mocked w → Ends Cached Thrown (execute Y dto w)
    unfolding execute
    execute_caches w mock =
        Ends-bind (λ o w'. Mocked w') _ _ w (Ends-gets _ w mock)
          λ o w₁ mock₁. found_caches o _ w₁ mock₁ (
            Ends-bind _ _ _ w₁ ((shared-Keeps _ (ranked-Keeps _ _ _ _ _)).kept w₁ mock₁)
              λ gs w₂ mock₂. create_with_caches gs w₂ mock₂)

    -- the key is free again
    abbrev pub Freed : Exception → World Y → Type 0
    Freed x w = held client (idempotency dto.idempotency_key) w.shared.redis ≡ none

    release_frees : (x : Exception) (w : World Y) → Mocked w → Ends Cached Freed (release Y dto x w)
    unfolding release on_redis on_shared redis redis_del mock_del throw ◌>>=◌
    release_frees x w mock = record {
      holds = ground (
        arith,
        get-delete (idempotency dto.idempotency_key) (idempotency dto.idempotency_key)
            w.shared.redis.mock_store,
        key_eq_refl (idempotency dto.idempotency_key),
      );
    }

    -- SET NX on a key that is free
    pub take_free :
        (w : World Y)
        → Mocked w
        → held client (idempotency dto.idempotency_key) w.shared.redis ≡ none
        → let o =
            on_redis Y
              (redis_set client
                (idempotency dto.idempotency_key)
                processing_mark
                (some nx)
                (some ex)
                (some 10))
              w in
          (o.0 ≡ ok true) × Mocked o.1
    unfolding on_redis on_shared redis redis_set mock_set
    take_free w mock free =
        ground (arith, has-eq-get (idempotency dto.idempotency_key) w.shared.redis.mock_store)

    -- A first request, with Redis in fallback mode and whatever the database refuses and the
    -- adapters answer: if `create` returns a transaction, that is cached under the key, and if it
    -- throws, the key is free again for a retry. The key is never left locked.
    pub create_frees_key :
        (w : World Y)
        → IsMock client w.shared.redis
        → held client (idempotency dto.idempotency_key) w.shared.redis ≡ none
        → Ends Cached Freed (create Y dto w)
    unfolding create
    create_frees_key w mock free =
        let taken = take_free w mock free in
        let o =
          on_redis Y
            (redis_set client (idempotency dto.idempotency_key) processing_mark (some nx) (some ex)
              (some 10))
            w in
        Ends-bind_known _ _ w o.1 true (ap (λ r. (r, o.1)) taken.0)
          (Ends-catch Thrown _ _ o.1 (execute_caches o.1 taken.1) release_frees)
