-- ===== src/Redis/Lifecycle.antt =====
-- `onModuleInit`, `onModuleDestroy` and `getClient` of redis/redis.service.ts. The constructor and
-- `disconnect` of ioredis are parameters; the constructor may throw.
use payment_orchestration_la.Common.{
  ℕ, String, Bool, true, false, Option, none, some, List, [], ◌∷◌, if◌then◌else◌, ◌≡◌, refl,
}
use payment_orchestration_la.Common.Effect.{Result, ok, err}
use payment_orchestration_la.Redis.{RedisClient, mock_get, mock_set, mock_del}
use payment_orchestration_la.Redis.Store.{RedisKey, Stored, MockStore}

-- What `configService.get` finds for the port: the default, or the text of the environment.
pub data Port : Type 0 where
  number : ℕ → Port
  setting : String → Port

module _ (C : RedisClient) (connect : String → Port → Result (Unit {0}) C.Client)
    (disconnect : C.Client → C.Client) where
  -- The fields of the service; `client` is not set before `onModuleInit`.
  pub record Fields : Type 0 where
    pub is_mock_mode : Bool
    pub mock_store : MockStore
    pub client : Option C.Client

  unfoldable pub constructed : Fields
  constructed = record { is_mock_mode = false; mock_store = []; client = none }

  unfoldable pub on_module_init : (String → Option String) → Fields → Fields
  on_module_init env s =
      let host : String = elim (env "REDIS_HOST") [ some h ↦ h | none ↦ "localhost" ] in
      let port : Port = elim (env "REDIS_PORT") [ some p ↦ setting p | none ↦ number 6379 ] in
      elim (connect host port) [
        | ok c ↦ record s { client = some c }
        | err x ↦ record s { is_mock_mode = true }
      ]

  unfoldable pub on_module_destroy : Fields → Fields
  on_module_destroy s = elim s.client [
    | some c ↦ if s.is_mock_mode then s else record s { client = some (disconnect c) }
    | none ↦ s
  ]

  -- `this.client.on('error', …)` and `retryStrategy` at its second attempt
  unfoldable pub fall_back : Fields → Fields
  fall_back s = record s { is_mock_mode = true }

  -- What `getClient` returns: the object of fallback mode, or the client.
  pub data Handle : Type 0 where
    fallback : Handle
    connected : C.Client → Handle

  unfoldable pub get_client : Fields → Option Handle
  get_client s =
      if s.is_mock_mode
      then some fallback
      else elim s.client [ some c ↦ some (connected c) | none ↦ none ]

  -- `get`, `set` and `del` of the object of fallback mode; its `set` knows no mode.
  unfoldable pub fallback_get : RedisKey → Fields → Option Stored × Fields
  fallback_get key s = (mock_get key s.mock_store, s)

  unfoldable pub fallback_set : RedisKey → Stored → Fields → Bool × Fields
  fallback_set key value s =
      let (r, store) = mock_set key value none s.mock_store in (r, record s { mock_store = store })

  unfoldable pub fallback_del : RedisKey → Fields → ℕ × Fields
  fallback_del key s =
      let (n, store) = mock_del key s.mock_store in (n, record s { mock_store = store })

  -- What happens to the service after `onModuleInit`.
  pub data Event : Type 0 where
    failed destroyed : Event
    wrote : RedisKey → Stored → Event
    removed : RedisKey → Event

  unfoldable pub happen : Event → Fields → Fields
  unfolding fall_back on_module_destroy fallback_set fallback_del
  happen failed s = fall_back s
  happen destroyed s = on_module_destroy s
  happen (wrote key value) s = (fallback_set key value s).1
  happen (removed key) s = (fallback_del key s).1

  unfoldable pub happen_all : List Event → Fields → Fields
  unfolding happen
  happen_all [] s = s
  happen_all (e ∷ es) s = happen_all es (happen e s)

  -- A client is there, or the service is in fallback mode.
  data IsUsable : Fields → Type 0 where
    with_client :
        (b : Bool) (m : MockStore) (c : C.Client)
        → IsUsable (record { is_mock_mode = b; mock_store = m; client = some c })
    without :
        (m : MockStore) (o : Option C.Client)
        → IsUsable (record { is_mock_mode = true; mock_store = m; client = o })

  init-IsUsable : (env : String → Option String) → IsUsable (on_module_init env constructed)
  unfolding on_module_init constructed
  init-IsUsable env = ends (connect _ _)
    where
      ends :
          (r : Result (Unit {0}) C.Client)
          → IsUsable (elim r as (λ x. Fields) [
            | ok c ↦ record { is_mock_mode = false; mock_store = []; client = some c }
            | err x ↦ record { is_mock_mode = true; mock_store = []; client = none }
          ])
      ends (ok c) = with_client _ _ _
      ends (err x) = without _ _

  happen-IsUsable : (e : Event) (s : Fields) → IsUsable s → IsUsable (happen e s)
  unfolding happen fall_back on_module_destroy fallback_set fallback_del
  happen-IsUsable failed s (with_client b m c) = without _ _
  happen-IsUsable failed s (without m o) = without _ _
  happen-IsUsable destroyed s (with_client true m c) = without _ _
  happen-IsUsable destroyed s (with_client false m c) = with_client _ _ _
  happen-IsUsable destroyed s (without m (some c)) = without _ _
  happen-IsUsable destroyed s (without m none) = without _ _
  happen-IsUsable (wrote key value) s (with_client b m c) = with_client _ _ _
  happen-IsUsable (wrote key value) s (without m o) = without _ _
  happen-IsUsable (removed key) s (with_client b m c) = with_client _ _ _
  happen-IsUsable (removed key) s (without m o) = without _ _

  happen_all-IsUsable : (es : List Event) (s : Fields) → IsUsable s → IsUsable (happen_all es s)
  unfolding happen_all
  happen_all-IsUsable [] s h = h
  happen_all-IsUsable (e ∷ es) s h = happen_all-IsUsable es (happen e s) (happen-IsUsable e s h)

  usable_client : (s : Fields) → IsUsable s → (h : Handle) × (get_client s ≡ some h)
  unfolding get_client
  usable_client s (with_client true m c) = (fallback, refl)
  usable_client s (with_client false m c) = (connected c, refl)
  usable_client s (without m o) = (fallback, refl)

  -- After `onModuleInit`, whether or not ioredis throws and whatever happens then, `getClient` hands
  -- out the client or the object of fallback mode, and never `undefined`.
  pub get_client-defined :
      (env : String → Option String) (es : List Event)
      → (h : Handle) × (get_client (happen_all es (on_module_init env constructed)) ≡ some h)
  get_client-defined env es = usable_client _ (happen_all-IsUsable es _ (init-IsUsable env))
