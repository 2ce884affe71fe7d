-- ===== src/Redis.antt =====
-- redis/redis.service.ts: Redis, or a map in memory once Redis has failed. ioredis is not part of
-- the repository; it is the interface `RedisClient`, whose calls may throw.
pub mod Store
pub mod Mock
pub mod Tests
pub mod Lock
pub mod Lifecycle
pub mod Quiet
use payment_orchestration_la.Common.{
  ℕ, String, Bool, true, false, Option, none, some, if◌then◌else◌, ltb, ◌≡◌,
}
use payment_orchestration_la.Common.Effect.{Result, ok, err}
use Store.{RedisKey, Stored, MockStore, get, set, has, delete, truthy_value}

pub data Mode : Type 0 where
  nx xx : Mode

pub data DurationMode : Type 0 where
  ex px : DurationMode

-- What follows key and value in a call of `client.set`.
pub data SetOptions : Type 0 where
  plain : SetOptions
  expiring : DurationMode → ℕ → SetOptions
  expiring_if : DurationMode → ℕ → Mode → SetOptions

-- The calls of ioredis; one that throws is `err`.
pub record RedisClient : Type 1 where
  pub Client : Type 0
  pub client_get : RedisKey → Client → Result (Unit {0}) (Option Stored) × Client
  -- 'OK' is `true`, and `null` is `false`
  pub client_set : RedisKey → Stored → SetOptions → Client → Result (Unit {0}) Bool × Client
  pub client_del : RedisKey → Client → Result (Unit {0}) ℕ × Client
  pub client_lpush : RedisKey → Stored → Client → Result (Unit {0}) ℕ × Client
  pub client_brpop : RedisKey → ℕ → Client → Result (Unit {0}) (Option Stored) × Client

abbrev is_nx : Option Mode → Bool
is_nx (some nx) = true
is_nx _ = false

-- The shapes of the call of `client.set`: a mode counts only beside a duration.
unfoldable pub set_options : Option Mode → Option DurationMode → Option ℕ → SetOptions
set_options (some m) (some d) (some n) = expiring_if d n m
set_options none (some d) (some n) = expiring d n
set_options _ _ _ = plain

-- `mockStore` in the branches of fallback mode
unfoldable pub mock_get : RedisKey → MockStore → Option Stored
mock_get key store = truthy_value (get key store)

unfoldable pub mock_set : RedisKey → Stored → Option Mode → MockStore → Bool × MockStore
mock_set key value mode store =
    if (if is_nx mode then has key store else false)
    then (false, store)
    else (true, set key value store)

unfoldable pub mock_del : RedisKey → MockStore → ℕ × MockStore
mock_del key store = (if has key store then 1 else 0, delete key store)

-- The queue of the fallback client: `lpush` stores the item under the name of the queue, and
-- `brpop` takes it away. The wait of 500 ms is left out.
unfoldable pub mock_lpush : RedisKey → Stored → MockStore → ℕ × MockStore
mock_lpush queue item store = (1, set queue item store)

unfoldable pub mock_brpop : RedisKey → MockStore → Option Stored × MockStore
mock_brpop queue store = elim (truthy_value (get queue store)) [
  | some item ↦ (some item, delete queue store)
  | none ↦ (none, store)
]

module _ (C : RedisClient) where
  open C use {Client, client_get, client_set, client_del, client_lpush, client_brpop}

  pub record RedisService : Type 0 where
    pub is_mock_mode : Bool
    pub mock_store : MockStore
    pub client : Client

  -- `this.client.on('error', …)`, and the `catch` of `onModuleInit`
  pub on_error : RedisService → RedisService
  on_error s = record s { is_mock_mode = true }

  -- `retryStrategy`: `null` stops the attempts
  pub retry_strategy : ℕ → RedisService → Option ℕ × RedisService
  unfolding on_error
  retry_strategy times s = if ltb 1 times then (none, on_error s) else (some 100, s)

  -- `isMockMode` is set already, or the `catch` sets it
  in_mock : {A : Type 0} → RedisService → A × MockStore → A × RedisService
  unfolding on_error
  in_mock s (a, store) = (a, record (on_error s) { mock_store = store })

  after_call :
      {A : Type 0}
      → (MockStore → A × MockStore)
      → RedisService
      → Result (Unit {0}) A × Client
      → A × RedisService
  unfolding in_mock
  after_call mock s (ok a, client') = (a, record s { client = client' })
  after_call mock s (err x, client') = in_mock (record s { client = client' }) (mock s.mock_store)

  -- `if (isMockMode) { mock } try { call } catch { isMockMode = true; mock }`, the shape of the
  -- three methods below
  pub or_mock :
      {A : Type 0}
      → (Client → Result (Unit {0}) A × Client)
      → (MockStore → A × MockStore)
      → RedisService
      → A × RedisService
  unfolding after_call
  or_mock call mock s =
      if s.is_mock_mode then in_mock s (mock s.mock_store) else after_call mock s (call s.client)

  unfoldable pub redis_get : RedisKey → RedisService → Option Stored × RedisService
  unfolding or_mock
  redis_get key = or_mock (client_get key) (λ store. (mock_get key store, store))

  unfoldable pub redis_set :
      RedisKey
      → Stored
      → Option Mode
      → Option DurationMode
      → Option ℕ
      → RedisService
      → Bool × RedisService
  unfolding or_mock
  redis_set key value mode duration_mode duration =
      or_mock (client_set key value (set_options mode duration_mode duration))
        (mock_set key value mode)

  unfoldable pub redis_del : RedisKey → RedisService → ℕ × RedisService
  unfolding or_mock
  redis_del key = or_mock (client_del key) (mock_del key)

  direct :
      {A : Type 0}
      → RedisService
      → Result (Unit {0}) A × Client
      → Result (Unit {0}) A × RedisService
  direct s (r, client') = (r, record s { client = client' })

  -- `getClient().lpush` and `getClient().brpop`: the real client may throw, with no way back
  unfoldable pub lpush : RedisKey → Stored → RedisService → Result (Unit {0}) ℕ × RedisService
  unfolding in_mock direct
  lpush queue item s =
      let (n, s') = in_mock s (mock_lpush queue item s.mock_store) in
      if s.is_mock_mode then (ok n, s') else direct s (client_lpush queue item s.client)

  unfoldable pub brpop :
      RedisKey → ℕ → RedisService → Result (Unit {0}) (Option Stored) × RedisService
  unfolding in_mock direct
  brpop queue timeout s =
      let (found, s') = in_mock s (mock_brpop queue s.mock_store) in
      if s.is_mock_mode then (ok found, s') else direct s (client_brpop queue timeout s.client)
