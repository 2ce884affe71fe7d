-- ===== src/Redis/Mock.antt =====
-- The service once it has fallen back to the map in memory.
use payment_orchestration_la.Common.{
  ℕ, ◌≡◌, ◌≢◌, ◌⊎◌, true, false, Option, none, some, arith, if◌then◌else◌,
}
use payment_orchestration_la.Common.Effect.{ok}
use payment_orchestration_la.Redis.{
  RedisClient, RedisService, nx, DurationMode, redis_get, redis_set, redis_del, lpush, brpop,
  mock_get, mock_set, mock_del, mock_lpush, mock_brpop,
}
use payment_orchestration_la.Redis.Store.{
  RedisKey, Stored, truthy_value, key_eq, key_eq_refl, get, set, delete, get-set, get-delete,
  has-eq-get,
}

module _ (C : RedisClient) where
  -- The service has fallen back.
  abbrev pub IsMock : RedisService C → Type 0
  IsMock s = s.is_mock_mode ≡ true

  -- What the service holds under `key`.
  abbrev pub held : RedisKey → RedisService C → Option Stored
  held key s = get key s.mock_store

  -- A plain SET in fallback mode answers OK, whatever its duration; GET then returns the value,
  -- if it is not the empty text, and every other key has the value that it had.
  pub get-set-IsMock :
      (key j : RedisKey) (value : Stored) (d : Option DurationMode) (n : Option ℕ)
      (s : RedisService C)
      → IsMock s
      → let (done, s') = redis_set C key value none d n s in
        (done ≡ true)
        × IsMock s'
        × ((redis_get C j s').0
            ≡ (if key_eq key j then truthy_value (some value) else (redis_get C j s).0))
  unfolding redis_set redis_get mock_set mock_get
  get-set-IsMock key j value d n s mock = ground (arith, get-set key j value s.mock_store)

  -- SET NX in fallback mode answers OK exactly if the key is absent, and then holds the value; if
  -- the key is present it answers null and the map is as it was.
  pub set_nx_mock :
      (key : RedisKey) (value : Stored) (d : Option DurationMode) (n : Option ℕ)
      (s : RedisService C)
      → IsMock s
      → let (done, s') = redis_set C key value (some nx) d n s in
        ((held key s ≡ none) × (done ≡ true) × (held key s' ≡ some value))
        ⊎ ((held key s ≢ none) × (done ≡ false) × (s'.mock_store ≡ s.mock_store))
  unfolding redis_set mock_set
  set_nx_mock key value d n s mock =
      ground
        (arith, has-eq-get key s.mock_store, get-set key key value s.mock_store, key_eq_refl key)

  -- DEL in fallback mode answers how many entries it took away, and the key is free again for
  -- SET NX.
  pub del_mock :
      (key : RedisKey) (value : Stored) (d : Option DurationMode) (n : Option ℕ)
      (s : RedisService C)
      → IsMock s
      → let (count, s') = redis_del C key s in
        (count ≡ (elim (held key s) [ none ↦ 0 | some v ↦ 1 ]))
        × ((redis_set C key value (some nx) d n s').0 ≡ true)
  unfolding redis_del redis_set mock_set mock_del
  del_mock key value d n s mock = ground (
    arith,
    has-eq-get key s.mock_store,
    has-eq-get key (delete key s.mock_store),
    get-delete key key s.mock_store,
    key_eq_refl key,
  )

  -- In fallback mode `brpop` returns the item that was pushed last, if it is not the empty text,
  -- and a second `brpop` finds nothing, however many items were pushed before: the queue holds one.
  pub queue_holds_one :
      (queue : RedisKey) (first second : Stored) (n : ℕ) (s : RedisService C)
      → IsMock s
      → truthy_value (some second) ≡ some second
      → let s₂ = (lpush C queue second (lpush C queue first s).1).1 in
        let (found, s₃) = brpop C queue n s₂ in
        (found ≡ ok (some second)) × ((brpop C queue n s₃).0 ≡ ok none)
  unfolding lpush brpop mock_lpush mock_brpop
  queue_holds_one queue first second n s mock some_text = ground (
    arith,
    get-set queue queue second (set queue first s.mock_store),
    key_eq_refl queue,
    get-delete queue queue (set queue second (set queue first s.mock_store)),
  )

  pub lpush_mock :
      (queue : RedisKey) (item : Stored) (s : RedisService C)
      → IsMock s
      → (lpush C queue item s).0 ≡ ok 1
  unfolding lpush mock_lpush
  lpush_mock queue item s mock = ground arith

  pub brpop-lpush :
      (queue : RedisKey) (item : Stored) (n : ℕ) (s : RedisService C)
      → IsMock s
      → truthy_value (some item) ≡ some item
      → (brpop C queue n (lpush C queue item s).1).0 ≡ ok (some item)
  unfolding lpush brpop mock_lpush mock_brpop
  brpop-lpush queue item n s mock some_text =
      ground (arith, get-set queue queue item s.mock_store, key_eq_refl queue)
