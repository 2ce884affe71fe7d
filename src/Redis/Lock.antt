-- ===== src/Redis/Lock.antt =====
-- The lock of an idempotency key, over any calls of a service that has fallen back.
use payment_orchestration_la.Common.{
  ℕ, String, All, ◌≡◌, true, false, Option, some, List, [], ◌∷◌, arith,
}
use payment_orchestration_la.Redis.{
  RedisClient, RedisService, Mode, nx, DurationMode, redis_get, redis_set, redis_del, lpush, brpop,
  mock_get, mock_set, mock_del, mock_lpush, mock_brpop,
}
use payment_orchestration_la.Redis.Mock.{IsMock}
use payment_orchestration_la.Redis.Store.{
  RedisKey, idempotency, reconciliation_queue, Stored, text, key_eq, key_eq_refl, has, set, delete,
  get-set, get-delete, has-eq-get,
}

-- What the program does with its Redis service, one call at a time.
pub data Call : Type 0 where
  read : RedisKey → Call
  write : RedisKey → Stored → Option Mode → Option DurationMode → Option ℕ → Call
  remove : RedisKey → Call
  push : String → Call
  pop : ℕ → Call

-- The call is no `del` of `key`.
abbrev pub Spares : RedisKey → Call → Type 0
Spares key (remove j) = key_eq j key ≡ false
Spares key _ = Unit

module _ (C : RedisClient) where
  unfoldable pub step : Call → RedisService C → RedisService C
  step (read key) s = (redis_get C key s).1
  step (write key value m d n) s = (redis_set C key value m d n s).1
  step (remove key) s = (redis_del C key s).1
  step (push id) s = (lpush C reconciliation_queue (text id) s).1
  step (pop n) s = (brpop C reconciliation_queue n s).1

  pub run : List Call → RedisService C → RedisService C
  unfolding step
  run [] s = s
  run (c ∷ cs) s = run cs (step c s)

  -- `key` is locked by a service that has fallen back
  pub record IsLocked (key : RedisKey) (s : RedisService C) : Type 0 where
    pub mock : IsMock C s
    pub held_key : has key s.mock_store ≡ true

  has-set :
      (k j : RedisKey) (v : Stored) (m : List (RedisKey × Stored))
      → has j m ≡ true
      → has j (set k v m) ≡ true
  has-set k j v m h = ground (arith, has-eq-get j m, has-eq-get j (set k v m), get-set k j v m)

  has-delete :
      (k j : RedisKey) (m : List (RedisKey × Stored))
      → key_eq k j ≡ false
      → has j m ≡ true
      → has j (delete k m) ≡ true
  has-delete k j m ne h =
      ground (arith, has-eq-get j m, has-eq-get j (delete k m), get-delete k j m)

  pub step-IsLocked :
      (key : String) (c : Call) (s : RedisService C)
      → Spares (idempotency key) c
      → IsLocked (idempotency key) s
      → IsLocked (idempotency key) (step c s)
  unfolding step redis_get redis_set redis_del lpush brpop mock_get mock_set mock_del mock_lpush
      mock_brpop
  step-IsLocked key (read j) s spares h = ground arith
  step-IsLocked key (write j v m d n) s spares h =
      ground (arith, has-set j (idempotency key) v s.mock_store)
  step-IsLocked key (remove j) s spares h =
      ground (arith, has-delete j (idempotency key) s.mock_store)
  step-IsLocked key (push id) s spares h =
      ground (arith, has-set reconciliation_queue (idempotency key) (text id) s.mock_store)
  step-IsLocked key (pop n) s spares h =
      ground (arith, has-delete reconciliation_queue (idempotency key) s.mock_store)

  -- A service that has fallen back stays so.
  pub step-IsMock : (c : Call) (s : RedisService C) → IsMock C s → IsMock C (step c s)
  unfolding step redis_get redis_set redis_del lpush brpop mock_get mock_set mock_del mock_lpush
      mock_brpop
  step-IsMock (read j) s h = ground arith
  step-IsMock (write j v m d n) s h = ground arith
  step-IsMock (remove j) s h = ground arith
  step-IsMock (push id) s h = ground arith
  step-IsMock (pop n) s h = ground arith

  run-IsLocked :
      (key : String) (cs : List Call) (s : RedisService C)
      → All (Spares (idempotency key)) cs
      → IsLocked (idempotency key) s
      → IsLocked (idempotency key) (run cs s)
  unfolding run
  run-IsLocked key [] s spares h = h
  run-IsLocked key (c ∷ cs) s spares h =
      run-IsLocked key cs (step c s) spares.1 (step-IsLocked key c s spares.0 h)

  -- In fallback mode, once SET NX has taken the lock of an idempotency key, SET NX on that key
  -- answers null after any calls on any keys of which none is a DEL of it. No time ends the lock.
  pub lock_excludes :
      (key : String) (v w : Stored) (d : Option DurationMode) (n : Option ℕ) (cs : List Call)
      (s : RedisService C)
      → IsMock C s
      → All (Spares (idempotency key)) cs
      → (redis_set C (idempotency key) v (some nx) d n s).0 ≡ true
      → (redis_set C
          (idempotency key)
          w
          (some nx)
          d
          n
          (run cs (redis_set C (idempotency key) v (some nx) d n s).1)).0
        ≡ false
  unfolding redis_set mock_set
  lock_excludes key v w d n cs s mock spares taken =
      let k = idempotency key in
      let s' = (redis_set C k v (some nx) d n s).1 in
      let locked : IsLocked k s' = record {
        mock = ground arith;
        held_key =
            ground (
              arith,
              has-eq-get k (set k v s.mock_store),
              get-set k k v s.mock_store,
              key_eq_refl k,
            );
      } in
      let h = run-IsLocked key cs s' spares locked in ground (arith, h.mock, h.held_key)
