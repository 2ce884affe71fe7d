-- ===== src/Redis/Tests.antt =====
-- The service over a Redis that cannot be reached.
use payment_orchestration_la.Common.{◌≡◌, refl, true, false, none, some, List, [], ◌∷◌}
use payment_orchestration_la.Common.Effect.{err}
use payment_orchestration_la.Redis.{
  RedisClient, RedisService, Mode, nx, ex, redis_get, redis_set, redis_del, lpush, brpop,
}
use payment_orchestration_la.Redis.Store.{
  RedisKey, idempotency, circuit, reconciliation_queue, Stored, processing_mark, text, truthy_value,
  key_eq,
}
use payment_orchestration_la.Redis.Lifecycle.{
  Event, failed, wrote, destroyed, Handle, get_client, happen_all, on_module_init, constructed,
  get_client-defined,
}
use payment_orchestration_la.Redis.Lock.{Call, read, remove, push, pop, run, lock_excludes}
use payment_orchestration_la.Enums.{stripe}

abbrev pub unreachable : RedisClient
unreachable = record {
  Client = Unit {0};
  client_get = λ k c. (err tt, c);
  client_set = λ k v o c. (err tt, c);
  client_del = λ k c. (err tt, c);
  client_lpush = λ k v c. (err tt, c);
  client_brpop = λ k n c. (err tt, c);
}

abbrev pub fallen_back : RedisService unreachable
fallen_back = record { is_mock_mode = true; mock_store = []; client = tt }

abbrev k : RedisKey
k = idempotency "k"

abbrev calls : List Call
calls = read (idempotency "k") ∷ push "e1" ∷ remove (circuit stripe) ∷ pop 2 ∷ []

lock_excludes_example :
    (redis_set unreachable k processing_mark (some nx) (some ex) (some 10) (
      run unreachable calls
        (redis_set unreachable k processing_mark (some nx) (some ex) (some 10) fallen_back).1)).0
    ≡ false
unfolding redis_set payment_orchestration_la.Redis.mock_set payment_orchestration_la.Redis.Store.has
lock_excludes_example =
    lock_excludes unreachable "k" processing_mark processing_mark (some ex) (some 10) calls
      fallen_back refl (tt, (tt, (refl, (tt, tt)))) refl

-- the constructor throws, then a write and the end of the service
abbrev life : List (Event unreachable (λ host port. err tt) (λ c. c))
life = wrote k processing_mark ∷ failed ∷ destroyed ∷ []

get_client-defined_example :
    (h : Handle unreachable (λ host port. err tt) (λ c. c)) × (get_client unreachable
        (λ host port. err tt)
        (λ c. c)
        (happen_all unreachable
          (λ host port. err tt)
          (λ c. c)
          life
          (on_module_init unreachable
            (λ host port. err tt)
            (λ c. c)
            (λ name. none)
            (constructed unreachable (λ host port. err tt) (λ c. c))))
      ≡ some h)
get_client-defined_example =
    get_client-defined unreachable (λ host port. err tt) (λ c. c) (λ name. none) life
