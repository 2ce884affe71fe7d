-- ===== src/Payments/Tasks/Exclusion.antt =====
-- The critical section of a payment request: it starts when SET NX takes the lock of the key, and
-- the request frees no lock but its own.
use payment_orchestration_la.Common.{
  String, ◌≡◌, ◌≢◌, refl, Bool, true, false, Option, none, some, arith, inl, eq_iff, str_eq, subst,
  if◌then◌else◌,
}
use payment_orchestration_la.Entities.{Transaction}
use payment_orchestration_la.Database.{Exception, bad_request}
use payment_orchestration_la.Redis.{RedisClient, RedisService, nx, ex, redis_set, mock_set}
use payment_orchestration_la.Redis.Mock.{IsMock}
use payment_orchestration_la.Redis.Lock.{
  IsLocked, read, write, remove, step, step-IsLocked, step-IsMock,
}
use payment_orchestration_la.Redis.Quiet.{call-Quiet}
use payment_orchestration_la.Redis.Store.{
  idempotency, processing_mark, set, has-eq-get, get-set, key_eq_refl,
}
use payment_orchestration_la.Routing.Engine.{redis}
use payment_orchestration_la.Payments.World.{System, World, on_shared}
use payment_orchestration_la.Payments.Requests.{CreateTransactionDto}
use payment_orchestration_la.Payments.Service.{on_redis}
use payment_orchestration_la.Payments.Controller.{with_header}
use payment_orchestration_la.Payments.Tasks.{
  release_task, locked_task, create_task, post_payment_task,
}
use payment_orchestration_la.Payments.Tasks.Each.{execute-Each, replay-Each}
use payment_orchestration_la.Payments.Tasks.Locking.{world_redis, M, L, Each-Quiet}
use payment_orchestration_la.Async.{await, fail, ◌>>=◌, holding, within}
use payment_orchestration_la.Async.Rules.{Steps, Steps-await, Steps-bind}
use payment_orchestration_la.Async.Locks.{
  Quiet, Fair, over, more, Quiet-Fair, within-Fair, Quiet-holds_none, within_holds,
}

module _ (C : RedisClient) (key : String) where
  take : RedisService C → Bool × RedisService C
  take s = redis_set C (idempotency key) processing_mark (some nx) (some ex) (some 10) s

  -- SET NX that answers OK found the key free, and leaves it locked
  take_locks :
      (s : RedisService C)
      → IsMock C s
      → (take s).0 ≡ true
      → (IsLocked C (idempotency key) s → ⊥) × IsLocked C (idempotency key) (take s).1
  unfolding take redis_set mock_set
  take_locks s mock taken = (
    λ locked. let h = locked.held_key in ground (arith, h),
    record {
      mock = ground arith;
      held_key = ground (
        arith,
        has-eq-get (idempotency key) (set (idempotency key) processing_mark s.mock_store),
        get-set (idempotency key) (idempotency key) processing_mark s.mock_store,
        key_eq_refl (idempotency key),
      );
    },
  )

module _ (Y : System) (dto : CreateTransactionDto) where
  abbrev key : String
  key = dto.idempotency_key

  release-Fair : (x : Exception) → Fair (M Y) (L Y) (within key (release_task Y dto x))
  unfolding release_task on_redis on_shared redis within await ◌>>=◌ fail step holding
  release-Fair x =
      more _ _ _
        (λ w m. record {
          mode = step-IsMock Y.client (remove (idempotency key)) w.shared.redis m;
          others = λ j ne h.
              step-IsLocked Y.client j (remove (idempotency key)) w.shared.redis
                (ground (arith, eq_iff key j, ne)) h;
          holds = λ j e. absurd (ground (arith, e));
        })
        (λ w m. over _)

  waiting-Quiet : Steps (Quiet (M Y) (L Y)) (locked_task Y dto false)
  unfolding locked_task on_redis on_shared redis step
  waiting-Quiet =
      Steps-bind
        (Steps-await _
          λ w. call-Quiet Y.client (world_redis Y) (read (idempotency key)) w _ (λ k. tt) refl)
        (replay-Each Y _ (Each-Quiet Y) dto)

  locked-Fair : (taken : Bool) → Fair (M Y) (L Y) (locked_task Y dto taken)
  unfolding locked_task
  locked-Fair true =
      within-Fair (M Y) (L Y) key _ (execute-Each Y _ (Each-Quiet Y) dto) release-Fair
  locked-Fair false = Quiet-Fair (M Y) (L Y) waiting-Quiet

  -- only the request that took the lock is in the critical section
  locked_holds :
      (taken : Bool) (w : World Y) (j : String)
      → holding (locked_task Y dto taken) ≡ some j
      → (taken ≡ true) × (some key ≡ some j)
  unfolding locked_task
  locked_holds true w j e = (refl, within_holds (M Y) (L Y) key j _ e)
  locked_holds false w j e = absurd (Quiet-holds_none (M Y) (L Y) w j waiting-Quiet e)

  create-Fair : Fair (M Y) (L Y) (create_task Y dto)
  unfolding create_task on_redis on_shared redis await ◌>>=◌ step take
  create-Fair =
      more _ _ _
        (λ w m. record {
          mode =
              step-IsMock Y.client
                (write (idempotency key) processing_mark (some nx) (some ex) (some 10))
                w.shared.redis m;
          others = λ j ne h.
              step-IsLocked Y.client j
                (write (idempotency key) processing_mark (some nx) (some ex) (some 10))
                w.shared.redis tt h;
          holds = λ j e.
              let (taken, same) = locked_holds _ w j e in
              inl (
                subst
                  (λ (o : Option String). elim o as (λ p. Type 0) [
                    | some k ↦
                        (L Y k w → ⊥)
                        × IsLocked Y.client (idempotency k) (take Y.client key w.shared.redis).1
                    | none ↦ Unit
                  ])
                  same (take_locks Y.client key w.shared.redis m taken));
        })
        (λ w m. locked-Fair _)

-- A posted payment frees no lock but its own, and is in the critical section of a key only after
-- it has found the key free and locked it.
pub post_payment-Fair :
    (Y : System) (dto : CreateTransactionDto) (header : Option String)
    → Fair (M Y) (L Y) (post_payment_task Y dto header)
unfolding post_payment_task fail
post_payment-Fair Y dto header = ends (str_eq (with_header header dto).idempotency_key "")
  where
    ends :
        (b : Bool)
        → Fair (M Y) (L Y) (
            if b
            then fail {A = Transaction}
                (bad_request "Idempotency-Key header or idempotencyKey body field is required")
            else create_task Y (with_header header dto))
    ends true = over _
    ends false = create-Fair Y (with_header header dto)

-- A request holds no lock when it comes in.
pub post_payment_starts :
    (Y : System) (dto : CreateTransactionDto) (header : Option String) (key : String)
    → holding (post_payment_task Y dto header) ≢ some key
unfolding post_payment_task fail create_task await ◌>>=◌ holding
post_payment_starts Y dto header key = starts (str_eq (with_header header dto).idempotency_key "")
  where
    starts :
        (b : Bool)
        → holding (
            if b
            then fail {A = Transaction}
                (bad_request "Idempotency-Key header or idempotencyKey body field is required")
            else create_task Y (with_header header dto))
          ≢ some key
    starts true e = ground (arith, e)
    starts false e = ground (arith, e)
