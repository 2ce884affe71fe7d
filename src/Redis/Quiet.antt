-- ===== src/Redis/Quiet.antt =====
-- What the calls of a service that has fallen back do to the locks of idempotency keys.
use payment_orchestration_la.Common.{String, ◌≡◌, refl, sym, subst, none}
use payment_orchestration_la.Redis.{RedisClient, RedisService}
use payment_orchestration_la.Redis.Mock.{IsMock}
use payment_orchestration_la.Redis.Store.{idempotency}
use payment_orchestration_la.Redis.Lock.{Call, step, Spares, IsLocked, step-IsLocked, step-IsMock}
use payment_orchestration_la.Async.Locks.{Quiet}

module _ (C : RedisClient) {T : Type 0} (service : T → RedisService C) where
  abbrev pub Fallen : T → Type 0
  Fallen s = IsMock C (service s)

  abbrev pub Taken : String → T → Type 0
  Taken key s = IsLocked C (idempotency key) (service s)

  -- a call that is no DEL of an idempotency key
  pub call-Quiet :
      (c : Call) (s s' : T)
      → ((key : String) → Spares (idempotency key) c)
      → service s' ≡ step C c (service s)
      → Quiet Fallen Taken none s s'
  call-Quiet c s s' spares e = record {
    free = refl;
    mode = λ m. subst (λ r. IsMock C r) (sym e) (step-IsMock C c (service s) m);
    locks = λ key h.
        subst (λ r. IsLocked C (idempotency key) r) (sym e)
          (step-IsLocked C key c (service s) (spares key) h);
  }

  -- a step that does not use Redis
  pub same-Quiet : (s s' : T) → service s' ≡ service s → Quiet Fallen Taken none s s'
  same-Quiet s s' e = record {
    free = refl;
    mode = λ m. subst (λ r. IsMock C r) (sym e) m;
    locks = λ key h. subst (λ r. IsLocked C (idempotency key) r) (sym e) h;
  }
