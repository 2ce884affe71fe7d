-- ===== src/App/Process/Exclusion.antt =====
-- The critical sections of payment requests, however the awaits interleave.
use payment_orchestration_la.App.Process.Apart.{
  M, L, NotHeld, Backed, Apart, no_one, one_more, still-Backed, at-Moved,
}
use payment_orchestration_la.Common.{
  ℕ, String, ◌≡◌, ◌≢◌, Bool, true, false, none, some, List, [], ◌∷◌, ◌++◌, arith, subst,
}
use payment_orchestration_la.Common.Effect.{Result, ok, err}
use payment_orchestration_la.Enums.{GatewayProvider}
use payment_orchestration_la.Database.{Exception}
use payment_orchestration_la.Payments.Tasks.Exclusion.{post_payment-Fair, post_payment_starts}
use payment_orchestration_la.Webhooks.Events.{Inbox}
use payment_orchestration_la.Webhooks.Tasks.{hook_task}
use payment_orchestration_la.Webhooks.Tasks.Locking.{InboxQuiet, hook-Quiet, round-Quiet}
use payment_orchestration_la.Webhooks.Loop.{
  Phase, unstarted, in_round, pausing, stopped, Worker, fresh_worker, loop_head, on_module_init,
  on_module_destroy, tick,
}
use payment_orchestration_la.App.{Platform, App, system}
use payment_orchestration_la.App.Process.{
  Turn, accept_payment, accept_webhook, resume, start_worker, work, stop_worker, Request, Process,
  world_part, inbox_part, payment_request, webhook_request, take_turn, take_turns, fresh_process,
}
use payment_orchestration_la.Async.{Task, done, step, holding}
use payment_orchestration_la.Async.Rules.{Steps, first_of, rest-Steps}
use payment_orchestration_la.Async.Locks.{
  Fair, Quiet-Fair, zoom-Fair, answered-Fair, answered_holds, zoom_holds, Quiet-holds_none,
}

module _ (P : Platform) where
  payment-Fair :
      (env : _) (outside : _) (dto : _) (header : _)
      → Fair (M P) (L P) (payment_request P env outside dto header)
  unfolding payment_request
  payment-Fair env outside dto header = answered-Fair (
      zoom-Fair (world_part P env outside)
        (record {
          mode_in = λ a m. m;
          mode_out = λ a s m. m;
          lock_in = λ key a q. q;
          lock_out = λ key a s q. q;
        })
        (post_payment-Fair (system P env outside) dto header))

  payment_starts :
      (env : _) (outside : _) (dto : _) (header : _) (key : String)
      → holding (payment_request P env outside dto header) ≢ some key
  unfolding payment_request
  payment_starts env outside dto header key e =
      post_payment_starts (system P env outside) dto header key
        (zoom_holds (world_part P env outside) _ key (answered_holds _ key e))

  hook_quietly :
      (env : _) (g : GatewayProvider) (r : _)
      → Steps
          (InboxQuiet P.database P.events P.client)
          (hook_task P.database P.events P.client P.as_text P.crypto env g r)
  hook_quietly env g r = hook-Quiet P.database P.events P.client P.as_text P.crypto env g r

  webhook-Fair :
      (env : _) (g : GatewayProvider) (r : _) → Fair (M P) (L P) (webhook_request P env g r)
  unfolding webhook_request
  webhook-Fair env g r = answered-Fair (
      zoom-Fair (inbox_part P)
        (record {
          mode_in = λ a m. m;
          mode_out = λ a s m. m;
          lock_in = λ key a q. q;
          lock_out = λ key a s q. q;
        })
        (Quiet-Fair _ _ (hook_quietly env g r)))

  webhook_starts :
      (env : _) (g : GatewayProvider) (r : _) (a : App P) (key : String)
      → holding (webhook_request P env g r) ≢ some key
  unfolding webhook_request
  webhook_starts env g r a key e =
      Quiet-holds_none _ _ ((inbox_part P).get a) key (hook_quietly env g r)
        (zoom_holds (inbox_part P) _ key (answered_holds _ key e))

  data WorkerQuiet : Phase P.database P.events P.client → Type 0 where
    not_started : WorkerQuiet unstarted
    round_left :
        (t : Task (Inbox P.database P.events P.client) Exception (Unit {0}))
        → Steps (InboxQuiet P.database P.events P.client) t
        → WorkerQuiet (in_round t)
    paused : WorkerQuiet pausing
    ended_worker : WorkerQuiet stopped

  record Ticked (a : App P)
      (o : Worker P.database P.events P.client × Inbox P.database P.events P.client) : Type 0 where
    worker : WorkerQuiet o.0.phase
    mode : M P a → M P ((inbox_part P).put o.1 a)
    locks : (key : String) → L P key a → L P key ((inbox_part P).put o.1 a)

  head_quiet :
      (now : ℕ) (b : Bool) → WorkerQuiet (loop_head P.database P.events P.client P.as_text now b)
  unfolding loop_head
  head_quiet now true = round_left _ (round-Quiet P.database P.events P.client now P.as_text)
  head_quiet now false = ended_worker

  end_quiet :
      (now : ℕ) (b : Bool) (r : Result Exception (Unit {0}))
      → WorkerQuiet (elim r as (λ x. Phase P.database P.events P.client) [
        | ok u ↦ loop_head P.database P.events P.client P.as_text now b
        | err x ↦ pausing
      ])
  end_quiet now b (ok u) = head_quiet now b
  end_quiet now b (err x) = paused

  tick-Ticked :
      (now : ℕ) (b : Bool) (f : Phase P.database P.events P.client) (a : App P)
      → WorkerQuiet f
      → Ticked a (
          tick P.database P.events P.client P.as_text now
            (record { is_active = b; phase = f })
            ((inbox_part P).get a))
  unfolding tick
  tick-Ticked now b unstarted a h = record { worker = h; mode = λ m. m; locks = λ key q. q }
  tick-Ticked now b (in_round (done r)) a h = record {
    worker = end_quiet now b r;
    mode = λ m. m;
    locks = λ key q. q;
  }
  tick-Ticked now b (in_round (step l u k)) a (round_left _ h) =
      let quiet = first_of h ((inbox_part P).get a) in
      record {
        worker = round_left (k ((inbox_part P).get a)) (rest-Steps h ((inbox_part P).get a));
        mode = quiet.mode;
        locks = quiet.locks;
      }
  tick-Ticked now b pausing a h = record {
    worker = head_quiet now b;
    mode = λ m. m;
    locks = λ key q. q;
  }
  tick-Ticked now b stopped a h = record { worker = h; mode = λ m. m; locks = λ key q. q }

  record Exclusive (p : Process P) : Type 0 where
    mode : M P p.app
    apart : Apart P p.requests
    backed : Backed P p.app p.requests
    worker : WorkerQuiet p.worker.phase

  -- a request comes in
  comes_in :
      (t : Request P) (p : Process P)
      → Fair (M P) (L P) t
      → ((key : String) → holding t ≢ some key)
      → Exclusive p
      → Exclusive (record p { requests = t ∷ p.requests })
  comes_in t p f starts h = record {
    mode = h.mode;
    apart = one_more t p.requests f (λ key e. absurd (starts key e)) h.apart;
    backed = ((λ key e. absurd (starts key e)), h.backed);
    worker = h.worker;
  }

  turn-Exclusive : (turn : Turn) (p : Process P) → Exclusive p → Exclusive (take_turn P turn p)
  unfolding take_turn on_module_init on_module_destroy
  turn-Exclusive (accept_payment env outside dto header) p h =
      comes_in _ p (payment-Fair env outside dto header) (payment_starts env outside dto header) h
  turn-Exclusive (accept_webhook env g r) p h =
      comes_in _ p (webhook-Fair env g r) (webhook_starts env g r p.app) h
  turn-Exclusive (resume i) p h =
      let moved = at-Moved P p.requests i p.app h.mode h.apart h.backed in
      record { mode = moved.mode; apart = moved.apart; backed = moved.backed; worker = h.worker }
  turn-Exclusive (start_worker now) p h = record {
    mode = h.mode;
    apart = h.apart;
    backed = h.backed;
    worker = head_quiet now true;
  }
  turn-Exclusive (work now) p h =
      let ticked = tick-Ticked now p.worker.is_active p.worker.phase p.app h.worker in
      record {
        mode = ticked.mode h.mode;
        apart = h.apart;
        backed =
            still-Backed P p.app
              ((inbox_part P).put
                (tick P.database P.events P.client P.as_text now p.worker
                  ((inbox_part P).get p.app)).1
                p.app)
              none p.requests (λ key ne. ticked.locks key) (λ key e. absurd (ground (arith, e)))
              h.backed;
        worker = ticked.worker;
      }
  turn-Exclusive stop_worker p h = record {
    mode = h.mode;
    apart = h.apart;
    backed = h.backed;
    worker = h.worker;
  }

  turns-Exclusive :
      (turns : List Turn) (p : Process P) → Exclusive p → Exclusive (take_turns P turns p)
  unfolding take_turns
  turns-Exclusive [] p h = h
  turns-Exclusive (turn ∷ rest) p h =
      turns-Exclusive rest (take_turn P turn p) (turn-Exclusive turn p h)

  fresh-Exclusive : (a : App P) → M P a → Exclusive (fresh_process P a)
  unfolding fresh_process fresh_worker
  fresh-Exclusive a m = record { mode = m; apart = no_one; backed = tt; worker = not_started }

  not_among :
      (key : String) (middle rest : List (Request P)) (t : Request P)
      → NotHeld P key (middle ++ t ∷ rest)
      → holding t ≢ some key
  not_among key [] rest t h = h.0
  not_among key (x ∷ xs) rest t h = not_among key xs rest t h.1

  no_two :
      (first middle rest : List (Request P)) (t t' : Request P) (key : String)
      → Apart P (first ++ t ∷ (middle ++ t' ∷ rest))
      → holding t ≡ some key
      → holding t' ≢ some key
  no_two [] middle rest t t' key (one_more _ _ f alone h) e =
      not_among key middle rest t' (alone key e)
  no_two (x ∷ xs) middle rest t t' key (one_more _ _ f alone h) e =
      no_two xs middle rest t t' key h e

  -- However the awaits of the requests and the worker interleave, from a service whose Redis is in
  -- fallback mode: of two requests that are under way, the one does not hold the lock of a key that
  -- the other holds. No two requests are in the critical section of one idempotency key, which
  -- reaches from the SET NX that took the lock over the ranking, the row, all charges and the
  -- caching of the answer to the DEL after an error.
  pub mutual_exclusion :
      (turns : List Turn) (a : App P) (first middle rest : List (Request P)) (t t' : Request P)
      (key : String)
      → a.redis.is_mock_mode ≡ true
      → (take_turns P turns (fresh_process P a)).requests ≡ first ++ t ∷ (middle ++ t' ∷ rest)
      → holding t ≡ some key
      → holding t' ≢ some key
  mutual_exclusion turns a first middle rest t t' key fallen among e =
      no_two first middle rest t t' key
        (subst (λ ts. Apart P ts) among
          (turns-Exclusive turns (fresh_process P a) (fresh-Exclusive a fallen)).apart)
        e
