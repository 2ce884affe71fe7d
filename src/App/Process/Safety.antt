-- ===== src/App/Process/Safety.antt =====
-- What no interleaving of requests and worker can do to the transactions.
use payment_orchestration_la.Common.{
  ℕ, zero, suc, String, Bool, true, false, ◌≡◌, ◌⊎◌, some, List, [], ◌∷◌, subst,
}
use payment_orchestration_la.Common.Effect.{Result, ok, err}
use payment_orchestration_la.Enums.{success, reconciled, GatewayProvider}
use payment_orchestration_la.Enums.Graph.{Reach, success_settles}
use payment_orchestration_la.Entities.{Transaction}
use payment_orchestration_la.Database.{Exception, IsLawful}
use payment_orchestration_la.StateMachine.Evolution.{
  Evolves, Evolves-refl, transition-Keeps, insert-Keeps, audit-Keeps,
}
use payment_orchestration_la.Payments.Tasks.Keeping.{post_payment-Keeping}
use payment_orchestration_la.Webhooks.Events.{Inbox}
use payment_orchestration_la.Webhooks.Invariant.{OnTxns}
use payment_orchestration_la.Webhooks.Tasks.Keeping.{hook-Keeping, round-Keeping}
use payment_orchestration_la.Webhooks.Loop.{
  Phase, unstarted, in_round, pausing, stopped, Worker, fresh_worker, loop_head, on_module_init,
  on_module_destroy, tick,
}
use payment_orchestration_la.App.{Platform, App, system}
use payment_orchestration_la.App.Process.{
  Turn, accept_payment, accept_webhook, resume, start_worker, work, stop_worker, Request, Process,
  payment_request, webhook_request, go_on, go_on_at, take_turn, take_turns, fresh_process,
}
use payment_orchestration_la.Async.{Task, done, step}
use payment_orchestration_la.Async.Rules.{Steps, first_of, rest-Steps, Steps-bind, Steps-give}
use payment_orchestration_la.Async.Keeping.{Keeping}
use payment_orchestration_la.Async.Lens.{Steps-zoom}

module _ (P : Platform) (lawful : IsLawful P.database) where
  -- what every step of every method keeps, from any database on
  abbrev After : P.database.Db → App P → Type 0
  After start a = Evolves P.database start a.db

  abbrev InboxAfter : P.database.Db → Inbox P.database P.events P.client → Type 0
  InboxAfter start = OnTxns P.database P.events P.client (Evolves P.database start)

  record Harmless (t : Request P) : Type 0 where
    every : (start : P.database.Db) → Steps (Keeping (After start)) t

  data AllHarmless : List (Request P) → Type 0 where
    none_left : AllHarmless []
    one_more :
        (t : Request P) (ts : List (Request P)) → Harmless t → AllHarmless ts → AllHarmless (t ∷ ts)

  data WorkerHarmless : Phase P.database P.events P.client → Type 0 where
    not_started : WorkerHarmless unstarted
    round_left :
        (t : Task (Inbox P.database P.events P.client) Exception (Unit {0}))
        → ((start : P.database.Db) → Steps (Keeping (InboxAfter start)) t)
        → WorkerHarmless (in_round t)
    paused : WorkerHarmless pausing
    over : WorkerHarmless stopped

  record Sound (start : P.database.Db) (p : Process P) : Type 0 where
    so_far : After start p.app
    requests : AllHarmless p.requests
    worker : WorkerHarmless p.worker.phase

  payment-Harmless :
      (env : _) (outside : _) (dto : _) (header : _)
      → Harmless (payment_request P env outside dto header)
  unfolding payment_request
  payment-Harmless env outside dto header = record {
    every = λ start.
        Steps-bind
          (Steps-zoom _ (λ l a w h. h)
            (post_payment-Keeping (system P env outside) (Evolves P.database start)
              (record {
                moves = λ id to md. transition-Keeps P.database lawful start outside.now id to md;
                inserts = insert-Keeps P.database lawful start;
                logs = audit-Keeps P.database lawful start;
              })
              dto header))
          λ t. Steps-give _;
  }

  webhook-Harmless : (env : _) (g : GatewayProvider) (r : _) → Harmless (webhook_request P env g r)
  unfolding webhook_request
  webhook-Harmless env g r = record {
    every = λ start.
        Steps-bind
          (Steps-zoom _ (λ l a w h. h)
            (hook-Keeping P.database P.events P.client (Evolves P.database start) P.as_text P.crypto
              env g r))
          λ t. Steps-give _;
  }

  head-Harmless :
      (now : ℕ) (b : Bool) → WorkerHarmless (loop_head P.database P.events P.client P.as_text now b)
  unfolding loop_head
  head-Harmless now true = round_left _ λ start.
      round-Keeping P.database P.events P.client (Evolves P.database start) now P.as_text
        λ id to md. transition-Keeps P.database lawful start now id to md
  head-Harmless now false = over

  record Went (start : P.database.Db) (o : Request P × App P) : Type 0 where
    harmless : Harmless o.0
    kept : After start o.1

  go_on-Went :
      (start : P.database.Db) (t : Request P) (a : App P)
      → Harmless t
      → After start a
      → Went start (go_on P t a)
  unfolding go_on
  go_on-Went start (done r) a h i = record { harmless = h; kept = i }
  go_on-Went start (step l u k) a h i = record {
    harmless = record { every = λ from. rest-Steps (h.every from) a };
    kept = first_of (h.every start) a i;
  }

  record AllWent (start : P.database.Db) (o : List (Request P) × App P) : Type 0 where
    harmless : AllHarmless o.0
    kept : After start o.1

  go_on_at-AllWent :
      (start : P.database.Db) (ts : List (Request P)) (i : ℕ) (a : App P)
      → AllHarmless ts
      → After start a
      → AllWent start (go_on_at P ts i a)
  unfolding go_on_at
  go_on_at-AllWent start [] i a h k = record { harmless = h; kept = k }
  go_on_at-AllWent start (t ∷ ts) zero a (one_more _ _ h hs) k =
      let went = go_on-Went start t a h k in
      record { harmless = one_more _ _ went.harmless hs; kept = went.kept }
  go_on_at-AllWent start (t ∷ ts) (suc i) a (one_more _ _ h hs) k =
      let went = go_on_at-AllWent start ts i a hs k in
      record { harmless = one_more _ _ h went.harmless; kept = went.kept }

  record Ticked (start : P.database.Db)
      (o : Worker P.database P.events P.client × Inbox P.database P.events P.client) : Type 0 where
    harmless : WorkerHarmless o.0.phase
    kept : InboxAfter start o.1

  round_end-Harmless :
      (now : ℕ) (b : Bool) (r : Result Exception (Unit {0}))
      → WorkerHarmless (elim r as (λ x. Phase P.database P.events P.client) [
        | ok u ↦ loop_head P.database P.events P.client P.as_text now b
        | err x ↦ pausing
      ])
  round_end-Harmless now b (ok u) = head-Harmless now b
  round_end-Harmless now b (err x) = paused

  tick-Ticked :
      (start : P.database.Db) (now : ℕ) (b : Bool) (f : Phase P.database P.events P.client)
      (s : Inbox P.database P.events P.client)
      → WorkerHarmless f
      → InboxAfter start s
      → Ticked start
          (tick P.database P.events P.client P.as_text now (record { is_active = b; phase = f }) s)
  unfolding tick
  tick-Ticked start now b unstarted s h i = record { harmless = h; kept = i }
  tick-Ticked start now b (in_round (done r)) s h i = record {
    harmless = round_end-Harmless now b r;
    kept = i;
  }
  tick-Ticked start now b (in_round (step l u k)) s (round_left _ h) i = record {
    harmless = round_left _ λ from. rest-Steps (h from) s;
    kept = first_of (h start) s i;
  }
  tick-Ticked start now b pausing s h i = record { harmless = head-Harmless now b; kept = i }
  tick-Ticked start now b stopped s h i = record { harmless = h; kept = i }

  turn-Sound :
      (start : P.database.Db) (turn : Turn) (p : Process P)
      → Sound start p
      → Sound start (take_turn P turn p)
  unfolding take_turn on_module_init on_module_destroy
  turn-Sound start (accept_payment env outside dto header) p h = record {
    so_far = h.so_far;
    requests = one_more _ _ (payment-Harmless env outside dto header) h.requests;
    worker = h.worker;
  }
  turn-Sound start (accept_webhook env g r) p h = record {
    so_far = h.so_far;
    requests = one_more _ _ (webhook-Harmless env g r) h.requests;
    worker = h.worker;
  }
  turn-Sound start (resume i) p h =
      let went = go_on_at-AllWent start p.requests i p.app h.requests h.so_far in
      record { so_far = went.kept; requests = went.harmless; worker = h.worker }
  turn-Sound start (start_worker now) p h = record {
    so_far = h.so_far;
    requests = h.requests;
    worker = head-Harmless now true;
  }
  turn-Sound start (work now) p h =
      let went = tick-Ticked start now p.worker.is_active p.worker.phase _ h.worker h.so_far in
      record { so_far = went.kept; requests = h.requests; worker = went.harmless }
  turn-Sound start stop_worker p h = record {
    so_far = h.so_far;
    requests = h.requests;
    worker = h.worker;
  }

  turns-Sound :
      (start : P.database.Db) (turns : List Turn) (p : Process P)
      → Sound start p
      → Sound start (take_turns P turns p)
  unfolding take_turns
  turns-Sound start [] p h = h
  turns-Sound start (turn ∷ rest) p h =
      turns-Sound start rest (take_turn P turn p) (turn-Sound start turn p h)

  fresh-Sound : (a : App P) → Sound a.db (fresh_process P a)
  unfolding fresh_process fresh_worker
  fresh-Sound a = record {
    so_far = Evolves-refl P.database a.db;
    requests = none_left;
    worker = not_started;
  }

  -- However the awaits of the payment requests, the webhooks and the worker interleave, on a lawful
  -- database: from any moment to any later one no transaction goes away, each one moves along
  -- allowed transitions only, and the audit log of each one only grows.
  pub interleaved-Evolves :
      (before after : List Turn) (a : App P)
      → Evolves P.database
          (take_turns P before (fresh_process P a)).app.db
          (take_turns P after (take_turns P before (fresh_process P a))).app.db
  interleaved-Evolves before after a =
      let so_far = turns-Sound a.db before (fresh_process P a) (fresh-Sound a) in
      (turns-Sound (take_turns P before (fresh_process P a)).app.db after
        (take_turns P before (fresh_process P a))
        (record {
          so_far = Evolves-refl P.database _;
          requests = so_far.requests;
          worker = so_far.worker;
        })).so_far

  -- However the awaits interleave, on a lawful database: a transaction that is SUCCESS at one moment
  -- is there at any later moment, and is SUCCESS or RECONCILED. A payment that was made is never
  -- failed, retried or lost.
  pub interleaved_paid_stays_paid :
      (before after : List Turn) (a : App P) (id : String) (t : Transaction)
      → P.database.find_txn id (take_turns P before (fresh_process P a)).app.db ≡ some t
      → t.current_state ≡ success
      → (t' : Transaction) × (P.database.find_txn id
            (take_turns P after (take_turns P before (fresh_process P a))).app.db
          ≡ some t')
        × ((t'.current_state ≡ success) ⊎ (t'.current_state ≡ reconciled))
  interleaved_paid_stays_paid before after a id t found paid =
      let (t', found', reach) = (interleaved-Evolves before after a).kept id t found in
      (t', found', success_settles (subst (λ s. Reach s t'.current_state) paid reach))
