-- ===== src/Webhooks/Loop/Stops.antt =====
-- The worker stops once the service shuts down.
use payment_orchestration_la.Common.{
  if◌then◌else◌, ℕ, zero, suc, String, Bool, true, false, ◌≡◌, refl, sym, subst, arith, Option,
  none, some, List, [], ◌∷◌, ◌≤◌, length,
}
use payment_orchestration_la.Common.Effect.{Result, ok, err}
use payment_orchestration_la.Enums.{TransactionState, GatewayProvider}
use payment_orchestration_la.Json.{Json}
use payment_orchestration_la.Entities.{Transaction, WebhookEvent}
use payment_orchestration_la.Database.{Database, Exception}
use payment_orchestration_la.Redis.{RedisClient}
use payment_orchestration_la.Redis.Store.{Stored, text, processing_mark, completed}
use payment_orchestration_la.StateMachine.{Metadata}
use payment_orchestration_la.Webhooks.Events.{EventRepo, Inbox}
use payment_orchestration_la.Webhooks.Tasks.{
  txns_part, when_in_task, drive_from_task, drive_to_reconciled_task, reconcile_task,
  process_event_task, item_task, round_task,
}
use payment_orchestration_la.Webhooks.Loop.{
  Phase, unstarted, in_round, pausing, stopped, Worker, fresh_worker, loop_head, on_module_init,
  on_module_destroy, tick,
}
use payment_orchestration_la.Async.{Task, done, step, await, give, ◌>>=◌, ◌>>◌}
use payment_orchestration_la.Async.Lens.{zoom}
use payment_orchestration_la.Webhooks.Worker.{mark}
use payment_orchestration_la.Webhooks.Payload.{extract_gateway_txn_id}
use payment_orchestration_la.Async.Bounded.{
  AtMost, more, more_by, AtMost-await, AtMost-give, AtMost-suc, AtMost-if, AtMost-then, AtMost-bind,
  AtMost-zoom,
}

module _ (D : Database) (now : ℕ) where
  when_in-AtMost :
      {n : ℕ} (from : TransactionState) (id : String) (to : TransactionState) (md : Metadata)
      (s : TransactionState)
      → AtMost (suc n) (when_in_task D now from id to md s)
  unfolding when_in_task
  when_in-AtMost from id to md s = AtMost-if _ (AtMost-then _ λ t. AtMost-give _) (AtMost-give _)

  drive-AtMost :
      (t : Transaction) (g : GatewayProvider) (gid : String) (raw : Json)
      → AtMost 5 (drive_to_reconciled_task D now t g gid raw)
  unfolding drive_to_reconciled_task drive_from_task more_by ◌>>=◌
  drive-AtMost t g gid raw = AtMost-if _ (AtMost-give _) (
      AtMost-bind 5
        (AtMost-bind 1 (when_in-AtMost _ _ _ _ _) λ s₁.
          AtMost-bind 1 (when_in-AtMost _ _ _ _ _) λ s₂.
            AtMost-bind 1 (when_in-AtMost _ _ _ _ _)
              λ s₃. AtMost-bind 1 (when_in-AtMost _ _ _ _ _) λ s₄. when_in-AtMost _ _ _ _ _)
        λ s. AtMost-give _)

module _ (D : Database) (E : EventRepo) (C : RedisClient) (now : ℕ) (as_text : Json → String) where
  found-AtMost :
      (e : WebhookEvent) (o : Option Json) → AtMost 7 (reconcile_task D E C now as_text e o)
  unfolding reconcile_task more_by
  found-AtMost e none = AtMost-await _
  found-AtMost e (some g) = AtMost-if _ (AtMost-then _ λ o. settled o) (AtMost-await _)
    where
      settled :
          (o : Option Transaction)
          → AtMost 6 (elim o as (λ x. Task (Inbox D E C) Exception (Unit {0})) [
            | none ↦ await (mark D E C now as_text e)
            | some t ↦
                zoom
                  (txns_part D E C)
                  (drive_to_reconciled_task D now t e.gateway (as_text g) e.payload)
                >> await (mark D E C now as_text e)
          ])
      settled none = AtMost-await _
      settled (some t) =
          AtMost-bind 5 (AtMost-zoom _ (drive-AtMost D now t _ _ _)) λ u. AtMost-await _

  item-AtMost : (o : Option Stored) → AtMost 8 (item_task D E C now as_text o)
  unfolding item_task process_event_task
  item-AtMost none = AtMost-give _
  item-AtMost (some (text id)) = AtMost-then _ looked
    where
      looked :
          (o : Option WebhookEvent)
          → AtMost 7 (elim o as (λ x. Task (Inbox D E C) Exception (Unit {0})) [
            | none ↦ give tt
            | some e ↦
                if e.processed
                then give tt
                else reconcile_task D E C now as_text e (extract_gateway_txn_id e.gateway e.payload)
          ])
      looked none = AtMost-give _
      looked (some e) = AtMost-if _ (AtMost-give _) (found-AtMost e _)
  item-AtMost (some processing_mark) = AtMost-give _
  item-AtMost (some (completed t)) = AtMost-give _

  -- A round has at most nine awaits, whatever it finds.
  pub round-AtMost : AtMost 9 (round_task D E C now as_text)
  unfolding round_task
  round-AtMost = AtMost-then _ item-AtMost

-- What the other methods do while the worker waits, and the time when it goes on.
pub record Moment (D : Database) (E : EventRepo) (C : RedisClient) : Type 0 where
  pub meanwhile : Inbox D E C → Inbox D E C
  pub now : ℕ

module _ (D : Database) (E : EventRepo) (C : RedisClient) (as_text : Json → String) where
  -- the worker over a sequence of moments
  unfoldable pub over_time :
      List (Moment D E C) → Worker D E C × Inbox D E C → Worker D E C × Inbox D E C
  over_time [] o = o
  over_time (m ∷ ms) o = over_time ms (tick D E C as_text m.now o.0 (m.meanwhile o.1))

  -- The worker stops after so many ticks, at most, once `isActive` is false.
  data Left : ℕ → Phase D E C → Type 0 where
    in_hand :
        (n : ℕ) (t : Task (Inbox D E C) Exception (Unit {0}))
        → AtMost n t
        → Left (suc (suc n)) (in_round t)
    waiting : (n : ℕ) → Left (suc n) pausing
    gone : (n : ℕ) → Left n stopped

  head-Left : (now : ℕ) (b : Bool) → Left 11 (loop_head D E C as_text now b)
  unfolding loop_head
  head-Left now true = in_hand 9 _ (round-AtMost D E C now as_text)
  head-Left now false = gone _

  end-Left :
      (now : ℕ) (b : Bool) (r : Result Exception (Unit {0}))
      → Left 11
          (elim r as (λ x. Phase D E C) [ ok u ↦ loop_head D E C as_text now b | err x ↦ pausing ])
  end-Left now b (ok u) = head-Left now b
  end-Left now b (err x) = waiting 10

  tick-Left :
      (now : ℕ) (b : Bool) (f : Phase D E C) (s : Inbox D E C)
      → Left 11 f
      → Left 11 (tick D E C as_text now (record { is_active = b; phase = f }) s).0.phase
  unfolding tick
  tick-Left now b (in_round (done r)) s h = end-Left now b r
  tick-Left now b (in_round (step l u k)) s (in_hand _ _ (more _ _ _ _ h)) =
      in_hand 9 _ (AtMost-suc (h s))
  tick-Left now b pausing s h = head-Left now b
  tick-Left now b stopped s h = gone _
  tick-Left now b unstarted s h = h

  -- with `isActive` false one tick less is left
  less-Left :
      (n now : ℕ) (f : Phase D E C) (s : Inbox D E C)
      → Left (suc n) f
      → Left n (tick D E C as_text now (record { is_active = false; phase = f }) s).0.phase
  unfolding tick loop_head
  less-Left n now (in_round (done (ok u))) s h = gone _
  less-Left n now (in_round (done (err x))) s (in_hand _ _ h) = waiting _
  less-Left n now (in_round (step l u k)) s (in_hand _ _ (more _ _ _ _ h)) = in_hand _ _ (h s)
  less-Left n now pausing s h = gone _
  less-Left n now stopped s h = gone _
  less-Left n now unstarted s h = elim h [ ]

  keeps_off :
      (now : ℕ) (f : Phase D E C) (s : Inbox D E C)
      → (tick D E C as_text now (record { is_active = false; phase = f }) s).0 ≡ record {
        is_active = false;
        phase = (tick D E C as_text now (record { is_active = false; phase = f }) s).0.phase;
      }
  unfolding tick
  keeps_off now unstarted s = refl
  keeps_off now (in_round (done r)) s = refl
  keeps_off now (in_round (step l u k)) s = refl
  keeps_off now pausing s = refl
  keeps_off now stopped s = refl

  -- after enough moments with `isActive` false
  off-stopped :
      (n : ℕ) (ms : List (Moment D E C)) (f : Phase D E C) (s : Inbox D E C)
      → n ≤ length ms
      → Left n f
      → (over_time ms (record { is_active = false; phase = f }, s)).0.phase ≡ stopped
  unfolding over_time tick
  off-stopped zero [] f s h (gone _) = refl
  off-stopped (suc n) [] f s h l = absurd (omega arith)
  off-stopped zero (m ∷ ms) f s h (gone _) = off-stopped zero ms stopped _ (omega arith) (gone 0)
  off-stopped (suc n) (m ∷ ms) f s h l =
      subst
        (λ w.
          (over_time ms (
            w,
            (tick D E C as_text m.now (record { is_active = false; phase = f }) (m.meanwhile s)).1,
          )).0.phase
          ≡ stopped)
        (sym (keeps_off m.now f (m.meanwhile s)))
        (off-stopped n ms _ _ (omega arith) (less-Left n m.now f (m.meanwhile s) l))

  running-Left :
      (ms : List (Moment D E C)) (w : Worker D E C) (s : Inbox D E C)
      → Left 11 w.phase
      → Left 11 (over_time ms (w, s)).0.phase
  unfolding over_time
  running-Left [] w s h = h
  running-Left (m ∷ ms) w s h = running-Left ms _ _ (tick-Left m.now w.is_active w.phase _ h)

  -- Once `onModuleDestroy` has run, the worker stops within eleven awaits, whatever the worker did
  -- before, whatever the database, Redis and the queue hold, and whatever the other methods do at
  -- each of its awaits: nine awaits of the round in hand at most, the wait of the `catch`, and the
  -- end of the loop.
  pub destroyed_worker_stops :
      (start : ℕ) (before after : List (Moment D E C)) (s : Inbox D E C)
      → 11 ≤ length after
      → (let (w, s') =
            over_time before (on_module_init D E C as_text start (fresh_worker D E C), s) in
          over_time after (on_module_destroy D E C as_text w, s')).0.phase
        ≡ stopped
  unfolding on_module_init on_module_destroy
  destroyed_worker_stops start before after s enough =
      off-stopped 11 after _ _ enough (running-Left before _ s (head-Left start true))
