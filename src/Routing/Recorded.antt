-- ===== src/Routing/Recorded.antt =====
-- What `recordSuccess` and `recordFailure` leave in the table and in Redis.
use payment_orchestration_la.Routing.Counted.{
  SuccessCounted, FailureCounted, success-Counted, trips_counted, failed_gateway, some-injective,
  failure-Counted,
}
use payment_orchestration_la.Common.{
  ℕ, ◌≡◌, ◌≢◌, refl, true, false, Bool, Option, none, some, Option-cases, inl, inr, if◌then◌else◌,
  arith, not, ◌&&◌, leb, subst, sym, ap, ◌∙◌,
}
use payment_orchestration_la.Common.Effect.{ok, err, Result, Action, pure, ◌>>=◌}
use payment_orchestration_la.Common.Effect.Rules.{
  Ends, Never, Ends-bind, Ends-bind_known, Ends-pure, Ends-mono, gets_lem,
}
use payment_orchestration_la.Enums.{GatewayProvider}
use payment_orchestration_la.Entities.{GatewayStats}
use payment_orchestration_la.Database.{Exception}
use payment_orchestration_la.Double.{Double}
use payment_orchestration_la.Redis.{
  RedisClient, RedisService, redis_del, redis_set, ex, mock_set, mock_del,
}
use payment_orchestration_la.Redis.Mock.{IsMock, held}
use payment_orchestration_la.Redis.Store.{
  RedisKey, Stored, circuit, text, key_eq, get-set, get-delete,
}
use payment_orchestration_la.Routing.Score.{
  after_success, after_failure, counted_failure, trips, is_closed, is_open,
}
use payment_orchestration_la.Routing.Stats.{StatsRepo, IsStatsRepo, StatsSaved, Shared}
use payment_orchestration_la.Routing.Engine.{redis, stats_write, record_success, record_failure}
use payment_orchestration_la.Routing.Effects.{SavesAll}

module _ (S : StatsRepo) (C : RedisClient) where
  -- In Redis the mark of the gateway's circuit has become `value`, if it has been touched; every
  -- other key holds what it held.
  pub record Marks (g : GatewayProvider) (touched : Bool) (value : Option Stored)
      (r r' : RedisService C) : Type 0 where
    pub held_after :
        (k : RedisKey)
        → held C k r' ≡ (if touched && key_eq (circuit g) k then value else held C k r)

  -- The row of the gateway has been counted, and the mark set or taken away; without a row nothing
  -- has changed, and in no case has another row.
  pub record Outcome (g : GatewayProvider) (Counted : GatewayStats → GatewayStats → Type 0)
      (touched : GatewayStats → Bool) (value : Option Stored) (s s' : Shared S C) : Type 0 where
    pub counted :
        (row : GatewayStats)
        → S.find_one g s.stats ≡ some row
        → (row' : GatewayStats) × (S.find_one g s'.stats ≡ some row') × Counted row row'
    pub marks :
        (row : GatewayStats)
        → S.find_one g s.stats ≡ some row
        → Marks g (touched row) value s.redis s'.redis
    pub absent : S.find_one g s.stats ≡ none → s' ≡ s
    pub others : (h : GatewayProvider) → h ≢ g → S.find_one h s'.stats ≡ S.find_one h s.stats

  -- what is done with Redis before the save
  record MarkedOnly (Q : RedisService C → Type 0) (s s' : Shared S C) : Type 0 where
    table : s'.stats ≡ s.stats
    redis : Q s'.redis

  record SavedToo (row : GatewayStats) (Q : RedisService C → Type 0) (s s' : Shared S C)
      : Type 0 where
    saved : StatsSaved S row s.stats s'.stats
    redis : Q s'.redis

  save-SavedToo :
      (row : GatewayStats) (Q : RedisService C → Type 0) (s : Shared S C)
      → SavesAll S
      → Q s.redis
      → Ends (λ u s'. SavedToo row Q s s') Never (stats_write S C (S.save row) s)
  unfolding stats_write
  save-SavedToo row Q s all q = ends (S.save row s.stats) (all row s.stats)
    where
      ends :
          (o : Result Exception (Unit {0}) × S.State)
          → Ends (λ u st. StatsSaved S row s.stats st) Never o
          → Ends
              (λ u s'. SavedToo row Q s s')
              Never
              (let (r, st) = o in (r, record s { stats = st }))
      ends (ok a, st) h = record { holds = record { saved = h.holds; redis = q } }
      ends (err x, st) h = record { holds = h.holds }

  -- the mark, then the save
  both-SavedToo :
      (m : Action (Shared S C) Exception (Unit {0})) (row : GatewayStats)
      (Q : RedisService C → Type 0) (s : Shared S C)
      → SavesAll S
      → Ends (λ u s'. MarkedOnly Q s s') Never (m s)
      → Ends (λ u s'. SavedToo row Q s s') Never ((m >>= λ _. stats_write S C (S.save row)) s)
  both-SavedToo m row Q s all h =
      Ends-bind (λ u s'. MarkedOnly Q s s') m _ s h
        λ u s₁ first.
          Ends-mono _ (save-SavedToo row Q s₁ all first.redis)
            (λ u s₂ e last. record {
              saved = subst (λ st. StatsSaved S row st s₂.stats) first.table last.saved;
              redis = last.redis;
            })
            (λ x s₂ e never. never)

  if-MarkedOnly :
      (b : Bool) (m n : Action (Shared S C) Exception (Unit {0})) (Q : RedisService C → Type 0)
      (s : Shared S C)
      → (b ≡ true → Ends (λ u s'. MarkedOnly Q s s') Never (m s))
      → (b ≡ false → Ends (λ u s'. MarkedOnly Q s s') Never (n s))
      → Ends (λ u s'. MarkedOnly Q s s') Never ((if b then m else n) s)
  if-MarkedOnly true m n Q s hm hn = hm refl
  if-MarkedOnly false m n Q s hm hn = hn refl

  call-MarkedOnly :
      {A : Type 0} (call : RedisService C → A × RedisService C) (Q : RedisService C → Type 0)
      (s : Shared S C)
      → Q (call s.redis).1
      → Ends (λ u s'. MarkedOnly Q s s') Never ((redis S C call >>= λ _. pure tt) s)
  unfolding redis
  call-MarkedOnly call Q s q =
      Ends-bind (λ u s'. MarkedOnly Q s s') _ _ s
        (record { holds = record { table = refl; redis = q } }) λ u s' h. Ends-pure tt s' h

  untouched :
      (g : GatewayProvider) (value : Option Stored) (r : RedisService C) → Marks g false value r r
  untouched g value r = record { held_after = λ k. refl }

  unmark :
      (g : GatewayProvider) (r : RedisService C)
      → IsMock C r
      → Marks g true none r (redis_del C (circuit g) r).1
  unfolding redis_del mock_del
  unmark g r mock = record {
    held_after = λ k. ground (arith, mock, get-delete (circuit g) k r.mock_store);
  }

  mark :
      (g : GatewayProvider) (r : RedisService C)
      → IsMock C r
      → Marks g true
          (some (text "open"))
          r
          (redis_set C (circuit g) (text "open") none (some ex) (some 30) r).1
  unfolding redis_set mock_set
  mark g r mock = record {
    held_after = λ k. ground (arith, mock, get-set (circuit g) k (text "open") r.mock_store);
  }

module _ (S : StatsRepo) (C : RedisClient) (R : Double) (law : IsStatsRepo S)
    (all : SavesAll S) where
  -- a row that is found, and what is saved for it
  outcome_of :
      (g : GatewayProvider) (Counted : GatewayStats → GatewayStats → Type 0)
      (touched : GatewayStats → Bool) (value : Option Stored) (row row' : GatewayStats)
      (s s' : Shared S C)
      → S.find_one g s.stats ≡ some row
      → row'.gateway ≡ row.gateway
      → Counted row row'
      → SavedToo S C row' (λ r. Marks S C g (touched row) value s.redis r) s s'
      → Outcome S C g Counted touched value s s'
  outcome_of g Counted touched value row row' s s' found same counted h =
      let own = law.gateway-find_one g row s.stats found in
      record {
        counted = λ r e. (
          row',
          ground (arith, h.saved.stored, same, own),
          subst (λ x. Counted x row') (some-injective (sym found ∙ e)) counted,
        );
        marks = λ r e.
            subst (λ x. Marks S C g (touched x) value s.redis s'.redis)
              (some-injective (sym found ∙ e)) h.redis;
        absent = λ e. absurd (ground (arith, found, e));
        others = λ k ne. h.saved.others k (λ e. ne (e ∙ (same ∙ own)));
      }

  nothing_found :
      (g : GatewayProvider) (Counted : GatewayStats → GatewayStats → Type 0)
      (touched : GatewayStats → Bool) (value : Option Stored) (s : Shared S C)
      → S.find_one g s.stats ≡ none
      → Outcome S C g Counted touched value s s
  nothing_found g Counted touched value s missing = record {
    counted = λ r e. absurd (ground (arith, missing, e));
    marks = λ r e. absurd (ground (arith, missing, e));
    absent = λ e. refl;
    others = λ k ne. refl;
  }

  -- `recordSuccess`, with Redis in fallback mode and on a table that refuses no save. If the gateway
  -- has a row, its successes are one more, its failures in a row are 0, its circuit is CLOSED, its
  -- latency is the moving average with the new sample, and nothing else of it has changed; the mark
  -- of its circuit is gone from Redis, if the circuit was not CLOSED. No other row and no other key
  -- has changed, and without a row nothing has.
  pub success_recorded :
      (g : GatewayProvider) (latency : ℕ) (s : Shared S C)
      → IsMock C s.redis
      → Ends
          (λ u s'.
            Outcome S C g
              (SuccessCounted R latency)
              (λ row. not (is_closed row.circuit_state))
              none
              s
              s')
          Never
          (record_success S C R g latency s)
  unfolding record_success
  success_recorded g latency s mock = elim (Option-cases (S.find_one g s.stats)) [
    | inl missing ↦
        Ends-bind_known _ _ s s none (gets_lem _ s ∙ ap (λ o. (ok o, s)) missing)
          (Ends-pure tt s (nothing_found g _ _ _ s missing))
    | inr (row, found) ↦
        Ends-bind_known _ _ s s (some row) (gets_lem _ s ∙ ap (λ o. (ok o, s)) found) (
          Ends-mono _
            (both-SavedToo S C _ (after_success R latency row)
              (λ r. Marks S C g (not (is_closed row.circuit_state)) none s.redis r) s all
              (if-MarkedOnly S C (is_closed row.circuit_state) _ _ _ s
                (λ e. Ends-pure tt s (record {
                  table = refl;
                  redis =
                      subst (λ b. Marks S C g (not b) none s.redis s.redis) (sym e)
                        (untouched S C g none s.redis);
                }))
                (λ e. call-MarkedOnly S C _ _ s (
                  subst (λ b. Marks S C g (not b) none s.redis (redis_del C (circuit g) s.redis).1)
                    (sym e) (unmark S C g s.redis mock)))))
            (λ u s' e h.
              outcome_of g _ _ none row (after_success R latency row) s s' found
                (unfold after_success in refl) (success-Counted R latency row) h)
            (λ x s' e never. never))
  ]

  -- `recordFailure`, with Redis in fallback mode and on a table that refuses no save. If the gateway
  -- has a row, its failures and its failures in a
  -- row are one more; its circuit is OPEN if they are three or more by now, and as it was otherwise;
  -- its latency is the moving average with the new sample, unless that is 0; and the mark of its
  -- circuit holds `open`, if that opened it. No other row and no other key has changed, and without a
  -- row nothing has.
  pub failure_recorded :
      (g : GatewayProvider) (latency : ℕ) (s : Shared S C)
      → IsMock C s.redis
      → Ends
          (λ u s'.
            Outcome S C g
              (FailureCounted R latency)
              (λ row. leb 2 row.consecutive_failures && not (is_open row.circuit_state))
              (some (text "open"))
              s
              s')
          Never
          (record_failure S C R g latency s)
  unfolding record_failure
  failure_recorded g latency s mock = elim (Option-cases (S.find_one g s.stats)) [
    | inl missing ↦
        Ends-bind_known _ _ s s none (gets_lem _ s ∙ ap (λ o. (ok o, s)) missing)
          (Ends-pure tt s (nothing_found g _ _ _ s missing))
    | inr (row, found) ↦
        Ends-bind_known _ _ s s (some row) (gets_lem _ s ∙ ap (λ o. (ok o, s)) found) (
          Ends-mono _
            (both-SavedToo S C _ (after_failure R latency row)
              (λ r.
                Marks S C g (leb 2 row.consecutive_failures && not (is_open row.circuit_state))
                  (some (text "open")) s.redis r)
              s all
              (if-MarkedOnly S C (trips (counted_failure R latency row)) _ _ _ s
                (λ e. call-MarkedOnly S C _ _ s (
                  subst
                    (λ b.
                      Marks S C g b (some (text "open")) s.redis
                        (redis_set C (circuit g) (text "open") none (some ex) (some 30) s.redis).1)
                    (sym e ∙ trips_counted R latency row) (mark S C g s.redis mock)))
                (λ e. Ends-pure tt s (record {
                  table = refl;
                  redis =
                      subst (λ b. Marks S C g b (some (text "open")) s.redis s.redis)
                        (sym e ∙ trips_counted R latency row)
                        (untouched S C g (some (text "open")) s.redis);
                }))))
            (λ u s' e h.
              outcome_of g _ _ _ row (after_failure R latency row) s s' found
                (failed_gateway R latency row) (failure-Counted R latency row) h)
            (λ x s' e never. never))
  ]
