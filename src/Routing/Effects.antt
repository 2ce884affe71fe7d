-- ===== src/Routing/Effects.antt =====
-- What `recordSuccess` and `recordFailure` do to the table of statistics.
use payment_orchestration_la.Common.{
  ℕ, ◌≡◌, ◌≢◌, refl, true, false, Bool, none, some, Option-cases, inl, inr, if◌then◌else◌, arith,
  ap, ◌∙◌,
}
use payment_orchestration_la.Common.Effect.{ok, err, Result, Action, pure, ◌>>=◌}
use payment_orchestration_la.Common.Effect.Rules.{
  Ends, Never, Ends-bind, Ends-bind_known, Ends-pure, Ends-mono, gets_lem,
}
use payment_orchestration_la.Enums.{GatewayProvider}
use payment_orchestration_la.Entities.{GatewayStats}
use payment_orchestration_la.Database.{Exception}
use payment_orchestration_la.Double.{Double}
use payment_orchestration_la.Redis.{RedisClient, RedisService}
use payment_orchestration_la.Routing.Score.{
  after_success, after_failure, trips, counted_failure, is_closed,
}
use payment_orchestration_la.Routing.Stats.{StatsRepo, IsStatsRepo, StatsSaved, Shared}
use payment_orchestration_la.Routing.Engine.{redis, stats_write, record_success, record_failure}

-- A table that refuses no save.
abbrev pub SavesAll : StatsRepo → Type 0
SavesAll S =
    (row : GatewayStats) (s : S.State) → Ends (λ u s'. StatsSaved S row s s') Never (S.save row s)

module _ (S : StatsRepo) (C : RedisClient) where
  Ends-redis :
      {A : Type 0} {E : Exception → Shared S C → Type 0}
      (call : RedisService C → A × RedisService C) (s : Shared S C)
      → Ends (λ a s'. s'.stats ≡ s.stats) E (redis S C call s)
  unfolding redis
  Ends-redis call s = record { holds = refl }

  Ends-stats_write :
      (E : Exception → S.State → Type 0) (row : GatewayStats) (s : Shared S C)
      → Ends (λ u st. StatsSaved S row s.stats st) E (S.save row s.stats)
      → Ends
          (λ u s'. StatsSaved S row s.stats s'.stats)
          (λ x s'. E x s'.stats)
          (stats_write S C (S.save row) s)
  unfolding stats_write
  Ends-stats_write E row s h = ended (S.save row s.stats) h
    where
      ended :
          (o : Result Exception (Unit {0}) × S.State)
          → Ends (λ u st. StatsSaved S row s.stats st) E o
          → Ends
              (λ u s'. StatsSaved S row s.stats s'.stats)
              (λ x s'. E x s'.stats)
              (let (r, st) = o in (r, record s { stats = st }))
      ended (ok a, st) h' = record { holds = h'.holds }
      ended (err x, st) h' = record { holds = h'.holds }

  -- The row of the gateway, if there is one, has become `f` of itself; nothing else has changed.
  pub record Recorded (g : GatewayProvider) (f : GatewayStats → GatewayStats) (s s' : S.State)
      : Type 0 where
    pub updated : (row : GatewayStats) → S.find_one g s ≡ some row → S.find_one g s' ≡ some (f row)
    pub others : (h : GatewayProvider) → h ≢ g → S.find_one h s' ≡ S.find_one h s

  -- The end of both methods: what is done with Redis, then the save.
  write_end :
      (law : IsStatsRepo S) (all : SavesAll S) (m : Action (Shared S C) Exception (Unit {0}))
      (g : GatewayProvider) (f : GatewayStats → GatewayStats) (row : GatewayStats) (s : Shared S C)
      → ((r : GatewayStats) → (f r).gateway ≡ r.gateway)
      → S.find_one g s.stats ≡ some row
      → Ends (λ a s'. s'.stats ≡ s.stats) Never (m s)
      → Ends
          (λ u s'. Recorded g f s.stats s'.stats)
          Never
          ((m >>= λ _. stats_write S C (S.save (f row))) s)
  write_end law all m g f row s keeps found h =
      let own = law.gateway-find_one g row s.stats found in
      Ends-bind _ m _ s h λ a s' same.
        Ends-mono _ (Ends-stats_write Never (f row) s' (all (f row) s'.stats))
          (λ u s'' e saved. record {
            updated = λ row' found'. ground (arith, saved.stored, keeps row, own);
            others = λ h' ne. ground (arith, saved.others h', keeps row, own);
          })
          (λ x s'' e never. never)

  if_end :
      (b : Bool) (m n : Action (Shared S C) Exception (Unit {0})) (s : Shared S C)
      → Ends (λ a s'. s'.stats ≡ s.stats) Never (m s)
      → Ends (λ a s'. s'.stats ≡ s.stats) Never (n s)
      → Ends (λ a s'. s'.stats ≡ s.stats) Never ((if b then m else n) s)
  if_end true m n s hm hn = hm
  if_end false m n s hm hn = hn

  redis_unit :
      {A : Type 0} (call : RedisService C → A × RedisService C) (s : Shared S C)
      → Ends (λ a s'. s'.stats ≡ s.stats) Never ((redis S C call >>= λ _. pure tt) s)
  redis_unit call s = Ends-bind _ _ _ s (Ends-redis call s) λ a s' same. Ends-pure tt s' same

module _ (S : StatsRepo) (C : RedisClient) (R : Double) (law : IsStatsRepo S)
    (all : SavesAll S) where
  -- `recordSuccess` on a table that refuses no save: the row of the gateway, if there is one, has
  -- become `after_success` of itself, and no other row has changed.
  pub record_success_end :
      (g : GatewayProvider) (latency : ℕ) (s : Shared S C)
      → Ends
          (λ u s'. Recorded S C g (after_success R latency) s.stats s'.stats)
          Never
          (record_success S C R g latency s)
  unfolding record_success
  record_success_end g latency s = elim (Option-cases (S.find_one g s.stats)) [
    | inl missing ↦ Ends-bind_known _ _ s s none (gets_lem _ s ∙ ap (λ o. (ok o, s)) missing) (
        Ends-pure tt s
          (record { updated = λ row found. absurd (ground arith); others = λ h ne. refl }))
    | inr (row, found) ↦
        Ends-bind_known _ _ s s (some row) (gets_lem _ s ∙ ap (λ o. (ok o, s)) found) (
          write_end S C law all _ g (after_success R latency) row s
            (λ r. unfold after_success in refl) found
            (if_end S C (is_closed row.circuit_state) _ _ s (Ends-pure tt s refl)
              (redis_unit S C _ s)))
  ]

  -- `recordFailure`, in the same way, with `after_failure`.
  pub record_failure_end :
      (g : GatewayProvider) (latency : ℕ) (s : Shared S C)
      → Ends
          (λ u s'. Recorded S C g (after_failure R latency) s.stats s'.stats)
          Never
          (record_failure S C R g latency s)
  unfolding record_failure
  record_failure_end g latency s = elim (Option-cases (S.find_one g s.stats)) [
    | inl missing ↦ Ends-bind_known _ _ s s none (gets_lem _ s ∙ ap (λ o. (ok o, s)) missing) (
        Ends-pure tt s
          (record { updated = λ row found. absurd (ground arith); others = λ h ne. refl }))
    | inr (row, found) ↦
        Ends-bind_known _ _ s s (some row) (gets_lem _ s ∙ ap (λ o. (ok o, s)) found) (
          write_end S C law all _ g (after_failure R latency) row s
            (λ r. unfold after_failure in ground arith) found
            (if_end S C (trips (counted_failure R latency row)) _ _ s (redis_unit S C _ s)
              (Ends-pure tt s refl)))
  ]
