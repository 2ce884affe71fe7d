-- ===== src/Payments/Tests.antt =====
-- Runs of the payment service: a database and a table in memory, Redis out of reach, and a first
-- gateway that times out.
use payment_orchestration_la.Routing.Recorded.{Outcome, success_recorded, failure_recorded}
use payment_orchestration_la.Routing.Counted.{SuccessCounted, FailureCounted}
use payment_orchestration_la.Common.{
  not, leb, ◌&&◌, ℕ, ◌≡◌, refl, true, none, some, List, [], ◌∷◌, map,
}
use payment_orchestration_la.Common.Effect.{ok, err}
use payment_orchestration_la.Common.Effect.Rules.{Ends, Unchanged, Never}
use payment_orchestration_la.Enums.{GatewayProvider, stripe, upi, payu, razorpay, closed, allowed}
use payment_orchestration_la.Entities.{Transaction, GatewayStats}
use payment_orchestration_la.Json.{obj, end}
use payment_orchestration_la.Database.{conflict}
use payment_orchestration_la.Database.Memory.{memory, memory-IsLawful, memory-IsAvailable}
use payment_orchestration_la.Double.Fixed.{fixed}
use payment_orchestration_la.Redis.Store.{
  text, get, RedisKey, Stored, idempotency, processing_mark, completed,
}
use payment_orchestration_la.Redis.Tests.{unreachable}
use payment_orchestration_la.Routing.Score.{is_open, is_closed}
use payment_orchestration_la.Routing.Engine.{record_success, record_failure}
use payment_orchestration_la.Routing.Effects.{SavesAll}
use payment_orchestration_la.Routing.Table.{table, table-IsStatsRepo, table_saved}
use payment_orchestration_la.Payments.Charge.{Outside, race}
use payment_orchestration_la.Payments.World.{System, World}
use payment_orchestration_la.Payments.Requests.{CreateTransactionDto, new_transaction}
use payment_orchestration_la.Payments.Service.{create, create_with, run_attempts}
use payment_orchestration_la.Payments.Attempts.{tried, final_row}
use payment_orchestration_la.Payments.Controller.{post_payment, post_payment_idempotent}
use payment_orchestration_la.Redis.Mock.{held}
use payment_orchestration_la.Payments.Lock.{Cached, Freed, create_frees_key}
use payment_orchestration_la.Payments.Stored.{Replayed, create_stored}
use payment_orchestration_la.Payments.Row.{Row}
use payment_orchestration_la.Payments.Failover.{run_attempts_end, call_of}
use payment_orchestration_la.Payments.Create.{
  create_conflicts, create_replays, create_with_end, Created,
}

-- Stripe answers too late, and the other gateways after 80 ms.
abbrev settles_after : GatewayProvider → ℕ
settles_after g = elim g [ stripe ↦ 4000 | razorpay ↦ 80 | payu ↦ 80 | upi ↦ 80 ]

abbrev pub outside : Outside
outside = record {
  charge = λ g r. record {
    after = settles_after g;
    value = ok record {
      success = true;
      gateway_txn_id = some (some "ch_1");
      raw_response = obj end;
      error = none;
      latency_ms = settles_after g;
    };
  };
  timer = λ n. n;
  now = 7;
}

abbrev pub system : System
system = record {
  database = memory;
  stats = table;
  client = unreachable;
  double = fixed;
  env = λ name. none;
  outside = outside;
}

abbrev pub seeded : GatewayProvider → GatewayStats
seeded g = record {
  gateway = g;
  success_count = 0;
  failure_count = 0;
  avg_latency_ms = 0;
  cost_bps = 290;
  circuit_state = closed;
  consecutive_failures = 0;
}

abbrev pub dto : CreateTransactionDto
dto = record { idempotency_key = "k1"; merchant_id = "m1"; amount = 5000; currency = "USD" }

-- The service holds this under the key of `dto`, and the database holds these rows.
abbrev world : List (RedisKey × Stored) → List Transaction → World system
world m rows = record {
  db = record { rows = rows; entries = [] };
  shared = record {
    stats = seeded stripe ∷ seeded upi ∷ [];
    redis = record { is_mock_mode = true; mock_store = m; client = tt };
  };
  charged = [];
}

abbrev pub created : Transaction
created = record (new_transaction dto stripe (upi ∷ [])) { id = "k1" }

pub table-SavesAll : SavesAll table
table-SavesAll row s = table_saved Never row s

success_recorded_example :
    let w = world [] [] in
    Ends
      (λ u s'.
        Outcome table unreachable upi
          (SuccessCounted fixed 80)
          (λ row. not (is_closed row.circuit_state))
          none
          w.shared
          s')
      Never
      (record_success table unreachable fixed upi 80 w.shared)
success_recorded_example =
    success_recorded table unreachable fixed table-IsStatsRepo table-SavesAll upi 80
      (world [] []).shared refl

failure_recorded_example :
    let w = world [] [] in
    Ends
      (λ u s'.
        Outcome table unreachable stripe
          (FailureCounted fixed 1500)
          (λ row. leb 2 row.consecutive_failures && not (is_open row.circuit_state))
          (some (text "open"))
          w.shared
          s')
      Never
      (record_failure table unreachable fixed stripe 1500 w.shared)
failure_recorded_example =
    failure_recorded table unreachable fixed table-IsStatsRepo table-SavesAll stripe 1500
      (world [] []).shared refl

-- Stripe times out, and the second gateway pays.
tried_both : tried system dto "k1" stripe (upi ∷ payu ∷ []) ≡ stripe ∷ upi ∷ []
unfolding race
tried_both = refl

run_attempts_end_example :
    let w = world [] (created ∷ []) in
    let gs = tried system dto "k1" stripe (upi ∷ []) in
    Ends
      (λ t' w'.
        (t' ≡ final_row system dto "k1" stripe (upi ∷ []) created)
        × Row system "k1"
            (map
              (call_of system memory-IsLawful memory-IsAvailable table-IsStatsRepo table-SavesAll
                dto "k1")
              gs)
            (final_row system dto "k1" stripe (upi ∷ []) created)
            w
            w')
      Never
      (run_attempts system dto "k1" stripe (upi ∷ []) w)
unfolding new_transaction allowed
run_attempts_end_example =
    run_attempts_end system memory-IsLawful memory-IsAvailable table-IsStatsRepo table-SavesAll dto
      "k1" stripe (upi ∷ []) created (world [] (created ∷ [])) refl refl

create_conflicts_example :
    let w = world ((idempotency "k1", processing_mark) ∷ []) [] in
    create system dto w
    ≡ (err (conflict "Payment request is already processing. Please try again shortly."), w)
unfolding get
create_conflicts_example =
    create_conflicts system dto (world ((idempotency "k1", processing_mark) ∷ []) []) refl refl

create_replays_example :
    let w = world ((idempotency "k1", completed created) ∷ []) [] in
    create system dto w ≡ (ok created, w)
unfolding get
create_replays_example =
    create_replays system dto created (world ((idempotency "k1", completed created) ∷ []) []) refl
      refl

create_with_end_example :
    Ends
      (λ t' w'.
        Created system memory-IsLawful memory-IsAvailable table-IsStatsRepo table-SavesAll dto
          stripe
          (upi ∷ [])
          t'
          (world [] [])
          w')
      (Unchanged (world [] []))
      (create_with system dto (stripe ∷ upi ∷ []) (world [] []))
create_with_end_example =
    create_with_end system memory-IsLawful memory-IsAvailable table-IsStatsRepo table-SavesAll dto
      stripe (upi ∷ []) (world [] [])

create_frees_key_example :
    Ends (Cached system dto) (Freed system dto) (create system dto (world [] []))
unfolding get
create_frees_key_example = create_frees_key system dto (world [] []) refl refl

post_payment_idempotent_example :
    let again = record dto { amount = 700 } in
    Ends
      (λ t w'. post_payment system again (some "k9") w' ≡ (ok t, w'))
      (λ x w'. held unreachable (idempotency "k9") w'.shared.redis ≡ none)
      (post_payment system dto (some "k9") (world [] []))
unfolding get
post_payment_idempotent_example =
    post_payment_idempotent system "k9" dto (record dto { amount = 700 }) (world [] []) refl refl
      refl

-- the row of a request that ended before its first attempt
create_stored_example :
    Ends
      (λ t' w'. Replayed system dto created t' (world [] (created ∷ [])) w')
      Never
      (create system dto (world [] (created ∷ [])))
unfolding new_transaction get
create_stored_example = create_stored system dto created (world [] (created ∷ [])) refl refl refl
