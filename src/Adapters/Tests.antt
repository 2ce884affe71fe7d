-- ===== src/Adapters/Tests.antt =====
-- Runs of the adapters: without keys, and with a gateway that answers after 90 ms.
use mathlib.Core.List.{Memᴰ}
use payment_orchestration_la.Common.{
  ◌+◌, All, ℕ, ◌≡◌, ◌⊎◌, inr, refl, true, false, none, some, [], ◌∷◌, arith,
}
use payment_orchestration_la.Common.Effect.{ok}
use payment_orchestration_la.Common.Effect.Rules.{Ends, Never}
use payment_orchestration_la.Enums.{GatewayProvider, stripe, razorpay, payu, upi, success, allowed}
use payment_orchestration_la.Json.{Json, obj, field, end, str, get_field}
use payment_orchestration_la.Database.Memory.{memory-IsLawful, memory-IsAvailable}
use payment_orchestration_la.Redis.Tests.{fallen_back}
use payment_orchestration_la.Routing.Config.{Env}
use payment_orchestration_la.Routing.Table.{table-IsStatsRepo}
use payment_orchestration_la.Payments.Charge.{GatewayChargeRequest}
use payment_orchestration_la.Payments.World.{World}
use payment_orchestration_la.Payments.Requests.{new_transaction}
use payment_orchestration_la.Payments.Service.{run_attempts}
use payment_orchestration_la.Payments.Tests.{system, dto, seeded, created, table-SavesAll}
use payment_orchestration_la.Adapters.{Web, HttpRequest, is_mock_key}
use payment_orchestration_la.Adapters.Stripe
use payment_orchestration_la.Adapters.Decimal.{decimal}
use payment_orchestration_la.Adapters.Hundredths.{hundredths, exact_amount}
use payment_orchestration_la.Adapters.Amount.{asked_amount, sent_amount}
use payment_orchestration_la.Adapters.Online.{adapter}
use payment_orchestration_la.Adapters.Simulated.{
  Simulates, refuses, succeeds, ending_of, is_simulated, is_sandbox, live_charge, charge_by_amount,
}
use payment_orchestration_la.Adapters.Live.{Approved, charge-Approved}
use payment_orchestration_la.Adapters.Latency.{Answers, charge-Answers}
use payment_orchestration_la.Adapters.Sandbox.{InOrder, through, sandbox_pays, whole_units}

abbrev data_of : Json
data_of = obj (field "id" (str "ch_1") (field "status" (str "succeeded") end))

abbrev web : Web
web = record {
  fetch =
      λ q. (90, ok record { status = 200; reading = 5; content = ok "{}"; parsed = ok data_of });
  timer = λ n. n;
  uuid = "123e4567-e89b-12d3-a456-426614174000";
  base64 = λ t. t;
  sha512 = λ t. t;
  lower = λ t. t;
  show = λ j. "";
  type_error = λ k. k;
}

web-InOrder : InOrder web
web-InOrder m n h = h

abbrev keyless : Env
keyless name = none

abbrev keyed : Env
keyed name = some "live_key"

abbrev charge_of : ℕ → GatewayChargeRequest
charge_of n = record {
  transaction_id = "t1";
  amount = n;
  currency = "INR";
  idempotency_key = "k1_stripe";
}

-- the bound is sharp: above it the next amount is off by one
beyond_exact : hundredths (exact_amount + 1) ≡ exact_amount + 2
unfolding hundredths
beyond_exact = refl

decimal_amount : decimal 5099 ≡ "5099"
unfolding decimal
decimal_amount = refl

charge_by_amount_example :
    ((is_simulated keyed stripe 5000 ≡ true)
      × Simulates web (ending_of stripe 5000) (adapter web keyed stripe (charge_of 5000)))
    ⊎ ((is_simulated keyed stripe 5000 ≡ false)
        × (adapter web keyed stripe (charge_of 5000)
            ≡ live_charge web keyed stripe (charge_of 5000)))
charge_by_amount_example = charge_by_amount web keyed (charge_of 5000) stripe

charge-Approved_example :
    (q : HttpRequest) × Memᴰ q (adapter web keyed stripe (charge_of 5005)).sent
    × Approved web stripe q data_of
unfolding is_mock_key adapter Stripe.charge decimal get_field
charge-Approved_example =
    charge-Approved web keyed (charge_of 5005) stripe
      (record {
        success = true;
        gateway_txn_id = some (some "");
        raw_response = data_of;
        error = none;
        latency_ms = 95;
      })
      refl refl refl

charge-Answers_example : Answers (adapter web keyed upi (charge_of 5005))
charge-Answers_example = charge-Answers web keyed (charge_of 5005) upi

whole_units_example :
    Simulates web refuses (adapter web keyed stripe (charge_of 5000))
    × Simulates web succeeds (adapter web keyed razorpay (charge_of 5000))
    × Simulates web refuses (adapter web keyed upi (charge_of 5000))
whole_units_example = whole_units web keyed (charge_of 5000) (omega arith) refl

no_keys : (g : GatewayProvider) → is_sandbox keyless g ≡ true
unfolding is_mock_key
no_keys stripe = refl
no_keys razorpay = refl
no_keys payu = refl
no_keys upi = refl

abbrev world : World (through system web keyless 7)
world = record {
  db = record { rows = created ∷ []; entries = [] };
  shared = record { stats = seeded stripe ∷ seeded upi ∷ []; redis = fallen_back };
  charged = [];
}

-- Stripe declines the amount of 5000, and PayU pays.
sandbox_pays_example :
    Ends
      (λ t' w'. t'.current_state ≡ success)
      Never
      (run_attempts (through system web keyless 7) dto "k1" stripe (payu ∷ []) world)
unfolding new_transaction allowed
sandbox_pays_example =
    sandbox_pays web keyless 7 web-InOrder no_keys system memory-IsLawful memory-IsAvailable
      table-IsStatsRepo table-SavesAll dto "k1" stripe payu stripe (payu ∷ []) created world refl
      refl (Memᴰ.tail (Memᴰ.head refl)) (Memᴰ.head refl) (inr refl) (λ e. absurd (ground arith))

sent_amount_example :
    All (λ q. asked_amount payu q.body ≡ some 5005) (adapter web keyed payu (charge_of 5005)).sent
sent_amount_example = sent_amount web keyed (charge_of 5005) (omega arith) payu
