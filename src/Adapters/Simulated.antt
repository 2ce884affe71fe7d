-- ===== src/Adapters/Simulated.antt =====
-- Which amounts the adapters simulate, and how.
pub mod Endings
use payment_orchestration_la.Common.{
  ℕ, ◌%◌, ◌≤◌, ◌≡◌, ◌⊎◌, inl, inr, refl, Bool, true, false, Option, [], arith, if◌then◌else◌, leb,
  ◌&&◌, ◌||◌, ◌==◌, sym, subst, String,
}
use payment_orchestration_la.Common.Effect.{ok}
use payment_orchestration_la.Json.{Json, str, obj, field, end}
use payment_orchestration_la.Enums.{GatewayProvider, stripe, razorpay, payu, upi}
use payment_orchestration_la.Routing.Config.{Env, ends_with}
use payment_orchestration_la.Payments.Charge.{GatewayChargeRequest, GatewayChargeResponse}
use payment_orchestration_la.Adapters.{
  Web, Charged, simulated, simulated_timeout, answered, paid, declined, is_mock_key, is_key,
}
use payment_orchestration_la.Adapters.Decimal.{decimal, digit}
use payment_orchestration_la.Adapters.Decimal.Suffix.{ends_with_two}
use payment_orchestration_la.Adapters.Online.{adapter}
use payment_orchestration_la.Adapters.Stripe
use payment_orchestration_la.Adapters.Razorpay
use payment_orchestration_la.Adapters.Payu
use payment_orchestration_la.Adapters.Upi
pub use Endings.{Ending, times_out, refuses, succeeds, ending_of, is_success, Lasts, Simulates}
use Endings.{
  stripe-Simulates, razorpay-Simulates, payu-Simulates, upi-Simulates, ends_with-99, ends_with-00,
  ends_with-96, ends_with-01, ends_with-97, ends_with-02, ends_with-98, ends_with-03,
}

-- The keys of a gateway are missing or placeholders.
abbrev pub is_sandbox : Env → GatewayProvider → Bool
is_sandbox env g = elim g [
  | stripe ↦ is_mock_key "sk_test_xxx" (env "STRIPE_SECRET_KEY")
  | razorpay ↦ is_mock_key "rzp_test_xxx" (env "RAZORPAY_KEY_ID")
  | payu ↦
      is_mock_key "payu_test_xxx" (env "PAYU_MERCHANT_KEY")
      || is_key "xxxxxxxxxxxx" (env "PAYU_MERCHANT_KEY")
  | upi ↦
      is_mock_key "rzp_test_xxx" (env "RAZORPAY_KEY_ID")
      || is_key "rzp_test_mock" (env "RAZORPAY_KEY_ID")
      || is_key "xxxxxxxxxxxx" (env "RAZORPAY_KEY_ID")
]

-- The amounts that a gateway simulates with any keys, by the last two digits.
abbrev pub is_special : GatewayProvider → ℕ → Bool
is_special g n = elim g [
  | stripe ↦ n == 99 || n == 0
  | razorpay ↦ n == 96 || n == 1 || n == 99 || n == 0
  | payu ↦ n == 97 || n == 2
  | upi ↦ n == 98 || n == 99 || n == 0 || n == 3
]

abbrev pub is_simulated : Env → GatewayProvider → ℕ → Bool
is_simulated env g amount = is_sandbox env g || (leb 10 amount && is_special g (amount % 100))

abbrev pub live_charge : Web → Env → GatewayProvider → GatewayChargeRequest → Charged
live_charge web env g r = elim g [
  | stripe ↦ Stripe.live_charge web env r
  | razorpay ↦ Razorpay.live_charge web env r
  | payu ↦ Payu.live_charge web env r
  | upi ↦ Upi.live_charge web env r
]

-- a charge that is simulated under a test, and live otherwise
if_lem :
    {web : Web} {e : Ending} (simulates described : Bool) (x y : Charged)
    → simulates ≡ described
    → Simulates web e x
    → ((described ≡ true) × Simulates web e (if simulates then x else y))
      ⊎ ((described ≡ false) × ((if simulates then x else y) ≡ y))
if_lem true described x y same h = inl (sym same, h)
if_lem false described x y same h = inr (sym same, refl)

module _ (web : Web) (env : Env) (r : GatewayChargeRequest) where
  abbrev n : ℕ
  n = r.amount

  -- A charge whose keys are missing or placeholders, or whose amount has two digits or more and ends
  -- in two that the gateway simulates, sends no request, and ends as these digits say; any other
  -- charge goes to the gateway.
  pub charge_by_amount :
      (g : GatewayProvider)
      → ((is_simulated env g r.amount ≡ true)
          × Simulates web (ending_of g r.amount) (adapter web env g r))
        ⊎ ((is_simulated env g r.amount ≡ false) × (adapter web env g r ≡ live_charge web env g r))
  unfolding adapter Stripe.charge Razorpay.charge Payu.charge Upi.charge
  charge_by_amount stripe =
      if_lem _ _ _ _ (ground (arith, ends_with-99 n, ends_with-00 n)) (stripe-Simulates web env r)
  charge_by_amount razorpay =
      if_lem _ _ _ _
        (ground (arith, ends_with-96 n, ends_with-01 n, ends_with-99 n, ends_with-00 n))
        (razorpay-Simulates web env r)
  charge_by_amount payu =
      if_lem _ _ _ _ (ground (arith, ends_with-97 n, ends_with-02 n)) (payu-Simulates web env r)
  charge_by_amount upi =
      if_lem _ _ _ _
        (ground (arith, ends_with-98 n, ends_with-99 n, ends_with-00 n, ends_with-03 n))
        (upi-Simulates web env r)
