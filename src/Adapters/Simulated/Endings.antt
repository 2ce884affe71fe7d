-- ===== src/Adapters/Simulated/Endings.antt =====
-- How the simulation of each adapter ends, by the amount.
use payment_orchestration_la.Common.{
  ℕ, ◌%◌, ◌≤◌, ◌≡◌, refl, Bool, true, false, Option, [], arith, if◌then◌else◌, leb, ◌&&◌, ◌||◌,
  ◌==◌, subst, String,
}
use payment_orchestration_la.Common.Effect.{ok}
use payment_orchestration_la.Json.{Json, str, obj, field, end}
use payment_orchestration_la.Enums.{GatewayProvider, stripe, razorpay, payu, upi}
use payment_orchestration_la.Routing.Config.{Env, ends_with}
use payment_orchestration_la.Payments.Charge.{GatewayChargeRequest, GatewayChargeResponse}
use payment_orchestration_la.Adapters.{
  Web, Charged, simulated, simulated_timeout, answered, paid, declined,
}
use payment_orchestration_la.Adapters.Decimal.{decimal, digit}
use payment_orchestration_la.Adapters.Decimal.Suffix.{ends_with_two}
use payment_orchestration_la.Adapters.Stripe
use payment_orchestration_la.Adapters.Razorpay
use payment_orchestration_la.Adapters.Payu
use payment_orchestration_la.Adapters.Upi

-- How a simulated charge ends.
pub data Ending : Type 0 where
  times_out : Ending
  refuses : Ending
  succeeds : Ending

-- The amounts with an ending of their own, by the last two digits.
abbrev pub ending : GatewayProvider → ℕ → Ending
ending g n = elim g [
  | stripe ↦ if n == 99 then times_out else if n == 0 then refuses else succeeds
  | razorpay ↦ if n == 96 then times_out else if n == 1 then refuses else succeeds
  | payu ↦ if n == 97 then times_out else if n == 2 then refuses else succeeds
  | upi ↦ if n == 98 || n == 99 then times_out else if n == 0 || n == 3 then refuses else succeeds
]

-- An amount of one digit has no last two digits.
abbrev pub ending_of : GatewayProvider → ℕ → Ending
ending_of g amount = if leb 10 amount then ending g (amount % 100) else succeeds

-- How many milliseconds it waits.
abbrev pub Lasts : Ending → ℕ → Type 0
Lasts times_out wait = wait ≡ 2000
Lasts refuses wait = wait ≡ 150
Lasts succeeds wait = wait ≤ 250

abbrev pub is_success : Ending → Bool
is_success e = elim e [ succeeds ↦ true | _ ↦ false ]

-- What a charge that ends this way comes to: no request is sent, and the answer is there after the
-- wait.
pub record Simulates (web : Web) (e : Ending) (c : Charged) : Type 0 where
  pub wait : ℕ
  pub offline : c.sent ≡ []
  pub after : c.settled.after ≡ web.timer wait
  pub response : GatewayChargeResponse
  pub answer : c.settled.value ≡ ok response
  pub success : response.success ≡ is_success e
  pub latency : response.latency_ms ≡ web.timer wait
  pub lasts : Lasts e wait

-- the tests of the code for two digits at the end
pub ends_with-99 : (n : ℕ) → ends_with (decimal n) "99" ≡ (leb 10 n && (n % 100 == 99))
unfolding digit
ends_with-99 n = ends_with_two n 9 9 (omega arith) (omega arith)

pub ends_with-00 : (n : ℕ) → ends_with (decimal n) "00" ≡ (leb 10 n && (n % 100 == 0))
unfolding digit
ends_with-00 n = ends_with_two n 0 0 (omega arith) (omega arith)

pub ends_with-96 : (n : ℕ) → ends_with (decimal n) "96" ≡ (leb 10 n && (n % 100 == 96))
unfolding digit
ends_with-96 n = ends_with_two n 9 6 (omega arith) (omega arith)

pub ends_with-01 : (n : ℕ) → ends_with (decimal n) "01" ≡ (leb 10 n && (n % 100 == 1))
unfolding digit
ends_with-01 n = ends_with_two n 0 1 (omega arith) (omega arith)

pub ends_with-97 : (n : ℕ) → ends_with (decimal n) "97" ≡ (leb 10 n && (n % 100 == 97))
unfolding digit
ends_with-97 n = ends_with_two n 9 7 (omega arith) (omega arith)

pub ends_with-02 : (n : ℕ) → ends_with (decimal n) "02" ≡ (leb 10 n && (n % 100 == 2))
unfolding digit
ends_with-02 n = ends_with_two n 0 2 (omega arith) (omega arith)

pub ends_with-98 : (n : ℕ) → ends_with (decimal n) "98" ≡ (leb 10 n && (n % 100 == 98))
unfolding digit
ends_with-98 n = ends_with_two n 9 8 (omega arith) (omega arith)

pub ends_with-03 : (n : ℕ) → ends_with (decimal n) "03" ≡ (leb 10 n && (n % 100 == 3))
unfolding digit
ends_with-03 n = ends_with_two n 0 3 (omega arith) (omega arith)

module _ (web : Web) where
  timeout-Simulates : Simulates web times_out (simulated_timeout web)
  unfolding simulated_timeout simulated declined answered
  timeout-Simulates = record {
    wait = 2000;
    offline = refl;
    after = refl;
    response =
        declined "Gateway call timed out" (obj (field "error" (str "Timeout after 2000ms") end))
          (web.timer 2000);
    answer = refl;
    success = refl;
    latency = refl;
    lasts = refl;
  }

  declined-Simulates :
      (message : String) (raw : Json)
      → Simulates web refuses (simulated web 150 (declined message raw))
  unfolding simulated declined answered
  declined-Simulates message raw = record {
    wait = 150;
    offline = refl;
    after = refl;
    response = declined message raw (web.timer 150);
    answer = refl;
    success = refl;
    latency = refl;
    lasts = refl;
  }

  paid-Simulates :
      (id : Option (Option String)) (raw : Json) (wait : ℕ)
      → wait ≤ 250
      → Simulates web succeeds (simulated web wait (paid id raw))
  unfolding simulated paid answered
  paid-Simulates id raw wait short = record {
    wait = wait;
    offline = refl;
    after = refl;
    response = paid id raw (web.timer wait);
    answer = refl;
    success = refl;
    latency = refl;
    lasts = short;
  }

  either-Simulates :
      (late bad : Bool) {x y z : Charged}
      → Simulates web times_out x
      → Simulates web refuses y
      → Simulates web succeeds z
      → Simulates web
          (if late then times_out else if bad then refuses else succeeds)
          (if late then x else if bad then y else z)
  either-Simulates true bad h k l = h
  either-Simulates false true h k l = k
  either-Simulates false false h k l = l

  module _ (env : Env) (r : GatewayChargeRequest) where
    pub stripe-Simulates : Simulates web (ending_of stripe r.amount) (Stripe.simulation web env r)
    unfolding Stripe.simulation
    stripe-Simulates =
        let n = r.amount in
        subst (λ e. Simulates web e (Stripe.simulation web env r))
          (ground (arith, ends_with-99 n, ends_with-00 n))
          (either-Simulates (ends_with (decimal n) "99") (ends_with (decimal n) "00")
            timeout-Simulates (declined-Simulates _ _) (paid-Simulates _ _ 200 (omega arith)))

    pub razorpay-Simulates :
        Simulates web (ending_of razorpay r.amount) (Razorpay.simulation web env r)
    unfolding Razorpay.simulation
    razorpay-Simulates =
        let n = r.amount in
        subst (λ e. Simulates web e (Razorpay.simulation web env r))
          (ground (arith, ends_with-96 n, ends_with-01 n))
          (either-Simulates (ends_with (decimal n) "96") (ends_with (decimal n) "01")
            timeout-Simulates (declined-Simulates _ _) (paid-Simulates _ _ 250 (omega arith)))

    pub payu-Simulates : Simulates web (ending_of payu r.amount) (Payu.simulation web env r)
    unfolding Payu.simulation
    payu-Simulates =
        let n = r.amount in
        subst (λ e. Simulates web e (Payu.simulation web env r))
          (ground (arith, ends_with-97 n, ends_with-02 n))
          (either-Simulates (ends_with (decimal n) "97") (ends_with (decimal n) "02")
            timeout-Simulates (declined-Simulates _ _) (paid-Simulates _ _ 180 (omega arith)))

    pub upi-Simulates : Simulates web (ending_of upi r.amount) (Upi.simulation web env r)
    unfolding Upi.simulation
    upi-Simulates =
        let n = r.amount in
        subst (λ e. Simulates web e (Upi.simulation web env r))
          (ground (arith, ends_with-98 n, ends_with-99 n, ends_with-00 n, ends_with-03 n))
          (either-Simulates (ends_with (decimal n) "98" || ends_with (decimal n) "99")
            (ends_with (decimal n) "00" || ends_with (decimal n) "03") timeout-Simulates
            (declined-Simulates _ _) (paid-Simulates _ _ 100 (omega arith)))
