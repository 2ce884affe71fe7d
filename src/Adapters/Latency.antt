-- ===== src/Adapters/Latency.antt =====
-- The adapters answer, and the latency that they report.
use payment_orchestration_la.Common.{
  ℕ, ◌+◌, ◌≤◌, ◌≡◌, inl, inr, refl, Bool, true, false, Option, List, [], ◌∷◌, arith, ◌||◌, ◌==◌,
  Bool-cases, sym, String, subst,
}
use payment_orchestration_la.Common.Effect.{Result, ok, err}
use payment_orchestration_la.Enums.{GatewayProvider, stripe, razorpay, payu, upi}
use payment_orchestration_la.Json.{Json}
use payment_orchestration_la.Routing.Config.{Env}
use payment_orchestration_la.Payments.Charge.{GatewayChargeRequest, GatewayChargeResponse}
use payment_orchestration_la.Adapters.{
  Web, Charged, HttpRequest, HttpResponse, answered, paid, declined, caught, live, member, ◌>>?◌,
  post_for_json, is_str, id_of, razorpay_outcome,
}
use payment_orchestration_la.Adapters.Simulated.{live_charge, charge_by_amount}
use payment_orchestration_la.Adapters.Online.{adapter}
use payment_orchestration_la.Adapters.Live.Reading.{bind_ok}
use payment_orchestration_la.Adapters.Stripe
use payment_orchestration_la.Adapters.Razorpay
use payment_orchestration_la.Adapters.Payu
use payment_orchestration_la.Adapters.Upi

-- The charge resolves, with a latency that is at most the time that it took.
pub record Answers (c : Charged) : Type 0 where
  pub response : GatewayChargeResponse
  pub answer : c.settled.value ≡ ok response
  pub in_time : response.latency_ms ≤ c.settled.after

live-Answers :
    (fallback : String) (after : ℕ) (o : Result String GatewayChargeResponse)
    (sent : List HttpRequest)
    → ((x : GatewayChargeResponse) → o ≡ ok x → x.latency_ms ≤ after)
    → Answers (live fallback after o sent)
unfolding live answered caught declined
live-Answers fallback after (ok x) sent h = record {
  response = x;
  answer = refl;
  in_time = h x refl;
}
live-Answers fallback after (err m) sent h = record {
  response = caught fallback after (err m);
  answer = refl;
  in_time = omega arith;
}

-- a response that is built from a member
built_latency :
    (m : Result String (Option Json)) (build : Option Json → GatewayChargeResponse) (latency : ℕ)
    (x : GatewayChargeResponse)
    → ((o : Option Json) → (build o).latency_ms ≡ latency)
    → (m >>? λ o. ok (build o)) ≡ ok x
    → x.latency_ms ≡ latency
built_latency (ok o) build latency x h e = ground (arith, h o)
built_latency (err m) build latency x h e = absurd (ground arith)

razorpay_latency :
    (web : Web) (fallback : String) (latency status : ℕ) (content : Json)
    (x : GatewayChargeResponse)
    → razorpay_outcome web fallback latency status content ≡ ok x
    → x.latency_ms ≡ latency
unfolding razorpay_outcome paid declined
razorpay_latency web fallback latency status content x h =
    elim (Bool-cases (status == 200 || status == 201)) [
      | inl good ↦
          built_latency (member web "id" content) (λ id. paid (id_of web id) content latency)
            latency x (λ o. refl) (rw good at h)
      | inr bad ↦ built_latency (member web "error" content) _ latency x (λ o. refl) (rw bad at h)
    ]

stripe_latency :
    (web : Web) (env : Env) (r : GatewayChargeRequest) (latency status : ℕ) (content : Json)
    (x : GatewayChargeResponse)
    → Stripe.outcome web env r latency status content ≡ ok x
    → x.latency_ms ≡ latency
unfolding Stripe.outcome paid declined
stripe_latency web env r latency status content x h = elim (Bool-cases (status == 200)) [
  | inl good ↦
      let (state, e, same) = bind_ok (member web "status" content) _ x (rw good at h) in
      elim (Bool-cases (is_str state "succeeded")) [
        | inl done ↦
            built_latency (member web "id" content) (λ id. paid (id_of web id) content latency)
              latency x (λ o. refl) (rw done at same)
        | inr other ↦
            built_latency (member web "error" content) _ latency x (λ o. refl) (rw other at same)
      ]
  | inr bad ↦ built_latency (member web "error" content) _ latency x (λ o. refl) (rw bad at h)
]

-- what is made of the status and the data
posted_latency :
    (m : Result String (ℕ × Json)) (f : ℕ × Json → Result String GatewayChargeResponse) (after : ℕ)
    → ((status : ℕ) (content : Json) (x : GatewayChargeResponse)
        → f (status, content) ≡ ok x
        → x.latency_ms ≡ after)
    → (x : GatewayChargeResponse) → (m >>? f) ≡ ok x
    → x.latency_ms ≤ after
posted_latency (ok (status, content)) f after h x e = omega (arith, h status content x e)
posted_latency (err m) f after h x e = absurd (ground arith)

module _ (web : Web) (env : Env) (r : GatewayChargeRequest) where
  -- of a payment link
  link-Answers :
      (after : ℕ) (m : Result String (ℕ × Json)) (sent : List HttpRequest)
      → Answers (live "Network error on Razorpay UPI" after (m >>? Upi.finish web env r after) sent)
  unfolding Upi.finish
  link-Answers after m sent =
      live-Answers "Network error on Razorpay UPI" after (m >>? Upi.finish web env r after) sent (
        posted_latency m (Upi.finish web env r after) after
          (λ status content x. razorpay_latency web _ after status content x))

  upi-Answers : (retry : Result String Bool) → Answers (Upi.finish_or_retry web env r retry)
  unfolding Upi.finish_or_retry
  upi-Answers (ok true) = link-Answers _ (post_for_json web (Upi.standard_post web env r)).1 _
  upi-Answers (ok false) = link-Answers _ (post_for_json web (Upi.upi_post web env r)).1 _
  upi-Answers (err m) =
      live-Answers "Network error on Razorpay UPI" _ (err m) (Upi.upi_post web env r ∷ [])
        λ x e. absurd (ground arith)

  -- of PayU's page
  page-Answers :
      (after reading status : ℕ) (content : Result String String) (sent : List HttpRequest)
      → Answers (
          live "Network error on PayU"
            (after + reading)
            (content >>? λ page. ok (Payu.outcome web env r after status page))
            sent)
  unfolding Payu.outcome paid declined
  page-Answers after reading status (ok page) sent =
      live-Answers "Network error on PayU" (after + reading)
        (ok (Payu.outcome web env r after status page)) sent (λ x e. ground arith)
  page-Answers after reading status (err m) sent =
      live-Answers "Network error on PayU" (after + reading) (err m) sent
        (λ x e. absurd (ground arith))

  payu-Answers : (o : ℕ × Result String HttpResponse) → Answers (Payu.finish web env r o)
  unfolding Payu.finish
  payu-Answers (after, err m) =
      live-Answers "Network error on PayU" after (err m) (Payu.payment_post web env r ∷ [])
        λ x e. absurd (ground arith)
  payu-Answers (after, ok response) =
      page-Answers after response.reading response.status response.content _

  live_charge-Answers : (g : GatewayProvider) → Answers (live_charge web env g r)
  unfolding Stripe.live_charge Razorpay.live_charge Payu.live_charge Upi.live_charge
  live_charge-Answers stripe =
      let (after, answer) = post_for_json web (Stripe.charge_post web env r) in
      live-Answers "Network error on Stripe" after
        (answer >>? λ p. Stripe.outcome web env r after p.0 p.1) (Stripe.charge_post web env r ∷ [])
        (posted_latency answer (λ p. Stripe.outcome web env r after p.0 p.1) after
          (λ status content x. stripe_latency web env r after status content x))
  live_charge-Answers razorpay =
      let (after, answer) = post_for_json web (Razorpay.order_post web env r) in
      let finish : ℕ × Json → Result String GatewayChargeResponse =
        λ p. razorpay_outcome web "Razorpay order creation failed" after p.0 p.1 in
      live-Answers "Network error on Razorpay" after (answer >>? finish)
        (Razorpay.order_post web env r ∷ [])
        (posted_latency answer finish after (λ status content x.
          razorpay_latency web "Razorpay order creation failed" after status content x))
  live_charge-Answers payu = payu-Answers (web.fetch (Payu.payment_post web env r))
  live_charge-Answers upi =
      upi-Answers
        ((post_for_json web (Upi.upi_post web env r)).1 >>? Upi.asks_for_standard web env r)

  -- No charge rejects, whatever the gateway answers or fails with, and the latency that its response
  -- reports is at most the time that the charge took.
  pub charge-Answers : (g : GatewayProvider) → Answers (adapter web env g r)
  charge-Answers g = elim (charge_by_amount web env r g) [
    | inl (simulated, s) ↦ record {
      response = s.response;
      answer = s.answer;
      in_time = omega (arith, s.latency, s.after);
    }
    | inr (genuine, e) ↦ subst Answers (sym e) (live_charge-Answers g)
  ]
