-- ===== src/Adapters/Live.antt =====
-- What a charge with live keys says of the gateway's answer.
pub mod Reading
use mathlib.Core.List.{Memᴰ}
use payment_orchestration_la.Common.{
  ℕ, ◌≡◌, ◌⊎◌, inl, inr, refl, Bool, true, false, Option, none, some, arith, ◌||◌, ◌==◌, Bool-cases,
  sym, ◌∙◌, ap, String, subst, eq_iff,
}
use payment_orchestration_la.Common.Effect.{Result, ok, err}
use payment_orchestration_la.Enums.{GatewayProvider, stripe, razorpay, payu, upi}
use payment_orchestration_la.Json.{Json, null, bool, num, str, arr, obj, get_field}
use payment_orchestration_la.Routing.Config.{Env}
use payment_orchestration_la.Payments.Charge.{GatewayChargeRequest, GatewayChargeResponse}
use payment_orchestration_la.Adapters.{
  Web, Charged, HttpRequest, HttpResponse, answered, paid, declined, caught, live, member, ◌>>?◌,
  post_for_json, is_str, id_of, razorpay_outcome,
}
use payment_orchestration_la.Adapters.Simulated.{is_simulated, live_charge, charge_by_amount}
use payment_orchestration_la.Adapters.Online.{adapter}
use payment_orchestration_la.Adapters.Stripe
use payment_orchestration_la.Adapters.Razorpay
use payment_orchestration_la.Adapters.Payu
use payment_orchestration_la.Adapters.Upi
use Reading.{
  Answered, Succeeds, bind_ok, member_ok, is_str_lem, paid_lem, declined_lem, ok_lem, caught_lem,
  live_lem,
}

-- The answer to a request that makes a charge a success.
abbrev pub Approved : Web → GatewayProvider → HttpRequest → Json → Type 0
Approved web stripe q raw =
    Answered web q 200 raw × (get_field (some raw) "status" ≡ some (str "succeeded"))
Approved web payu q raw =
    (after : ℕ) × (response : HttpResponse) × (web.fetch q ≡ (after, ok response))
    × ((response.status ≡ 200) ⊎ (response.status ≡ 302))
Approved web _ q raw = Answered web q 200 raw ⊎ Answered web q 201 raw

razorpay-Approved :
    (web : Web) (fallback : String) (latency status : ℕ) (content : Json)
    (x : GatewayChargeResponse)
    → razorpay_outcome web fallback latency status content ≡ ok x
    → Succeeds x
    → ((status ≡ 200) ⊎ (status ≡ 201)) × (x.raw_response ≡ content)
unfolding razorpay_outcome paid
razorpay-Approved web fallback latency status content x h s =
    elim (Bool-cases (status == 200 || status == 201)) [
      | inl good ↦ (
        ground (arith, good),
        paid_lem (member web "id" content) (id_of web) content latency x (rw good at h),
      )
      | inr bad ↦
          absurd (declined_lem (member web "error" content) _ content latency x (rw bad at h) s)
    ]

stripe-Approved :
    (web : Web) (latency status : ℕ) (content : Json) (x : GatewayChargeResponse) (env : Env)
    (r : GatewayChargeRequest)
    → Stripe.outcome web env r latency status content ≡ ok x
    → Succeeds x
    → (status ≡ 200)
      × (get_field (some content) "status" ≡ some (str "succeeded"))
      × (x.raw_response ≡ content)
unfolding Stripe.outcome paid
stripe-Approved web latency status content x env r h s = elim (Bool-cases (status == 200)) [
  | inl good ↦
      let (state, e, same) = bind_ok (member web "status" content) _ x (rw good at h) in
      elim (Bool-cases (is_str state "succeeded")) [
        | inl done ↦ (
          ground (arith, good),
          sym (member_ok web "status" content state e) ∙ is_str_lem state "succeeded" done,
          paid_lem (member web "id" content) (id_of web) content latency x (rw done at same),
        )
        | inr other ↦
            absurd
              (declined_lem (member web "error" content) _ content latency x (rw other at same) s)
      ]
  | inr bad ↦ absurd (declined_lem (member web "error" content) _ content latency x (rw bad at h) s)
]

-- the answer with its status written out
with_status :
    (web : Web) (q : HttpRequest) (m n : ℕ) (content raw : Json)
    → Answered web q m content
    → m ≡ n
    → raw ≡ content
    → Answered web q n raw
with_status web q m n content raw a e same = rw same (subst (λ k. Answered web q k content) e a)

-- of Razorpay, and of UPI
link_Approved :
    (web : Web) (q : HttpRequest) (status : ℕ) (content : Json) (x : GatewayChargeResponse)
    → Answered web q status content
    → ((status ≡ 200) ⊎ (status ≡ 201)) × (x.raw_response ≡ content)
    → Answered web q 200 x.raw_response ⊎ Answered web q 201 x.raw_response
link_Approved web q status content x a (inl e, same) =
    inl (with_status web q status 200 content _ a e same)
link_Approved web q status content x a (inr e, same) =
    inr (with_status web q status 201 content _ a e same)

module _ (web : Web) (env : Env) (r : GatewayChargeRequest) (x : GatewayChargeResponse)
    (s : Succeeds x) where
  abbrev IsApproved : GatewayProvider → Charged → Type 0
  IsApproved g c = (q : HttpRequest) × Memᴰ q c.sent × Approved web g q x.raw_response

  upi-Approved :
      (retry : Result String Bool)
      → (Upi.finish_or_retry web env r retry).settled.value ≡ ok x
      → IsApproved upi (Upi.finish_or_retry web env r retry)
  unfolding Upi.finish_or_retry Upi.finish live answered
  upi-Approved (ok true) h =
      let (status, content, a, made) =
        live_lem web (Upi.standard_post web env r) _ _ _ x (ok_lem _ x h) s in
      (
        Upi.standard_post web env r,
        Memᴰ.tail (Memᴰ.head refl),
        link_Approved web _ status content x a (razorpay-Approved web _ _ status content x made s),
      )
  upi-Approved (ok false) h =
      let (status, content, a, made) =
        live_lem web (Upi.upi_post web env r) _ _ _ x (ok_lem _ x h) s in
      (
        Upi.upi_post web env r,
        Memᴰ.head refl,
        link_Approved web _ status content x a (razorpay-Approved web _ _ status content x made s),
      )
  upi-Approved (err m) h = absurd (ground (arith, caught_lem _ _ (err m) x (ok_lem _ x h) s))

  payu-Approved :
      (o : ℕ × Result String HttpResponse)
      → web.fetch (Payu.payment_post web env r) ≡ o
      → (Payu.finish web env r o).settled.value ≡ ok x
      → IsApproved payu (Payu.finish web env r o)
  unfolding Payu.finish Payu.outcome live answered declined
  payu-Approved (after, err m) e h =
      absurd (ground (arith, caught_lem _ _ (err m) x (ok_lem _ x h) s))
  payu-Approved (after, ok response) e h =
      let (page, same, made) = bind_ok response.content _ x (caught_lem _ _ _ x (ok_lem _ x h) s) in
      (Payu.payment_post web env r, Memᴰ.head refl, (after, response, e, ground (arith, made, s)))

  live-Approved :
      (g : GatewayProvider)
      → (live_charge web env g r).settled.value ≡ ok x
      → IsApproved g (live_charge web env g r)
  unfolding Stripe.live_charge Razorpay.live_charge Payu.live_charge Upi.live_charge live answered
  live-Approved stripe h =
      let (status, content, a, made) =
        live_lem web (Stripe.charge_post web env r) _ _ _ x (ok_lem _ x h) s in
      let (e, done, same) = stripe-Approved web _ status content x env r made s in
      (
        Stripe.charge_post web env r,
        Memᴰ.head refl,
        (
          with_status web _ status 200 content _ a e same,
          ap (λ k. get_field (some k) "status") same ∙ done,
        ),
      )
  live-Approved razorpay h =
      let (status, content, a, made) =
        live_lem web (Razorpay.order_post web env r) _ _ _ x (ok_lem _ x h) s in
      (
        Razorpay.order_post web env r,
        Memᴰ.head refl,
        link_Approved web _ status content x a (razorpay-Approved web _ _ status content x made s),
      )
  live-Approved payu h = payu-Approved (web.fetch (Payu.payment_post web env r)) refl h
  live-Approved upi h = upi-Approved _ h

module _ (web : Web) (env : Env) (r : GatewayChargeRequest) where
  -- A charge that goes to the gateway and succeeds rests on an answer of the gateway: status 200 and
  -- `succeeded` of Stripe, 200 or 201 of Razorpay, for UPI too, and 200 or 302 of PayU, to a request
  -- that the charge has sent; but for PayU, the response holds the data of that answer.
  pub charge-Approved :
      (g : GatewayProvider) (x : GatewayChargeResponse)
      → is_simulated env g r.amount ≡ false
      → (adapter web env g r).settled.value ≡ ok x
      → x.success ≡ true
      → (q : HttpRequest) × Memᴰ q (adapter web env g r).sent × Approved web g q x.raw_response
  charge-Approved g x genuine same paid_up = elim (charge_by_amount web env r g) [
    | inl (simulated, s) ↦ absurd (ground (arith, genuine, simulated))
    | inr (live, e) ↦
        subst (IsApproved web env r x paid_up g) (sym e)
          (live-Approved web env r x paid_up g (rw e at same))
  ]
