-- ===== src/Adapters/Online.antt =====
-- The adapters behind the payment service: `getAdapter` of transactions/transactions.service.ts.
use payment_orchestration_la.Common.{ℕ}
use payment_orchestration_la.Enums.{GatewayProvider, stripe, razorpay, payu, upi}
use payment_orchestration_la.Routing.Config.{Env}
use payment_orchestration_la.Payments.Charge.{GatewayChargeRequest, Outside}
use payment_orchestration_la.Adapters.{Web, Charged}
use payment_orchestration_la.Adapters.Stripe
use payment_orchestration_la.Adapters.Razorpay
use payment_orchestration_la.Adapters.Payu
use payment_orchestration_la.Adapters.Upi

-- The charge through the adapter of a gateway.
unfoldable pub adapter : Web → Env → GatewayProvider → GatewayChargeRequest → Charged
adapter web env stripe r = Stripe.charge web env r
adapter web env razorpay r = Razorpay.charge web env r
adapter web env payu r = Payu.charge web env r
adapter web env upi r = Upi.charge web env r

-- The outside world of the payment service with these adapters, at a time.
abbrev pub online : Web → Env → ℕ → Outside
online web env now = record {
  charge = λ g r. (adapter web env g r).settled;
  timer = web.timer;
  now = now;
}
