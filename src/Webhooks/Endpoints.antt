-- ===== src/Webhooks/Endpoints.antt =====
-- The handlers of webhooks/webhooks.controller.ts. `as_text` is what the database driver makes of a
-- JSON value in a text column; ConfigService reads the environment.
use payment_orchestration_la.Common.{
  String, Bool, true, false, not, ◌||◌, Option, none, some, str_eq, starts_with, if◌then◌else◌,
}
use payment_orchestration_la.Common.Effect.{Action, pure, ◌>>=◌}
use payment_orchestration_la.Enums.{GatewayProvider, stripe, razorpay, payu, upi}
use payment_orchestration_la.Json.{Json, str, get_field, truthy, coalesce}
use payment_orchestration_la.Database.{Database, Exception}
use payment_orchestration_la.Redis.{RedisClient}
use payment_orchestration_la.Routing.Config.{Env}
use payment_orchestration_la.Webhooks.Events.{EventRepo, Inbox}
use payment_orchestration_la.Webhooks.Intake.{IncomingWebhook, ingest}
use payment_orchestration_la.Webhooks.Signature.{
  Crypto, verify_stripe, verify_razorpay, verify_payu,
}

-- What a handler is given: the parsed body, its bytes, and the header of the signature.
pub record HookRequest : Type 0 where
  pub body : Json
  pub raw_body : Option String
  pub signature : Option String

pub record Reply : Type 0 where
  pub received : Bool
  pub duplicate : Option Bool
  pub error : Option String

abbrev pub rejected : Reply
rejected = record {
  received = false;
  duplicate = none;
  error = some "Signature verification failed";
}

abbrev pub accepted : Bool → Reply
accepted duplicate = record { received = true; duplicate = some duplicate; error = none }

-- `!secret || secret.startsWith(prefix)`, and with `|| secret === 'xxxxxxxxxxxx'`
unfoldable pub is_unset : String → Option String → Bool
is_unset prefix none = true
is_unset prefix (some secret) = str_eq secret "" || starts_with secret prefix

unfoldable pub is_placeholder : String → Option String → Bool
unfolding is_unset
is_placeholder prefix none = true
is_placeholder prefix (some secret) = is_unset prefix (some secret) || str_eq secret "xxxxxxxxxxxx"

-- `signature && req.rawBody` and the check; the secret is set where this is called
unfoldable pub check_signed : (String → String → String → Bool) → HookRequest → Option String → Bool
check_signed verify r (some secret) = elim r.signature [
  | none ↦ false
  | some signature ↦ elim r.raw_body [
    | none ↦ false
    | some raw ↦ if str_eq signature "" then false else verify raw signature secret
  ]
]
check_signed verify r none = false

module _ (X : Crypto) (env : Env) where
  unfoldable pub stripe_verified : HookRequest → Bool
  unfolding is_unset check_signed
  stripe_verified r =
      let secret = env "STRIPE_WEBHOOK_SECRET" in
      if is_unset "whsec_xxx" secret then true else check_signed (verify_stripe X) r secret

  -- in the handlers of Razorpay and of UPI
  unfoldable pub razorpay_verified : HookRequest → Bool
  unfolding is_placeholder check_signed
  razorpay_verified r =
      let secret = env "RAZORPAY_KEY_SECRET" in
      if is_placeholder "rzp_test_xxx" secret
      then true
      else check_signed (verify_razorpay X) r secret

  -- `body && body.hash`, which is undefined for a body that is falsy
  unfoldable pub payu_verified : Json → Bool
  unfolding is_placeholder
  payu_verified body =
      let salt = env "PAYU_SALT" in
      if is_placeholder "payu_test_xxx" salt
      then true
      else if truthy (get_field (some body) "hash")
      then (elim salt [ none ↦ false | some s ↦ verify_payu X body s ])
      else false

  -- The check of the handler of a gateway.
  unfoldable pub verified_by : GatewayProvider → HookRequest → Bool
  unfolding stripe_verified razorpay_verified payu_verified
  verified_by stripe r = stripe_verified r
  verified_by razorpay r = razorpay_verified r
  verified_by payu r = payu_verified r.body
  verified_by upi r = razorpay_verified r

-- `body?.k`
abbrev at : Json → String → Option Json
at body k = get_field (some body) k

module _ (as_text : Json → String) where
  -- `… ?? 'unknown'`
  unfoldable pub or_unknown : Option Json → String
  or_unknown v = elim (coalesce v (some (str "unknown"))) [ some j ↦ as_text j | none ↦ "unknown" ]

  -- The event that a handler hands to `ingest`.
  unfoldable pub event_of : GatewayProvider → Json → Bool → IncomingWebhook
  unfolding or_unknown
  event_of gateway body verified = record {
    gateway = gateway;
    event_id = or_unknown (elim gateway [
      | stripe ↦ at body "id"
      | razorpay ↦ coalesce (at body "id") (at body "event_id")
      | payu ↦ coalesce (at body "mihpayid") (at body "txnid")
      | upi ↦ coalesce (at body "id") (at body "event_id")
    ]);
    event_type = or_unknown (elim gateway [
      | stripe ↦ at body "type"
      | razorpay ↦ at body "event"
      | payu ↦ at body "status"
      | upi ↦ at body "event"
    ]);
    payload = body;
    signature_verified = verified;
  }

  module _ (D : Database) (E : EventRepo) (C : RedisClient) where
    -- What follows the check, in each of the handlers.
    unfoldable pub receive : GatewayProvider → Json → Bool → Action (Inbox D E C) Exception Reply
    unfolding event_of
    receive gateway body verified =
        if not verified
        then pure rejected
        else (ingest D E C (event_of gateway body verified) >>= λ result.
            pure (accepted result.duplicate))

    module _ (X : Crypto) (env : Env) where
      -- The handlers, by gateway.
      unfoldable pub hook : GatewayProvider → HookRequest → Action (Inbox D E C) Exception Reply
      unfolding receive verified_by
      hook gateway r = receive gateway r.body (verified_by X env gateway r)
