-- ===== src/Routing/Config.antt =====
-- Which gateways are configured: `isGatewayConfigured` of gateways/routing-engine.service.ts, and the
-- tests on texts that the services make.
use Prim.Native.String.{len, slice}
use text.Mathlib.Text.{find?}
use payment_orchestration_la.Common.{
  ◌-◌, String, Bool, true, false, not, ◌&&◌, Option, none, some, leb, str_eq, if◌then◌else◌,
}
use payment_orchestration_la.Enums.{GatewayProvider, stripe, razorpay, payu, upi}
use payment_orchestration_la.Entities.{GatewayStats}

-- `process.env`
abbrev pub Env : Type 0
Env = String → Option String

-- `a || b` on texts that may be undefined
abbrev pub or_env : Option String → Option String → Option String
or_env (some a) b = if str_eq a "" then b else some a
or_env none b = b

-- `s.includes(t)` and `s.endsWith(t)`
abbrev pub text_includes : String → String → Bool
text_includes s t = elim (find? s t) [ some i ↦ true | none ↦ false ]

abbrev pub ends_with : String → String → Bool
ends_with s t = leb (len t) (len s) && str_eq (slice s (len s - len t) (len s)) t

-- `!!(key && !key.includes('xxxxxxxxxxxx') && !key.endsWith('xxx'))`
unfoldable pub is_real_key : Option String → Bool
is_real_key none = false
is_real_key (some key) =
    not (str_eq key "") && not (text_includes key "xxxxxxxxxxxx") && not (ends_with key "xxx")

unfoldable pub is_gateway_configured : Env → GatewayProvider → Bool
unfolding is_real_key
is_gateway_configured env stripe = is_real_key (env "STRIPE_SECRET_KEY")
is_gateway_configured env razorpay = is_real_key (env "RAZORPAY_KEY_SECRET")
is_gateway_configured env payu = is_real_key (or_env (env "PAYU_SALT") (env "PAYU_MERCHANT_KEY"))
is_gateway_configured env upi = is_real_key (or_env (env "UPI_VPA") (env "UPI_MERCHANT_ID"))

-- `process.env.NODE_ENV === 'test'`
abbrev pub is_test : Env → Bool
is_test env = elim (env "NODE_ENV") [ some v ↦ str_eq v "test" | none ↦ false ]

-- the filter on the rows that `find` returned
unfoldable pub routable : Env → GatewayStats → Bool
unfolding is_gateway_configured
routable env stats = if is_test env then true else is_gateway_configured env stats.gateway
