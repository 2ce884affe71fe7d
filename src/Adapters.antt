-- ===== src/Adapters.antt =====
-- gateways/adapters: what the four adapters share. `fetch`, the clock, uuid and Node's Buffer and
-- crypto are not part of the repository; they are the record `Web`.
pub mod Decimal
pub mod Hundredths
pub mod Stripe
pub mod Razorpay
pub mod Payu
pub mod Upi
pub mod Online
pub mod Amount
pub mod Simulated
pub mod Live
pub mod Latency
pub mod Sandbox
mod Tests
use Prim.Native.Char.{code}
use Prim.Native.String.{slice}
use payment_orchestration_la.Common.{
  ◌+◌, ◌==◌, ℕ, String, Bool, true, false, Option, none, some, List, [], ◌∷◌, if◌then◌else◌,
  template, str_eq, starts_with, ◌||◌,
}
use payment_orchestration_la.Common.Effect.{Result, ok, err}
use payment_orchestration_la.Json.{Json, null, str, obj, field, end, get_field, truthy}
use payment_orchestration_la.Payments.Charge.{GatewayChargeRequest, GatewayChargeResponse, Settled}

-- The body of a request: `new URLSearchParams(…)`, or `JSON.stringify(…)`.
pub data Body : Type 0 where
  form : List (String × String) → Body
  json : Json → Body

pub record HttpRequest : Type 0 where
  pub url : String
  pub headers : List (String × String)
  pub body : Body

-- `response.status`, how long the reading of the body takes, and what `response.text()` and
-- `response.json()` come to: the body, or the message of an error.
pub record HttpResponse : Type 0 where
  pub status : ℕ
  pub reading : ℕ
  pub content : Result String String
  pub parsed : Result String Json

pub record Web : Type 0 where
  -- how long `fetch` takes, and its response or the error's message
  pub fetch : HttpRequest → ℕ × Result String HttpResponse
  -- when a timer of so many milliseconds goes off
  pub timer : ℕ → ℕ
  pub uuid : String
  pub base64 : String → String
  pub sha512 : String → String
  -- `text.toLowerCase()`
  pub lower : String → String
  -- a value in a text, and in a text column
  pub show : Json → String
  -- the message of the TypeError that a member of this name throws
  pub type_error : String → String

-- A charge: when it settles, with which response, and the requests that were sent.
pub record Charged : Type 0 where
  pub settled : Settled
  pub sent : List HttpRequest

unfoldable pub answered : ℕ → GatewayChargeResponse → List HttpRequest → Charged
answered after response sent = record {
  settled = record { after = after; value = ok response };
  sent = sent;
}

unfoldable pub paid : Option (Option String) → Json → ℕ → GatewayChargeResponse
paid id raw latency = record {
  success = true;
  gateway_txn_id = id;
  raw_response = raw;
  error = none;
  latency_ms = latency;
}

-- `gatewayTxnId` is null
unfoldable pub declined : String → Json → ℕ → GatewayChargeResponse
declined message raw latency = record {
  success = false;
  gateway_txn_id = some none;
  raw_response = raw;
  error = some message;
  latency_ms = latency;
}

-- An answer of the simulation, after a wait.
unfoldable pub simulated : Web → ℕ → (ℕ → GatewayChargeResponse) → Charged
unfolding answered
simulated web wait response = answered (web.timer wait) (response (web.timer wait)) []

unfoldable pub simulated_timeout : Web → Charged
unfolding simulated declined
simulated_timeout web =
    simulated web 2000
      (declined "Gateway call timed out" (obj (field "error" (str "Timeout after 2000ms") end)))

-- `value.k`, which throws for null
unfoldable pub member : Web → String → Json → Result String (Option Json)
member web k null = err (web.type_error k)
member web k value = ok (get_field (some value) k)

-- `value || fallback` as a text
unfoldable pub text_or : Web → Option Json → String → String
text_or web none fallback = fallback
text_or web (some v) fallback = if truthy (some v) then web.show v else fallback

-- `value === text`
abbrev pub is_str : Option Json → String → Bool
is_str (some (str s)) t = str_eq s t
is_str _ t = false

-- a value as `gatewayTxnId`
unfoldable pub id_of : Web → Option Json → Option (Option String)
id_of web none = none
id_of web (some null) = some none
id_of web (some v) = some (some (web.show v))

infixl 5 ◌>>?◌
abbrev pub ◌>>?◌ : {A B : Type 0} → Result String A → (A → Result String B) → Result String B
ok a >>? f = f a
err m >>? f = err m

-- The `catch`: `err.message || fallback`.
unfoldable pub caught : String → ℕ → Result String GatewayChargeResponse → GatewayChargeResponse
unfolding declined
caught fallback latency (ok response) = response
caught fallback latency (err m) =
    declined (if str_eq m "" then fallback else m) (obj (field "error" (str m) end)) latency

-- `!key || key.startsWith(prefix)`
unfoldable pub is_mock_key : String → Option String → Bool
is_mock_key prefix none = true
is_mock_key prefix (some key) = str_eq key "" || starts_with key prefix

-- `key === text`
abbrev pub is_key : String → Option String → Bool
is_key text none = false
is_key text (some key) = str_eq key text

-- a text that may be undefined in a template literal
abbrev pub shown : Option String → String
shown none = "undefined"
shown (some s) = s

-- `fetch` and `response.json()`: how long they take, and the status with the data
unfoldable pub post_for_json : Web → HttpRequest → ℕ × Result String (ℕ × Json)
post_for_json web request =
    let (after, answer) = web.fetch request in
    elim answer [
      | err m ↦ (after, err m)
      | ok response ↦ (
        after + response.reading,
        elim response.parsed [ err m ↦ err m | ok content ↦ ok (response.status, content) ],
      )
    ]

-- The end of a live charge that answered or threw after so many milliseconds.
unfoldable pub live : String → ℕ → Result String GatewayChargeResponse → List HttpRequest → Charged
unfolding answered caught
live fallback after outcome sent = answered after (caught fallback after outcome) sent

-- `Authorization: Basic …`, and the content type
abbrev pub basic_headers : Web → Option String → Option String → List (String × String)
basic_headers web key_id key_secret =
    (
      "Authorization",
      template ("Basic " ∷ web.base64 (template (shown key_id ∷ ":" ∷ shown key_secret ∷ [])) ∷ []),
    )
    ∷ ("Content-Type", "application/json")
    ∷ []

-- `uuidv4().replace(/-/g, '')`
abbrev pub without_dashes : String → String
without_dashes String.[] = ""
without_dashes (String.◌∷◌ c s) =
    let rest = without_dashes s in if code c == b'-' then rest else String.◌∷◌ c rest

-- `prefix${uuidv4().replace(/-/g, '').slice(0, 16)}`
abbrev pub new_id : String → Web → String
new_id prefix web = template (prefix ∷ slice (without_dashes web.uuid) 0 16 ∷ [])

-- The answer to an order of Razorpay or to a payment link.
unfoldable pub razorpay_outcome : Web → String → ℕ → ℕ → Json → Result String GatewayChargeResponse
unfolding paid declined member text_or id_of
razorpay_outcome web fallback latency status content =
    if status == 200 || status == 201
    then (member web "id" content >>? λ id. ok (paid (id_of web id) content latency))
    else (member web "error" content >>? λ e.
        ok (declined (text_or web (get_field e "description") fallback) content latency))
