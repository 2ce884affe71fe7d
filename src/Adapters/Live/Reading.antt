-- ===== src/Adapters/Live/Reading.antt =====
-- How the adapters read an answer of a gateway, and what a successful response says of it.
use payment_orchestration_la.Common.{
  ℕ, ◌≡◌, refl, true, Option, none, some, arith, ap, String, eq_iff,
}
use payment_orchestration_la.Common.Effect.{Result, ok, err}
use payment_orchestration_la.Json.{Json, null, bool, num, str, arr, obj, get_field}
use payment_orchestration_la.Payments.Charge.{GatewayChargeResponse}
use payment_orchestration_la.Adapters.{
  Web, HttpRequest, HttpResponse, paid, declined, caught, member, ◌>>?◌, post_for_json, is_str,
}

-- The gateway has answered a request with this status and this data.
pub record Answered (web : Web) (q : HttpRequest) (status : ℕ) (content : Json) : Type 0 where
  pub after : ℕ
  pub response : HttpResponse
  pub fetched : web.fetch q ≡ (after, ok response)
  pub same_status : response.status ≡ status
  pub parsed : response.parsed ≡ ok content

abbrev pub Succeeds : GatewayChargeResponse → Type 0
Succeeds x = x.success ≡ true

pub bind_ok :
    {A B : Type 0} (m : Result String A) (f : A → Result String B) (b : B)
    → (m >>? f) ≡ ok b
    → (a : A) × (m ≡ ok a) × (f a ≡ ok b)
bind_ok (ok a) f b h = (a, refl, h)
bind_ok (err m) f b h = absurd (ground arith)

pub member_ok :
    (web : Web) (k : String) (content : Json) (o : Option Json)
    → member web k content ≡ ok o
    → o ≡ get_field (some content) k
unfolding member
member_ok web k null o h = absurd (ground arith)
member_ok web k (bool b) o h = ground arith
member_ok web k (num n) o h = ground arith
member_ok web k (str s) o h = ground arith
member_ok web k (arr xs) o h = ground arith
member_ok web k (obj fs) o h = ground arith

pub is_str_lem : (o : Option Json) (t : String) → is_str o t ≡ true → o ≡ some (str t)
is_str_lem (some (str s)) t h = ap (λ k. some (str k)) ((eq_iff s t).0 h)
is_str_lem none t h = absurd (ground arith)
is_str_lem (some null) t h = absurd (ground arith)
is_str_lem (some (bool b)) t h = absurd (ground arith)
is_str_lem (some (num n)) t h = absurd (ground arith)
is_str_lem (some (arr xs)) t h = absurd (ground arith)
is_str_lem (some (obj fs)) t h = absurd (ground arith)

-- the branch of a charge that is paid
pub paid_lem :
    (m : Result String (Option Json)) (ids : Option Json → Option (Option String)) (raw : Json)
    (latency : ℕ) (x : GatewayChargeResponse)
    → (m >>? λ id. ok (paid (ids id) raw latency)) ≡ ok x
    → x.raw_response ≡ raw
unfolding paid
paid_lem (ok id) ids raw latency x h = ground arith
paid_lem (err m) ids raw latency x h = absurd (ground arith)

-- the branch of a failed charge
pub declined_lem :
    (m : Result String (Option Json)) (text : Option Json → String) (raw : Json) (latency : ℕ)
    (x : GatewayChargeResponse)
    → (m >>? λ e. ok (declined (text e) raw latency)) ≡ ok x
    → Succeeds x
    → ⊥
unfolding declined
declined_lem (ok e) text raw latency x h s = ground arith
declined_lem (err m) text raw latency x h s = ground arith

pub ok_lem :
    (x y : GatewayChargeResponse)
    → ◌≡◌ {A = Result String GatewayChargeResponse} (ok x) (ok y)
    → x ≡ y
ok_lem x y h = ground arith

pub caught_lem :
    (fallback : String) (latency : ℕ) (o : Result String GatewayChargeResponse)
    (x : GatewayChargeResponse)
    → caught fallback latency o ≡ x
    → Succeeds x
    → o ≡ ok x
unfolding caught declined
caught_lem fallback latency (ok y) x h s = ap (λ z. ok z) h
caught_lem fallback latency (err m) x h s = absurd (ground arith)

post_for_json-Answered :
    (web : Web) (q : HttpRequest) (status : ℕ) (content : Json)
    → (post_for_json web q).1 ≡ ok (status, content)
    → Answered web q status content
unfolding post_for_json
post_for_json-Answered web q status content h = by_fetch (web.fetch q) refl
  where
    by_body :
        (after : ℕ) (response : HttpResponse) (body : Result String Json)
        → web.fetch q ≡ (after, ok response)
        → response.parsed ≡ body
        → Answered web q status content
    by_body after response (err m) e p = absurd (ground arith)
    by_body after response (ok c) e p = record {
      after = after;
      response = response;
      fetched = e;
      same_status = ground arith;
      parsed = ground arith;
    }

    by_fetch :
        (o : ℕ × Result String HttpResponse) → web.fetch q ≡ o → Answered web q status content
    by_fetch (after, err m) e = absurd (ground arith)
    by_fetch (after, ok response) e = by_body after response response.parsed e refl

-- The answer is read, and what is made of it is a success.
pub live_lem :
    (web : Web) (q : HttpRequest) (after : ℕ) (f : ℕ × Json → Result String GatewayChargeResponse)
    (fallback : String) (x : GatewayChargeResponse)
    → caught fallback after ((post_for_json web q).1 >>? f) ≡ x
    → Succeeds x
    → (status : ℕ) × (content : Json) × Answered web q status content × (f (status, content) ≡ ok x)
live_lem web q after f fallback x h s =
    let ((status, content), same, made) =
      bind_ok (post_for_json web q).1 f x
        (caught_lem fallback after ((post_for_json web q).1 >>? f) x h s) in
    (status, content, post_for_json-Answered web q status content same, made)
