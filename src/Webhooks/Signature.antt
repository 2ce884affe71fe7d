-- ===== src/Webhooks/Signature.antt =====
-- The signature checks of webhooks/webhooks.controller.ts. Node's `crypto` and `Buffer` are not part
-- of the repository; they are the interface `Crypto`.
pub mod Header
pub mod Stripe
use payment_orchestration_la.Common.{
  ℕ, String, Bool, true, false, not, ◌&&◌, ◌≡◌, ◌↔◌, Option, none, some, List, [], ◌∷◌, length,
  ◌==◌, str_eq, starts_with, template, if◌then◌else◌,
}
use payment_orchestration_la.Json.{Json, str, get_field, truthy, or_else}
use Header.{split, find_part, nth}

-- What the check uses of `crypto`, `Buffer` and the text conversions of JavaScript.
pub record Crypto : Type 0 where
  -- `createHmac('sha256', secret).update(text).digest('hex')`
  pub hmac_sha256 : String → String → String
  -- `createHash('sha512').update(text).digest('hex')`
  pub sha512 : String → String
  -- `Buffer.from(text, 'hex')`
  pub from_hex : String → List ℕ
  -- on buffers of one length
  pub timing_safe_equal : List ℕ → List ℕ → Bool
  -- `text.toLowerCase()`
  pub lower : String → String
  -- a value in a template literal
  pub show : Json → String

-- `timingSafeEqual` compares buffers of one length.
pub record IsCrypto (X : Crypto) : Type 0 where
  pub timing_safe_equal_iff :
      (a b : List ℕ) → length a ≡ length b → (X.timing_safe_equal a b ≡ true) ↔ (a ≡ b)

module _ (X : Crypto) where
  open X use {hmac_sha256, sha512, from_hex, timing_safe_equal, lower, show}

  -- The end of both HMAC checks: the lengths, and then the bytes.
  unfoldable pub same_digest : String → String → Bool
  same_digest signature expected =
      let a = from_hex signature in
      let b = from_hex expected in
      if not (length a == length b) then false else timing_safe_equal a b

  unfoldable pub verify_razorpay : String → String → String → Bool
  unfolding same_digest
  verify_razorpay raw_body signature secret = same_digest signature (hmac_sha256 secret raw_body)

  -- `if (!timestampPart || !signaturePart) return false;` and what follows
  unfoldable pub verify_parts : String → String → Option String → Option String → Bool
  unfolding same_digest split nth
  verify_parts raw_body secret (some timestamp_part) (some signature_part) =
      let timestamp = nth 1 (split b'=' timestamp_part) in
      same_digest (nth 1 (split b'=' signature_part))
        (hmac_sha256 secret (template (timestamp ∷ "." ∷ raw_body ∷ [])))
  verify_parts raw_body secret _ _ = false

  -- `t=…` and `v1=…` among the parts of the header
  unfoldable pub verify_stripe : String → String → String → Bool
  unfolding verify_parts find_part
  verify_stripe raw_body signature secret =
      let parts = split b',' signature in
      verify_parts raw_body secret (find_part "t=" parts) (find_part "v1=" parts)

  -- `body.k || ''` in a template literal
  unfoldable pub part_of : Json → String → String
  part_of body k = elim (or_else (get_field (some body) k) (some (str ""))) [
    | some v ↦ show v
    | none ↦ ""
  ]

  -- salt|status|udf5|udf4|udf3|udf2|udf1|email|firstname|productinfo|amount|txnid|key
  unfoldable pub payu_text : Json → String → String
  unfolding part_of
  payu_text body salt =
      let at = part_of body in
      let text = template (
        salt
        ∷ "|"
        ∷ at "status"
        ∷ "|"
        ∷ at "udf5"
        ∷ "|"
        ∷ at "udf4"
        ∷ "|"
        ∷ at "udf3"
        ∷ "|"
        ∷ at "udf2"
        ∷ "|"
        ∷ at "udf1"
        ∷ "|"
        ∷ at "email"
        ∷ "|"
        ∷ at "firstname"
        ∷ "|"
        ∷ at "productinfo"
        ∷ "|"
        ∷ at "amount"
        ∷ "|"
        ∷ at "txnid"
        ∷ "|"
        ∷ at "key"
        ∷ []) in
      if truthy (get_field (some body) "additionalCharges")
      then template (at "additionalCharges" ∷ "|" ∷ text ∷ [])
      else text

  -- A hash that is no text has no `toLowerCase`, and the `catch` answers false.
  unfoldable pub hash_matches : String → Option Json → Bool
  hash_matches calculated (some (str received)) = str_eq (lower calculated) (lower received)
  hash_matches calculated _ = false

  unfoldable pub verify_payu : Json → String → Bool
  unfolding payu_text hash_matches
  verify_payu body salt =
      hash_matches (sha512 (payu_text body salt))
        (or_else (get_field (some body) "hash") (some (str "")))
