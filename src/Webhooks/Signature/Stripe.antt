-- ===== src/Webhooks/Signature/Stripe.antt =====
-- `verifyStripeSignature`: the headers that it takes are those that carry the HMAC of the body.
use Prim.Native.Char.{code}
use Prim.Native.String.{◌++◌ as append}
use text.Mathlib.TextLemmas.{
  append_assoc, append-nil, nil-append, cons-append, head-eq_of_cons-eq, cons≢nil,
}
use text.Mathlib.TextEquality.{starts_with_iff}
use text.Mathlib.TextPositions.{starts_with-append}
use payment_orchestration_la.Common.{
  eq_iff, ℕ, String, ◌≡◌, inl, inr, refl, true, false, Option, none, some, List, [], ◌∷◌, length,
  arith, sym, ap, subst, ◌∙◌, str_eq, starts_with, template, Bool-cases,
}
use payment_orchestration_la.Webhooks.Signature.{
  Crypto, IsCrypto, same_digest, verify_parts, verify_stripe,
}
use payment_orchestration_la.Webhooks.Signature.Header.{
  split, find_part, nth, Lacks, split_single, split-append,
}

-- A header `t=<time>,v1=<signature>`.
abbrev pub header_of : String → String → String
header_of time signature = template ("t=" ∷ time ∷ ",v1=" ∷ signature ∷ [])

pub Lacks-append : (sep : ℕ) (s t : String) → Lacks sep s → Lacks sep t → Lacks sep (append s t)
Lacks-append sep String.[] t h k = subst (Lacks sep) (sym (nil-append t)) k
Lacks-append sep (String.◌∷◌ c s) t h k =
    subst (Lacks sep) (sym (cons-append c s t)) (h.0, Lacks-append sep s t h.1 k)

header-parts :
    (time signature : String)
    → header_of time signature ≡ append (append "t=" time) (String.◌∷◌ "," (append "v1=" signature))
unfolding template
header-parts time signature =
    ap (λ x. append "t=" (append time (append ",v1=" x))) (append-nil signature)
    ∙ (ap (λ x. append "t=" (append time x)) (cons-append "," "v1=" signature)
        ∙ sym (append_assoc "t=" time (String.◌∷◌ "," (append "v1=" signature))))

pub header-ne_empty : (time signature : String) → str_eq (header_of time signature) "" ≡ false
unfolding template
header-ne_empty time signature = elim (Bool-cases (str_eq (header_of time signature) "")) [
  | inl empty ↦ absurd (
      cons≢nil (
        sym (cons-append "t" "=" (append time (append ",v1=" (append signature ""))))
        ∙ (eq_iff (header_of time signature) "").0 empty))
  | inr some_text ↦ some_text
]

header-split :
    (time signature : String)
    → Lacks b',' time
    → Lacks b',' signature
    → split b',' (header_of time signature) ≡ append "t=" time ∷ append "v1=" signature ∷ []
header-split time signature h k =
    ap (split b',') (header-parts time signature)
    ∙ (split-append b',' (append "t=" time) (append "v1=" signature) "," refl
          (Lacks-append b',' "t=" time ((λ e. omega arith), ((λ e. omega arith), tt)) h)
        ∙ ap (λ l. append "t=" time ∷ l)
            (split_single b',' _ (
              Lacks-append b',' "v1=" signature
                ((λ e. omega arith), ((λ e. omega arith), ((λ e. omega arith), tt))) k)))

value_lem :
    (key value : String)
    → Lacks b'=' key
    → Lacks b'=' value
    → nth 1 (split b'=' (append key (String.◌∷◌ "=" value))) ≡ value
unfolding nth
value_lem key value h k =
    ap (nth 1)
      (split-append b'=' key value "=" refl h ∙ ap (λ l. key ∷ l) (split_single b'=' value k))

other_prefix : (time : String) → starts_with (append "t=" time) "v1=" ≡ false
other_prefix time = elim (Bool-cases (starts_with (append "t=" time) "v1=")) [
  | inl is_prefix ↦
      let (rest, e) = (starts_with_iff (append "t=" time) "v1=").0 is_prefix in
      let first =
        head-eq_of_cons-eq (sym (cons-append "v" "1=" rest) ∙ (e ∙ cons-append "t" "=" time)) in
      absurd (omega (arith, ap code first))
  | inr is_none ↦ is_none
]

with_key : (key value : String) → append (append key "=") value ≡ append key (String.◌∷◌ "=" value)
with_key key value =
    append_assoc key "=" value
    ∙ ap (append key) (cons-append "=" "" value ∙ ap (String.◌∷◌ "=") (nil-append value))

time_found :
    (time : String) (rest : List String)
    → find_part "t=" (append "t=" time ∷ rest) ≡ some (append "t=" time)
unfolding find_part
time_found time rest = ground (arith, starts_with-append "t=" time)

signature_found :
    (time signature : String)
    → find_part "v1=" (append "t=" time ∷ append "v1=" signature ∷ [])
      ≡ some (append "v1=" signature)
unfolding find_part
signature_found time signature =
    ground (arith, other_prefix time, starts_with-append "v1=" signature)

time_value : (time : String) → Lacks b'=' time → nth 1 (split b'=' (append "t=" time)) ≡ time
time_value time h =
    ap (λ x. nth 1 (split b'=' x)) (with_key "t" time)
    ∙ value_lem "t" time ((λ e. omega arith), tt) h

signature_value :
    (signature : String)
    → Lacks b'=' signature
    → nth 1 (split b'=' (append "v1=" signature)) ≡ signature
signature_value signature h =
    ap (λ x. nth 1 (split b'=' x)) (with_key "v1" signature)
    ∙ value_lem "v1" signature ((λ e. omega arith), ((λ e. omega arith), tt)) h

-- The header holds a time and a signature, and the signature is the HMAC of the body at that time.
pub record StripeSigned (X : Crypto) (secret raw header : String) : Type 0 where
  pub time_part : String
  pub signature_part : String
  pub has_time : find_part "t=" (split b',' header) ≡ some time_part
  pub has_signature : find_part "v1=" (split b',' header) ≡ some signature_part
  pub digest :
      X.from_hex (nth 1 (split b'=' signature_part))
      ≡ X.from_hex (X.hmac_sha256 secret (template (nth 1 (split b'=' time_part) ∷ "." ∷ raw ∷ [])))

module _ (X : Crypto) (law : IsCrypto X) where
  pub same_digest_lem : (a b : String) → same_digest X a b ≡ true → X.from_hex a ≡ X.from_hex b
  unfolding same_digest
  same_digest_lem a b h = ground (arith, law.timing_safe_equal_iff (X.from_hex a) (X.from_hex b))

  same_digest_of : (a b : String) → X.from_hex a ≡ X.from_hex b → same_digest X a b ≡ true
  unfolding same_digest
  same_digest_of a b h =
      ground (arith, (law.timing_safe_equal_iff (X.from_hex a) (X.from_hex b) (ap length h)).1 h)

  pub verify_stripe-StripeSigned :
      (raw header secret : String)
      → verify_stripe X raw header secret ≡ true
      → StripeSigned X secret raw header
  unfolding verify_stripe verify_parts
  verify_stripe-StripeSigned raw header secret h =
      parts (find_part "t=" (split b',' header)) (find_part "v1=" (split b',' header)) refl refl h
    where
      parts :
          (t v : Option String)
          → find_part "t=" (split b',' header) ≡ t
          → find_part "v1=" (split b',' header) ≡ v
          → verify_parts X raw secret t v ≡ true
          → StripeSigned X secret raw header
      parts none v et ev h = absurd (ground arith)
      parts (some t) none et ev h = absurd (ground arith)
      parts (some t) (some v) et ev h = record {
        time_part = t;
        signature_part = v;
        has_time = et;
        has_signature = ev;
        digest = same_digest_lem _ _ h;
      }

  pub verify_stripe_signed :
      (raw time signature secret : String)
      → Lacks b',' time
      → Lacks b'=' time
      → Lacks b',' signature
      → Lacks b'=' signature
      → X.from_hex signature ≡ X.from_hex (X.hmac_sha256 secret (template (time ∷ "." ∷ raw ∷ [])))
      → verify_stripe X raw (header_of time signature) secret ≡ true
  unfolding verify_stripe
  verify_stripe_signed raw time signature secret h k l m e =
      ap (λ ps. verify_parts X raw secret (find_part "t=" ps) (find_part "v1=" ps))
        (header-split time signature h l)
      ∙ (ap
            (λ t.
              verify_parts X raw secret t
                (find_part "v1=" (append "t=" time ∷ append "v1=" signature ∷ [])))
            (time_found time (append "v1=" signature ∷ []))
          ∙ (ap (verify_parts X raw secret (some (append "t=" time)))
                (signature_found time signature)
              ∙ unfold verify_parts in
                rw (time_value time k, signature_value signature m) (same_digest_of _ _ e)))
