-- ===== src/Webhooks/Authentic.antt =====
-- Which webhooks are let in.
use payment_orchestration_la.Common.{
  eq_iff, String, ◌≡◌, ◌⊎◌, inl, inr, refl, Bool, true, false, Option, none, some, [], ◌∷◌, arith,
  template, Bool-cases, Option-cases,
}
use payment_orchestration_la.Common.Effect.{ok, pure, ◌>>=◌}
use payment_orchestration_la.Enums.{GatewayProvider, stripe, razorpay, payu, upi}
use payment_orchestration_la.Json.{Json, null, bool, num, arr, obj, str, get_field, or_else}
use payment_orchestration_la.Database.{Database}
use payment_orchestration_la.Redis.{RedisClient}
use payment_orchestration_la.Routing.Config.{Env}
use payment_orchestration_la.Webhooks.Events.{EventRepo, Inbox}
use payment_orchestration_la.Webhooks.Intake.{ingest}
use payment_orchestration_la.Webhooks.Signature.{
  Crypto, IsCrypto, verify_stripe, verify_razorpay, verify_payu, hash_matches, payu_text,
}
use payment_orchestration_la.Webhooks.Signature.Header.{Lacks}
use payment_orchestration_la.Webhooks.Signature.Stripe.{
  header-ne_empty, header_of, StripeSigned, same_digest_lem, verify_stripe-StripeSigned,
  verify_stripe_signed,
}
use payment_orchestration_la.Webhooks.Endpoints.{
  HookRequest, rejected, accepted, is_unset, is_placeholder, check_signed, stripe_verified,
  razorpay_verified, payu_verified, event_of, receive, verified_by, hook,
}

-- The request carries the proof that it comes from the gateway, which knows the secret.
abbrev pub Authentic : Crypto → GatewayProvider → String → HookRequest → Type 0
Authentic X stripe secret r =
    (raw header : String) × (r.raw_body ≡ some raw)
    × (r.signature ≡ some header)
    × StripeSigned X secret raw header
Authentic X payu secret r =
    (received : String) × (or_else (get_field (some r.body) "hash") (some (str ""))
      ≡ some (str received))
    × (X.lower (X.sha512 (payu_text X r.body secret)) ≡ X.lower received)
Authentic X _ secret r =
    (raw signature : String) × (r.raw_body ≡ some raw)
    × (r.signature ≡ some signature)
    × (X.from_hex signature ≡ X.from_hex (X.hmac_sha256 secret raw))

-- The secret of the gateway's webhooks is set, and is no placeholder.
abbrev pub Configured : Env → GatewayProvider → String → Type 0
Configured env stripe secret =
    (env "STRIPE_WEBHOOK_SECRET" ≡ some secret) × (is_unset "whsec_xxx" (some secret) ≡ false)
Configured env payu secret =
    (env "PAYU_SALT" ≡ some secret) × (is_placeholder "payu_test_xxx" (some secret) ≡ false)
Configured env _ secret =
    (env "RAZORPAY_KEY_SECRET" ≡ some secret)
    × (is_placeholder "rzp_test_xxx" (some secret) ≡ false)

check_signed_lem :
    (verify : String → String → String → Bool) (r : HookRequest) (secret : String)
    → check_signed verify r (some secret) ≡ true
    → (raw signature : String) × (r.raw_body ≡ some raw)
      × (r.signature ≡ some signature)
      × (verify raw signature secret ≡ true)
unfolding check_signed
check_signed_lem verify r secret h = elim (Option-cases r.signature) [
  | inl e ↦ absurd (ground (arith, e))
  | inr (signature, es) ↦ elim (Option-cases r.raw_body) [
    | inl e ↦ absurd (ground (arith, e))
    | inr (raw, er) ↦ (raw, signature, er, es, ground arith)
  ]
]

module _ (X : Crypto) (law : IsCrypto X) (env : Env) (secret : String) (r : HookRequest) where
  verify_payu-Authentic : verify_payu X r.body secret ≡ true → Authentic X payu secret r
  unfolding verify_payu hash_matches
  verify_payu-Authentic h = hash (or_else (get_field (some r.body) "hash") (some (str ""))) refl h
    where
      hash :
          (o : Option Json)
          → or_else (get_field (some r.body) "hash") (some (str "")) ≡ o
          → hash_matches X (X.sha512 (payu_text X r.body secret)) o ≡ true
          → Authentic X payu secret r
      hash (some (str received)) e m = (
        received,
        e,
        (eq_iff (X.lower (X.sha512 (payu_text X r.body secret))) (X.lower received)).0 m,
      )
      hash none e m = absurd (ground arith)
      hash (some null) e m = absurd (ground arith)
      hash (some (bool b)) e m = absurd (ground arith)
      hash (some (num n)) e m = absurd (ground arith)
      hash (some (arr xs)) e m = absurd (ground arith)
      hash (some (obj fs)) e m = absurd (ground arith)

  rzp-Authentic :
      Configured env razorpay secret
      → razorpay_verified X env r ≡ true
      → Authentic X razorpay secret r
  unfolding razorpay_verified verify_razorpay
  rzp-Authentic (set, real) h =
      let (raw, signature, er, es, valid) =
        check_signed_lem (verify_razorpay X) r secret (ground (arith, set, real)) in
      (raw, signature, er, es, same_digest_lem X law _ _ valid)

  verified-Authentic :
      (g : GatewayProvider)
      → Configured env g secret
      → verified_by X env g r ≡ true
      → Authentic X g secret r
  unfolding verified_by stripe_verified payu_verified
  verified-Authentic stripe (set, real) h =
      let (raw, header, er, es, valid) =
        check_signed_lem (verify_stripe X) r secret (ground (arith, set, real)) in
      (raw, header, er, es, verify_stripe-StripeSigned X law raw header secret valid)
  verified-Authentic razorpay c h = rzp-Authentic c h
  verified-Authentic upi c h = rzp-Authentic c h
  verified-Authentic payu (set, real) h = verify_payu-Authentic (ground (arith, set, real))

module _ (X : Crypto) (law : IsCrypto X) (env : Env) where
  stripe_signed :
      (secret raw time signature : String) (body : Json)
      → Configured env stripe secret
      → Lacks b',' time
      → Lacks b'=' time
      → Lacks b',' signature
      → Lacks b'=' signature
      → X.from_hex signature ≡ X.from_hex (X.hmac_sha256 secret (template (time ∷ "." ∷ raw ∷ [])))
      → stripe_verified X env
          (record { body = body; raw_body = some raw; signature = some (header_of time signature) })
        ≡ true
  unfolding stripe_verified check_signed
  stripe_signed secret raw time signature body (set, real) h k l m e = ground (
    arith,
    set,
    real,
    header-ne_empty time signature,
    verify_stripe_signed X law raw time signature secret h k l m e,
  )

module _ (X : Crypto) (law : IsCrypto X) (env : Env) (as_text : Json → String) (D : Database)
    (E : EventRepo) (C : RedisClient) where
  -- A webhook of a gateway whose secret is set and is no placeholder is refused, and changes
  -- nothing, or it carries the proof that it comes from the gateway, and is ingested as verified.
  pub hook-Authentic :
      (g : GatewayProvider) (secret : String) (r : HookRequest) (w : Inbox D E C)
      → Configured env g secret
      → (hook as_text D E C X env g r w ≡ (ok rejected, w))
        ⊎ (Authentic X g secret r
            × (hook as_text D E C X env g r w
                ≡ (ingest D E C (event_of as_text g r.body true) >>= λ result.
                      pure (accepted result.duplicate))
                    w))
  unfolding hook receive pure
  hook-Authentic g secret r w configured = elim (Bool-cases (verified_by X env g r)) [
    | inl valid ↦ inr (verified-Authentic X law env secret r g configured valid, rw valid refl)
    | inr invalid ↦ inl (rw invalid refl)
  ]

  -- A Stripe webhook whose header has a time and the HMAC of its body at that time, neither with a
  -- comma or an equals sign, is let in where the secret is set and is no placeholder.
  pub signed_stripe_accepted :
      (secret raw time signature : String) (body : Json) (w : Inbox D E C)
      → Configured env stripe secret
      → Lacks b',' time
      → Lacks b'=' time
      → Lacks b',' signature
      → Lacks b'=' signature
      → X.from_hex signature ≡ X.from_hex (X.hmac_sha256 secret (template (time ∷ "." ∷ raw ∷ [])))
      → hook as_text D E C X env stripe
          (record { body = body; raw_body = some raw; signature = some (header_of time signature) })
          w
        ≡ (ingest D E C (event_of as_text stripe body true) >>= λ result.
              pure (accepted result.duplicate))
            w
  unfolding hook receive verified_by
  signed_stripe_accepted secret raw time signature body w configured h k l m e =
      rw (stripe_signed X law env secret raw time signature body configured h k l m e) refl
