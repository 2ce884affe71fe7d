-- ===== src/Adapters/Amount.antt =====
-- The amounts that the adapters write are read back.
use Prim.Native.Char.{code}
use Prim.Native.String.{String, ◌++◌ as append, len}
use text.Mathlib.TextLemmas.{cons-append, nil-append, append-nil}
use payment_orchestration_la.Common.{
  ℕ, zero, suc, ◌+◌, ◌-◌, ◌*◌, ◌/◌, ◌%◌, ◌≤◌, ◌<◌, ◌≡◌, ◌⊎◌, inl, inr, refl, Option, none, some,
  List, [], ◌∷◌, arith, sym, ap, subst, ◌∙◌, ◌==◌, if◌then◌else◌, template, Bool, true, false,
  str_eq, All,
}
use payment_orchestration_la.Webhooks.Signature.Header.{split, Lacks, split_single, split-append}
use payment_orchestration_la.Webhooks.Signature.Stripe.{Lacks-append}
use payment_orchestration_la.Adapters.Decimal.{
  decimal, digit, digits, digit-IsDigit, digits_small, digits_large,
}
use payment_orchestration_la.Adapters.Decimal.Suffix.{two_size}
use payment_orchestration_la.Json.{Json, num, get_field}
use payment_orchestration_la.Enums.{GatewayProvider, stripe, razorpay, payu, upi}
use payment_orchestration_la.Common.Effect.{Result, ok, err}
use payment_orchestration_la.Routing.Config.{Env}
use payment_orchestration_la.Payments.Charge.{GatewayChargeRequest}
use payment_orchestration_la.Adapters.{
  Web, Body, form, json, HttpRequest, HttpResponse, live, answered,
}
use payment_orchestration_la.Adapters.Online.{adapter}
use payment_orchestration_la.Adapters.Simulated.{live_charge, charge_by_amount}
use payment_orchestration_la.Adapters.Stripe
use payment_orchestration_la.Adapters.Razorpay
use payment_orchestration_la.Adapters.Payu
use payment_orchestration_la.Adapters.Hundredths.{
  two_places, major_units, hundredths_exact, exact_amount,
}
use payment_orchestration_la.Adapters.Upi

-- The number that digits stand for, behind those that have been read.
abbrev read : ℕ → String → ℕ
read acc String.[] = acc
read acc (String.◌∷◌ c s) = read (10 * acc + (code c - 48)) s

-- A decimal number with two places, in hundredths.
abbrev parts_in_hundredths : List String → Option ℕ
parts_in_hundredths (whole ∷ places ∷ []) =
    if len places == 2 then some (100 * read 0 whole + read 0 places) else none
parts_in_hundredths _ = none

abbrev pub in_hundredths : String → Option ℕ
in_hundredths s = parts_in_hundredths (split b'.' s)

read-append : (acc : ℕ) (s t : String) → read acc (append s t) ≡ read (read acc s) t
read-append acc String.[] t = ap (read acc) (nil-append t)
read-append acc (String.◌∷◌ c s) t =
    ap (read acc) (cons-append c s t) ∙ read-append (10 * acc + (code c - 48)) s t

read-digit : (acc d : ℕ) → d < 10 → read acc (digit d) ≡ 10 * acc + d
read-digit acc d h = let it = digit-IsDigit d h in ap (read acc) it.shape ∙ omega (arith, it.value)

digit-Lacks : (d : ℕ) → d < 10 → Lacks b'.' (digit d)
digit-Lacks d h =
    let it = digit-IsDigit d h in
    subst (Lacks b'.') (sym it.shape) ((λ e. omega (arith, it.value)), tt)

digits_end : (n : ℕ) → (n < 10) ⊎ (10 ≤ n)
digits_end n = ground arith

read-digits : (fuel n : ℕ) → n ≤ fuel → read 0 (digits fuel n) ≡ n
read-digits zero n h =
    ap (read 0) (digits_small zero n (omega arith)) ∙ (read-digit 0 n (omega arith) ∙ omega arith)
read-digits (suc fuel) n h = elim (digits_end n) [
  | inl small ↦ ap (read 0) (digits_small (suc fuel) n small) ∙ (read-digit 0 n small ∙ omega arith)
  | inr large ↦
      ap (read 0) (digits_large fuel n large)
      ∙ (read-append 0 (digits fuel (n / 10)) (digit (n % 10))
          ∙ (ap (λ k. read k (digit (n % 10))) (read-digits fuel (n / 10) (omega arith))
              ∙ (read-digit (n / 10) (n % 10) (omega arith) ∙ omega arith)))
]

digits-Lacks : (fuel n : ℕ) → n ≤ fuel → Lacks b'.' (digits fuel n)
digits-Lacks zero n h =
    subst (Lacks b'.') (sym (digits_small zero n (omega arith))) (digit-Lacks n (omega arith))
digits-Lacks (suc fuel) n h = elim (digits_end n) [
  | inl small ↦ subst (Lacks b'.') (sym (digits_small (suc fuel) n small)) (digit-Lacks n small)
  | inr large ↦ subst (Lacks b'.') (sym (digits_large fuel n large)) (
      Lacks-append b'.' (digits fuel (n / 10)) (digit (n % 10))
        (digits-Lacks fuel (n / 10) (omega arith)) (digit-Lacks (n % 10) (omega arith)))
]

-- A text with two places stands for the hundredths that it is made of.
in_hundredths-two_places : (amount : ℕ) → in_hundredths (two_places amount) ≡ some amount
unfolding two_places template decimal
in_hundredths-two_places amount =
    ap in_hundredths text ∙ (ap parts_in_hundredths parts ∙ rw two (ap (λ k. some k) value))
  where
    whole : String
    whole = decimal (amount / 100)

    places : String
    places = append (digit (amount / 10 % 10)) (digit (amount % 10))

    text : two_places amount ≡ append whole (String.◌∷◌ "." places)
    text = ap (append whole) (
        cons-append "." "" (append (digit (amount / 10 % 10)) (append (digit (amount % 10)) ""))
        ∙ ap (String.◌∷◌ ".") (
            nil-append _
            ∙ ap (append (digit (amount / 10 % 10))) (append-nil (digit (amount % 10)))))

    parts : split b'.' (append whole (String.◌∷◌ "." places)) ≡ whole ∷ places ∷ []
    parts =
        split-append b'.' whole places "." refl
          (digits-Lacks (amount / 100) (amount / 100) (omega arith))
        ∙ ap (λ l. whole ∷ l)
            (split_single b'.' places (
              Lacks-append b'.' (digit (amount / 10 % 10)) (digit (amount % 10))
                (digit-Lacks (amount / 10 % 10) (omega arith))
                (digit-Lacks (amount % 10) (omega arith))))

    two : len places ≡ 2
    two = two_size (amount / 10 % 10) (amount % 10) (omega arith) (omega arith)

    value : 100 * read 0 whole + read 0 places ≡ amount
    value =
        let w = read-digits (amount / 100) (amount / 100) (omega arith) in
        let p =
          read-append 0 (digit (amount / 10 % 10)) (digit (amount % 10))
          ∙ (ap (λ k. read k (digit (amount % 10))) (read-digit 0 (amount / 10 % 10) (omega arith))
              ∙ read-digit (10 * 0 + amount / 10 % 10) (amount % 10) (omega arith)) in
        omega (arith, w, p)

-- The text that is made of an amount stands for that amount in hundredths, where it is exact.
pub in_hundredths-major_units :
    (amount : ℕ) → amount < exact_amount → in_hundredths (major_units amount) ≡ some amount
unfolding major_units
in_hundredths-major_units amount h =
    in_hundredths-two_places _ ∙ ap (λ n. some n) (hundredths_exact amount h)

-- The value of a form's member, and the number in a member of an object.
abbrev form_value : String → List (String × String) → Option String
form_value k [] = none
form_value k ((j, v) ∷ rest) = if str_eq j k then some v else form_value k rest

abbrev number : Option Json → Option ℕ
number (some (num n)) = some n
number _ = none

-- The amount that a request asks of a gateway, in its smallest unit.
abbrev pub asked_amount : GatewayProvider → Body → Option ℕ
asked_amount payu (form fs) = elim (form_value "amount" fs) [
  | some v ↦ in_hundredths v
  | none ↦ none
]
asked_amount _ (form fs) = elim (form_value "amount" fs) [ some v ↦ some (read 0 v) | none ↦ none ]
asked_amount _ (json v) = number (get_field (some v) "amount")

module _ (web : Web) (env : Env) (r : GatewayChargeRequest) (exact : r.amount < exact_amount) where
  abbrev AsksFor : GatewayProvider → HttpRequest → Type 0
  AsksFor g q = asked_amount g q.body ≡ some r.amount

  payu-AsksFor :
      (o : ℕ × Result String HttpResponse) → All (AsksFor payu) (Payu.finish web env r o).sent
  unfolding Payu.finish live answered
  payu-AsksFor (after, ok response) = (in_hundredths-major_units r.amount exact, tt)
  payu-AsksFor (after, err m) = (in_hundredths-major_units r.amount exact, tt)

  upi-AsksFor :
      (retry : Result String Bool) → All (AsksFor upi) (Upi.finish_or_retry web env r retry).sent
  unfolding Upi.finish_or_retry live answered get_field
  upi-AsksFor (ok true) = (refl, (refl, tt))
  upi-AsksFor (ok false) = (refl, tt)
  upi-AsksFor (err m) = (refl, tt)

  live-AsksFor : (g : GatewayProvider) → All (AsksFor g) (live_charge web env g r).sent
  unfolding Stripe.live_charge Razorpay.live_charge Payu.live_charge Upi.live_charge live answered
      decimal get_field
  live-AsksFor stripe = (ap (λ n. some n) (read-digits r.amount r.amount (omega arith)), tt)
  live-AsksFor razorpay = (refl, tt)
  live-AsksFor payu = payu-AsksFor _
  live-AsksFor upi = upi-AsksFor _

  -- Every request that a charge of less than 100 * 2 ^ 46 sends asks for the amount of the charge: in
  -- the digits of Stripe's form, in hundredths with two places in PayU's form, where the amount has
  -- been divided as a double and rounded again, and as the number in the JSON for Razorpay.
  pub sent_amount :
      (g : GatewayProvider)
      → All (λ q. asked_amount g q.body ≡ some r.amount) (adapter web env g r).sent
  sent_amount g = elim (charge_by_amount web env r g) [
    | inl (simulated, s) ↦ subst (All (AsksFor g)) (sym s.offline) tt
    | inr (genuine, e) ↦ subst (λ c. All (AsksFor g) c.sent) (sym e) (live-AsksFor g)
  ]
