-- ===== src/Adapters/Decimal/Suffix.antt =====
-- Which amounts end in which two digits.
use Prim.Native.Char.{code}
use Prim.Native.String.{String, ◌++◌ as append, len, slice}
use text.Mathlib.TextLemmas.{
  cons-append, nil-append, append_assoc, head-eq_of_cons-eq, tail-eq_of_cons-eq,
}
use text.Mathlib.TextPositions.{len-append, slice-append_right}
use payment_orchestration_la.Common.{
  ℕ, suc, ◌+◌, ◌-◌, ◌*◌, ◌/◌, ◌%◌, ◌≤◌, ◌<◌, ◌≡◌, ◌↔◌, true, false, arith, sym, ap, subst, ◌∙◌, leb,
  str_eq, eq_iff, Bool-cases, inl, inr, ◌&&◌, ◌==◌, ◌⊎◌,
}
use payment_orchestration_la.Routing.Config.{ends_with}
use payment_orchestration_la.Adapters.Decimal.{
  digit, digits, decimal, digit-IsDigit, digits_small, digits_large,
}

-- the last two digits of a number that has as many
last_two :
    (fuel n : ℕ)
    → 10 ≤ n
    → (rest : String) × (digits (suc (suc fuel)) n
        ≡ append rest (append (digit (n / 10 % 10)) (digit (n % 10))))
last_two fuel n h = elim (ℕ-cases n) [
  | inl small ↦ (
    "",
    digits_large (suc fuel) n h
        ∙ (ap (λ t. append t (digit (n % 10))) (digits_small (suc fuel) (n / 10) small)
            ∙ (ap (λ k. append (digit k) (digit (n % 10))) (omega arith) ∙ sym (nil-append _))),
  )
  | inr large ↦ (
    digits fuel (n / 10 / 10),
    digits_large (suc fuel) n h
        ∙ (ap (λ t. append t (digit (n % 10))) (digits_large fuel (n / 10) large)
            ∙ append_assoc _ _ _),
  )
]
  where
    ℕ-cases : (n : ℕ) → (n / 10 < 10) ⊎ (10 ≤ n / 10)
    ℕ-cases n = ground arith

ends_with-append : (rest t u : String) → len t ≡ len u → ends_with (append rest t) u ≡ str_eq t u
ends_with-append rest t u same = rw e1 (ground (arith, size))
  where
    size : len (append rest t) ≡ len rest + len t
    size = len-append rest t

    from : len rest + len t - len u ≡ len rest
    from = omega arith

    e1 : slice (append rest t) (len (append rest t) - len u) (len (append rest t)) ≡ t
    e1 = rw (size, from) (slice-append_right rest t)

front :
    (a : ℕ) (h : a < 10) (t : String) → append (digit a) t ≡ String.◌∷◌ (digit-IsDigit a h).char t
front a h t =
    let it = digit-IsDigit a h in
    ap (λ s. append s t) it.shape
    ∙ (cons-append it.char "" t ∙ ap (String.◌∷◌ it.char) (nil-append t))

-- Two texts of two digits are equal when the digits are.
same_digits :
    (a b c d : ℕ)
    → a < 10
    → b < 10
    → c < 10
    → d < 10
    → append (digit a) (digit b) ≡ append (digit c) (digit d)
    → (a ≡ c) × (b ≡ d)
same_digits a b c d ha hb hc hd e =
    let e' = sym (front a ha (digit b)) ∙ (e ∙ front c hc (digit d)) in
    let it = digit-IsDigit b hb in
    let it' = digit-IsDigit d hd in
    let e'' = sym it.shape ∙ (tail-eq_of_cons-eq e' ∙ it'.shape) in
    let h = ap code (head-eq_of_cons-eq e') in
    let k = ap code (head-eq_of_cons-eq e'') in
    (
      omega (arith, h, (digit-IsDigit a ha).value, (digit-IsDigit c hc).value),
      omega (arith, k, it.value, it'.value),
    )

pub two_size : (a b : ℕ) → a < 10 → b < 10 → len (append (digit a) (digit b)) ≡ 2
two_size a b ha hb =
    let x = (digit-IsDigit a ha).size in
    let y = (digit-IsDigit b hb).size in omega (arith, len-append (digit a) (digit b), x, y)

ends_with-short : (t u : String) → len t < len u → ends_with t u ≡ false
ends_with-short t u h = ground arith

decimal-last_two :
    (n : ℕ)
    → 10 ≤ n
    → (rest : String) × (decimal n ≡ append rest (append (digit (n / 10 % 10)) (digit (n % 10))))
unfolding decimal
decimal-last_two n h =
    let fuel : suc (suc (n - 2)) ≡ n = omega arith in
    subst
      (λ k.
        (rest : String) × (digits k n
          ≡ append rest (append (digit (n / 10 % 10)) (digit (n % 10)))))
      fuel (last_two (n - 2) n h)

-- A suffix of two digits asks for the number modulo a hundred, of a number that has as many digits.
pub ends_with-decimal :
    (n c d : ℕ)
    → c < 10
    → d < 10
    → (ends_with (decimal n) (append (digit c) (digit d)) ≡ true)
      ↔ ((10 ≤ n) × (n % 100 ≡ 10 * c + d))
unfolding decimal
ends_with-decimal n c d hc hd = elim (size_of n) [
  | inl small ↦
      let short = ends_with-short (decimal n) (append (digit c) (digit d)) (
        omega (
          arith,
          two_size c d hc hd,
          ap len (digits_small n n small),
          (digit-IsDigit n small).size,
        )) in
      (λ h. absurd (ground (arith, short)), λ h. absurd (omega arith))
  | inr large ↦
      let (rest, e) = decimal-last_two n large in
      let a = n / 10 % 10 in
      let b = n % 10 in
      let ha : a < 10 = omega arith in
      let hb : b < 10 = omega arith in
      let tested =
        ap (λ t. ends_with t (append (digit c) (digit d))) e
        ∙ ends_with-append rest (append (digit a) (digit b)) (append (digit c) (digit d))
            (two_size a b ha hb ∙ sym (two_size c d hc hd)) in
      let equal = eq_iff (append (digit a) (digit b)) (append (digit c) (digit d)) in
      (
        λ h.
            let (x, y) = same_digits a b c d ha hb hc hd (equal.0 (sym tested ∙ h)) in
            (large, omega (arith, x, y)),
        λ h.
            let x : a ≡ c = omega (arith, h.1) in
            let y : b ≡ d = omega (arith, h.1) in
            tested
            ∙ equal.1
                (ap (λ k. append (digit k) (digit b)) x ∙ ap (λ k. append (digit c) (digit k)) y),
      )
]
  where
    size_of : (n : ℕ) → (n < 10) ⊎ (10 ≤ n)
    size_of n = ground arith

-- The same as an equation of Booleans.
pub ends_with_two :
    (n c d : ℕ)
    → c < 10
    → d < 10
    → ends_with (decimal n) (append (digit c) (digit d)) ≡ (leb 10 n && (n % 100 == 10 * c + d))
ends_with_two n c d hc hd =
    let same = ends_with-decimal n c d hc hd in
    elim (Bool-cases (ends_with (decimal n) (append (digit c) (digit d)))) [
      | inl found ↦ let h = same.0 found in ground (arith, found, h.0, h.1)
      | inr missing ↦
          let no_match : (10 ≤ n) × (n % 100 ≡ 10 * c + d) → ⊥ =
            (λ h. ground (arith, missing, same.1 h)) in
          ground (arith, missing, no_match)
    ]
