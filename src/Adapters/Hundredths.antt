-- ===== src/Adapters/Hundredths.antt =====
-- `(amount / 100).toFixed(2)` of gateways/adapters/payu.adapter.ts: the division of IEEE doubles
-- rounds to 53 bits, and `toFixed` takes the number of hundredths that is nearest to its result.
use native.Mathlib.Nat.{div-add-mod, mod-lt, one-le-pow, pow-le-pow_right}
use payment_orchestration_la.Common.{
  ℕ, zero, suc, ◌+◌, ◌*◌, ◌/◌, ◌%◌, ◌^◌, ◌≤◌, ◌<◌, ◌≡◌, ◌≢◌, refl, String, [], ◌∷◌, arith, ltb,
  ◌==◌, if◌then◌else◌, template, Bool, true, false, subst,
}
use payment_orchestration_la.Adapters.Decimal.{decimal, digit}

-- `a / b` as an integer, to the nearest, and to the even one of two that are as near
unfoldable pub nearest_even : ℕ → ℕ → ℕ
nearest_even a b =
    let q = a / b in
    let r = a % b in
    if ltb (2 * r) b then q else if ltb b (2 * r) then q + 1 else if q % 2 == 0 then q else q + 1

-- The place of the last bit of the double nearest to `amount / 100`, in units of 2 ^ -60: the least
-- one, from `j` on, with which the mantissa is below 2 ^ 53.
unfoldable pub last_place : ℕ → ℕ → ℕ → ℕ
last_place zero amount j = j
last_place (suc fuel) amount j =
    let next = last_place fuel amount (suc j) in
    if ltb (amount * 2 ^ 60) (100 * 2 ^ 53 * 2 ^ j) then j else next

-- `amount / 100` as a double, in units of 2 ^ -60. From 128 places on the amount is above 10 ^ 21.
unfoldable pub quotient : ℕ → ℕ
unfolding nearest_even last_place
quotient amount =
    let place = 2 ^ last_place 128 amount 0 in nearest_even (amount * 2 ^ 60) (100 * place) * place

-- The hundredths of that double, to the nearest, and to the larger one of two that are as near.
unfoldable pub hundredths : ℕ → ℕ
unfolding quotient
hundredths amount = (200 * quotient amount + 2 ^ 60) / 2 ^ 61

unfoldable pub two_places : ℕ → String
unfolding template digit decimal
two_places n = template (decimal (n / 100) ∷ "." ∷ digit (n / 10 % 10) ∷ digit (n % 10) ∷ [])

-- `(amount / 100).toFixed(2)`
unfoldable pub major_units : ℕ → String
unfolding hundredths two_places
major_units amount = two_places (hundredths amount)

-- Below it the text is exact: 2 ^ 46 units, about 70 thousand billion.
abbrev pub exact_amount : ℕ
exact_amount = 100 * 2 ^ 46

times_next : (b q : ℕ) → b * (q + 1) ≡ b * q + b
times_next b q = grind arith

near_pick :
    (c d e : Bool) (a b q r : ℕ)
    → b * q + r ≡ a
    → r < b
    → (c ≡ true → 2 * r ≤ b)
    → (c ≡ false → b ≤ 2 * r)
    → (d ≡ false → 2 * r ≤ b)
    → let m = (if c then q else if d then q + 1 else if e then q else q + 1) in
      (2 * (b * m) ≤ 2 * a + b) × (2 * a ≤ 2 * (b * m) + b)
near_pick true d e a b q r sum small below above exact =
    let h = below refl in (omega arith, omega arith)
near_pick false true e a b q r sum small below above exact =
    let h = above refl in let next = times_next b q in (omega arith, omega arith)
near_pick false false true a b q r sum small below above exact =
    let h = exact refl in (omega arith, omega arith)
near_pick false false false a b q r sum small below above exact =
    let h = above refl in let next = times_next b q in (omega arith, omega arith)

-- The rounded quotient is off by half at most.
nearest_even-near :
    (a b : ℕ)
    → 0 < b
    → (2 * (b * nearest_even a b) ≤ 2 * a + b) × (2 * a ≤ 2 * (b * nearest_even a b) + b)
unfolding nearest_even
nearest_even-near a b positive =
    near_pick (ltb (2 * (a % b)) b) (ltb b (2 * (a % b))) (a / b % 2 == 0) a b (a / b) (a % b)
      (div-add-mod a b) (mod-lt a positive) (λ h. ground (arith, h)) (λ h. ground (arith, h))
      (λ h. ground (arith, h))

not_last :
    (amount j : ℕ)
    → amount < 100 * 2 ^ 46
    → ltb (amount * 2 ^ 60) (100 * 2 ^ 53 * 2 ^ j) ≡ false
    → j ≢ 53
not_last amount j h e same =
    let at_last = subst (λ i. ltb (amount * 2 ^ 60) (100 * 2 ^ 53 * 2 ^ i) ≡ false) same e in
    ground (arith, at_last)

place_pick : (b : Bool) (j n : ℕ) → j ≤ 53 → (b ≡ false → n ≤ 53) → (if b then j else n) ≤ 53
place_pick true j n le h = le
place_pick false j n le h = h refl

-- Below that bound the last place is worth 2 ^ -7 at most.
place_small : (fuel amount j : ℕ) → amount < 100 * 2 ^ 46 → j ≤ 53 → last_place fuel amount j ≤ 53
unfolding last_place
place_small zero amount j h le = le
place_small (suc fuel) amount j h le =
    place_pick (ltb (amount * 2 ^ 60) (100 * 2 ^ 53 * 2 ^ j)) j _ le
      λ goes. let ne = not_last amount j h goes in place_small fuel amount (suc j) h (omega arith)

power_small : (j : ℕ) → j ≤ 53 → (0 < 2 ^ j) × (2 ^ j ≤ 2 ^ 53)
power_small j h = (one-le-pow j 2 (omega arith), pow-le-pow_right (omega arith) h)

pub hundredths_exact : (amount : ℕ) → amount < exact_amount → hundredths amount ≡ amount
unfolding hundredths quotient
hundredths_exact amount h =
    let place = 2 ^ last_place 128 amount 0 in
    let power = power_small (last_place 128 amount 0) (place_small 128 amount 0 h (omega arith)) in
    let near = nearest_even-near (amount * 2 ^ 60) (100 * place) (omega (arith, power.0)) in
    let same : 100 * place * nearest_even (amount * 2 ^ 60) (100 * place)
        ≡ 100 * (nearest_even (amount * 2 ^ 60) (100 * place) * place) =
      grind arith in
    omega (arith, power.0, power.1, near.0, near.1, same)
