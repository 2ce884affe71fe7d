-- ===== src/Double/Fixed.antt =====
-- Decimal fractions of six digits, cut off, which show that the laws of `Double` can be met. A
-- negative number keeps its sign alone.
use native.Mathlib.Nat.{mul-le-mul, div-le_of_le-mul, mul-div-mul_right, div-le_self}
use payment_orchestration_la.Common.{
  ℕ, ◌+◌, ◌-◌, ◌*◌, ◌/◌, ◌≤◌, ◌<◌, ◌≡◌, refl, Bool, true, false, arith, ltb, leb, if◌then◌else◌,
}
use payment_orchestration_la.Double.{Double, IsDouble}

pub data Fixed : Type 0 where
  nonneg : ℕ → Fixed
  negative : Fixed

abbrev lift : (ℕ → ℕ → Fixed) → Fixed → Fixed → Fixed
lift f (nonneg a) (nonneg b) = f a b
lift f _ _ = negative

abbrev test : (ℕ → ℕ → Bool) → Fixed → Fixed → Bool
test f (nonneg a) (nonneg b) = f a b
test f (nonneg a) negative = true
test f negative _ = false

abbrev larger : Fixed → Fixed → Fixed
larger (nonneg a) (nonneg b) = if leb a b then nonneg b else nonneg a
larger (nonneg a) negative = nonneg a
larger negative y = y

abbrev rounded : Fixed → ℕ
rounded (nonneg a) = (a + 500000) / 1000000
rounded negative = 0

abbrev pub fixed : Double
fixed = record {
  F = Fixed;
  of_ℕ = λ n. nonneg (n * 1000000);
  tenths = λ n. nonneg (n * 100000);
  minus_one = negative;
  add = lift (λ a b. nonneg (a + b));
  sub = lift (λ a b. if ltb a b then negative else nonneg (a - b));
  mul = lift (λ a b. nonneg (a * b / 1000000));
  div = lift (λ a b. nonneg (a * 1000000 / b));
  max = larger;
  gt = test (λ a b. ltb b a);
  ge = test (λ a b. leb b a);
  round = rounded;
}

abbrev In : ℕ → Fixed → Type 0
In n (nonneg a) = a ≤ n * 1000000
In n negative = ⊥

abbrev Below : ℕ → Fixed → Type 0
Below n (nonneg a) = a ≤ n * 1000000
Below n negative = Unit

mul-le : (m n a b : ℕ) → a ≤ m * 1000000 → b ≤ n * 1000000 → a * b / 1000000 ≤ m * n * 1000000
mul-le m n a b p q = div-le_of_le-mul 1000000 (omega (arith, mul-le-mul p q))

div-le : (m n a : ℕ) → 0 < n → a ≤ m * 1000000 → a * 1000000 / (n * 1000000) ≤ m * 1000000
div-le m n a p q =
    rw (mul-div-mul_right {m = 1000000} a n (omega arith)) (omega (arith, div-le_self a n))

In-add : (m n : ℕ) (x y : Fixed) → In m x → In n y → In (m + n) (fixed.add x y)
In-add m n (nonneg a) (nonneg b) p q = omega arith
In-add m n (nonneg a) negative p q = q
In-add m n negative y p q = p

In-mul : (m n : ℕ) (x y : Fixed) → In m x → In n y → In (m * n) (fixed.mul x y)
In-mul m n (nonneg a) (nonneg b) p q = mul-le m n a b p q
In-mul m n (nonneg a) negative p q = q
In-mul m n negative y p q = p

In-div : (m n : ℕ) (x : Fixed) → 0 < n → In m x → In m (fixed.div x (fixed.of_ℕ n))
In-div m n (nonneg a) p q = div-le m n a p q
In-div m n negative p q = q

In-ratio : (m n : ℕ) → m ≤ n → 0 < n → In 1 (fixed.div (fixed.of_ℕ m) (fixed.of_ℕ n))
In-ratio m n h p =
    rw (mul-div-mul_right {m = 1000000} (m * 1000000) n (omega arith))
      (div-le_of_le-mul n (omega arith))

Below-sub : (m n : ℕ) → Below m (fixed.sub (fixed.of_ℕ m) (fixed.of_ℕ n))
Below-sub m n = ground arith

Below-div : (m n : ℕ) (x : Fixed) → 0 < n → Below m x → Below m (fixed.div x (fixed.of_ℕ n))
Below-div m n (nonneg a) p q = div-le m n a p q
Below-div m n negative p q = tt

In-max : (n : ℕ) (x : Fixed) → Below n x → In n (fixed.max (fixed.of_ℕ 0) x)
In-max n (nonneg a) p = ground arith
In-max n negative p = omega arith

ge_of_In : (n : ℕ) (x : Fixed) → In n x → fixed.ge x (fixed.of_ℕ 0) ≡ true
ge_of_In n (nonneg a) p = ground arith
ge_of_In n negative p = absurd p

gt-sub_fixed :
    (x y : Fixed)
    → fixed.gt (fixed.sub x y) (fixed.of_ℕ 0) ≡ true
    → fixed.gt (fixed.sub y x) (fixed.of_ℕ 0) ≡ false
gt-sub_fixed x y h = ground arith

round-le_fixed : (n : ℕ) (x : Fixed) → In n x → fixed.round x ≤ n
round-le_fixed n (nonneg a) p = omega arith
round-le_fixed n negative p = absurd p

In-mono : (m n : ℕ) (x : Fixed) → m ≤ n → In m x → In n x
In-mono m n (nonneg a) h p = omega arith
In-mono m n negative h p = p

pub fixed-IsDouble : IsDouble fixed
fixed-IsDouble = record {
  InRange = In;
  AtMost = Below;
  InRange-mono = In-mono;
  InRange-of_ℕ = λ n h. omega arith;
  InRange-tenths = λ n h. omega arith;
  InRange-add = λ m n x y h. In-add m n x y;
  InRange-mul = λ m n x y h. In-mul m n x y;
  InRange-div = λ m n x h p k. In-div m n x p;
  InRange-ratio = λ m n h p k. In-ratio m n h p;
  AtMost-sub = λ m n h k. Below-sub m n;
  AtMost-div = λ m n x h p k. Below-div m n x p;
  InRange-max = In-max;
  ge_of_InRange = ge_of_In;
  minus_one-lt = refl;
  gt-sub = gt-sub_fixed;
  round-le = round-le_fixed;
}
