-- ===== src/Double.antt =====
-- The JavaScript numbers that the routing engine computes with where they are not integers, as an
-- interface. Integers are ℕ, and enter by `of_ℕ`.
pub mod Fixed
use payment_orchestration_la.Common.{ℕ, ◌+◌, ◌*◌, ◌^◌, ◌≤◌, ◌<◌, ◌≡◌, Bool, true, false}

pub record Double : Type 1 where
  pub F : Type 0
  pub of_ℕ : ℕ → F
  -- the literals 0.1 to 1.0, by their tenths
  pub tenths : ℕ → F
  -- the literal -1
  pub minus_one : F
  pub add : F → F → F
  pub sub : F → F → F
  pub mul : F → F → F
  pub div : F → F → F
  pub max : F → F → F
  pub gt : F → F → Bool
  pub ge : F → F → Bool
  -- `Math.round` of a number that is not negative
  pub round : F → ℕ

-- Up to here each integer is a double, so rounding a result keeps it within integer bounds.
abbrev pub exact_bound : ℕ
exact_bound = 2 ^ 53

-- What the engine relies on: bounds that IEEE 754 arithmetic keeps, since it rounds
-- monotonically.
pub record IsDouble (R : Double) : Type 1 where
  -- 0 ≤ x ≤ n, and x ≤ n
  pub InRange : ℕ → R.F → Type 0
  pub AtMost : ℕ → R.F → Type 0
  pub InRange-mono : (m n : ℕ) (x : R.F) → m ≤ n → InRange m x → InRange n x
  pub InRange-of_ℕ : (n : ℕ) → n ≤ exact_bound → InRange n (R.of_ℕ n)
  pub InRange-tenths : (n : ℕ) → n ≤ 10 → InRange 1 (R.tenths n)
  pub InRange-add :
      (m n : ℕ) (x y : R.F)
      → m + n ≤ exact_bound
      → InRange m x
      → InRange n y
      → InRange (m + n) (R.add x y)
  pub InRange-mul :
      (m n : ℕ) (x y : R.F)
      → m * n ≤ exact_bound
      → InRange m x
      → InRange n y
      → InRange (m * n) (R.mul x y)
  pub InRange-div :
      (m n : ℕ) (x : R.F)
      → m ≤ exact_bound
      → 0 < n
      → n ≤ exact_bound
      → InRange m x
      → InRange m (R.div x (R.of_ℕ n))
  -- the ratio of a part to the whole
  pub InRange-ratio :
      (m n : ℕ) → m ≤ n → 0 < n → n ≤ exact_bound → InRange 1 (R.div (R.of_ℕ m) (R.of_ℕ n))
  pub AtMost-sub :
      (m n : ℕ) → m ≤ exact_bound → n ≤ exact_bound → AtMost m (R.sub (R.of_ℕ m) (R.of_ℕ n))
  pub AtMost-div :
      (m n : ℕ) (x : R.F)
      → m ≤ exact_bound
      → 0 < n
      → n ≤ exact_bound
      → AtMost m x
      → AtMost m (R.div x (R.of_ℕ n))
  pub InRange-max : (n : ℕ) (x : R.F) → AtMost n x → InRange n (R.max (R.of_ℕ 0) x)
  pub ge_of_InRange : (n : ℕ) (x : R.F) → InRange n x → R.ge x (R.of_ℕ 0) ≡ true
  pub minus_one-lt : R.ge R.minus_one (R.of_ℕ 0) ≡ false
  -- a difference and its opposite are not both positive
  pub gt-sub :
      (x y : R.F) → R.gt (R.sub x y) (R.of_ℕ 0) ≡ true → R.gt (R.sub y x) (R.of_ℕ 0) ≡ false
  -- `Math.round` stays within integer bounds
  pub round-le : (n : ℕ) (x : R.F) → InRange n x → R.round x ≤ n
