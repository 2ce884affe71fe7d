-- ===== src/Adapters/Decimal.antt =====
-- `Number.prototype.toString` on the integers up to 2 ^ 53, which are the amounts. Of a larger one
-- JavaScript writes the shortest digits that read back as the same double.
pub mod Suffix
use Prim.Native.Char.{Char, code}
use Prim.Native.String.{String, ◌++◌ as append, len, slice}
use text.Mathlib.TextLemmas.{
  cons-append, nil-append, append_assoc, head-eq_of_cons-eq, tail-eq_of_cons-eq,
}
use text.Mathlib.TextPositions.{len-append, slice-append_right}
use payment_orchestration_la.Common.{
  ℕ, zero, suc, ◌+◌, ◌-◌, ◌*◌, ◌/◌, ◌%◌, ◌≤◌, ◌<◌, ◌≡◌, ◌↔◌, refl, true, false, arith, sym, ap,
  subst, ◌∙◌, ltb, leb, str_eq, eq_iff, if◌then◌else◌, Bool-cases, inl, inr, ◌&&◌, ◌==◌, ◌⊎◌,
}
use payment_orchestration_la.Routing.Config.{ends_with}

unfoldable pub digit : ℕ → String
digit zero = "0"
digit (suc zero) = "1"
digit (suc (suc zero)) = "2"
digit (suc (suc (suc zero))) = "3"
digit (suc (suc (suc (suc zero)))) = "4"
digit (suc (suc (suc (suc (suc zero))))) = "5"
digit (suc (suc (suc (suc (suc (suc zero)))))) = "6"
digit (suc (suc (suc (suc (suc (suc (suc zero))))))) = "7"
digit (suc (suc (suc (suc (suc (suc (suc (suc zero)))))))) = "8"
digit _ = "9"

-- the last digit behind the others; fuel `n` is enough for `n`
unfoldable pub digits : ℕ → ℕ → String
digits zero n = digit n
digits (suc fuel) n =
    let rest = digits fuel (n / 10) in if ltb n 10 then digit n else append rest (digit (n % 10))

-- `n.toString()`, for a safe integer
unfoldable pub decimal : ℕ → String
unfolding digits digit
decimal n = digits n n

pub record IsDigit (d : ℕ) : Type 0 where
  pub char : Char
  pub shape : digit d ≡ String.◌∷◌ char ""
  pub value : code char ≡ 48 + d
  pub size : len (digit d) ≡ 1

pub digit-IsDigit : (d : ℕ) → d < 10 → IsDigit d
unfolding digit
digit-IsDigit zero h = record { char = "0"; shape = refl; value = refl; size = refl }
digit-IsDigit (suc zero) h = record { char = "1"; shape = refl; value = refl; size = refl }
digit-IsDigit (suc (suc zero)) h = record { char = "2"; shape = refl; value = refl; size = refl }
digit-IsDigit (suc (suc (suc zero))) h = record {
  char = "3";
  shape = refl;
  value = refl;
  size = refl;
}
digit-IsDigit (suc (suc (suc (suc zero)))) h = record {
  char = "4";
  shape = refl;
  value = refl;
  size = refl;
}
digit-IsDigit (suc (suc (suc (suc (suc zero))))) h = record {
  char = "5";
  shape = refl;
  value = refl;
  size = refl;
}
digit-IsDigit (suc (suc (suc (suc (suc (suc zero)))))) h = record {
  char = "6";
  shape = refl;
  value = refl;
  size = refl;
}
digit-IsDigit (suc (suc (suc (suc (suc (suc (suc zero))))))) h = record {
  char = "7";
  shape = refl;
  value = refl;
  size = refl;
}
digit-IsDigit (suc (suc (suc (suc (suc (suc (suc (suc zero)))))))) h = record {
  char = "8";
  shape = refl;
  value = refl;
  size = refl;
}
digit-IsDigit (suc (suc (suc (suc (suc (suc (suc (suc (suc zero))))))))) h = record {
  char = "9";
  shape = refl;
  value = refl;
  size = refl;
}
digit-IsDigit (suc (suc (suc (suc (suc (suc (suc (suc (suc (suc n)))))))))) h = absurd (omega arith)

pub digits_small : (fuel n : ℕ) → n < 10 → digits fuel n ≡ digit n
unfolding digits
digits_small zero n h = refl
digits_small (suc fuel) n h = ground arith

pub digits_large :
    (fuel n : ℕ) → 10 ≤ n → digits (suc fuel) n ≡ append (digits fuel (n / 10)) (digit (n % 10))
unfolding digits
digits_large fuel n h = ground arith
