-- ===== src/Json.antt =====
-- JSON values as the code reads them: webhook bodies, gateway responses and what is stored of
-- them. `undefined` is `none`.
use payment_orchestration_la.Common.{
  ℕ, String, Bool, true, false, not, Option, none, some, ◌==◌, str_eq, if◌then◌else◌,
}

mutual
  pub data Json : Type 0 where
    null : Json
    bool : Bool → Json
    num : ℕ → Json
    str : String → Json
    arr : Items → Json
    obj : Fields → Json

  pub data Items : Type 0 where
    nil : Items
    item : Json → Items → Items

  pub data Fields : Type 0 where
    end : Fields
    field : String → Json → Fields → Fields

abbrev pub lookup_field : String → Fields → Option Json
lookup_field k end = none
lookup_field k (field j v fs) = if str_eq j k then some v else lookup_field k fs

-- `v?.k`: `undefined` for a value that has no fields of that name, and for `null` and `undefined`
unfoldable pub get_field : Option Json → String → Option Json
get_field none k = none
get_field (some (obj fs)) k = lookup_field k fs
get_field (some _) k = none

-- JavaScript's truth of a value
unfoldable pub truthy : Option Json → Bool
truthy none = false
truthy (some null) = false
truthy (some (bool b)) = b
truthy (some (num n)) = not (n == 0)
truthy (some (str s)) = not (str_eq s "")
truthy (some (arr _)) = true
truthy (some (obj _)) = true

-- `a || b`
unfoldable pub or_else : Option Json → Option Json → Option Json
unfolding truthy
or_else a b = if truthy a then a else b

-- `a ?? b`
unfoldable pub coalesce : Option Json → Option Json → Option Json
coalesce none b = b
coalesce (some null) b = b
coalesce (some v) b = some v
