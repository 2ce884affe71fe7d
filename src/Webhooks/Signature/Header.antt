-- ===== src/Webhooks/Signature/Header.antt =====
-- `split`, `find` with `startsWith`, and indexing, as `verifyStripeSignature` uses them on the
-- signature header.
use Prim.Native.Char.{Char, code}
use Prim.Native.String.{String, ◌++◌ as append}
use text.Mathlib.TextLemmas.{nil-append, cons-append}
use payment_orchestration_la.Common.{
  ℕ, zero, suc, ◌≡◌, ◌≢◌, refl, Option, none, some, List, [], ◌∷◌, arith, ◌==◌, starts_with,
  if◌then◌else◌,
}

-- the first part gets one character more
abbrev extend : Char → List String → List String
extend c [] = String.◌∷◌ c "" ∷ []
extend c (p ∷ ps) = String.◌∷◌ c p ∷ ps

-- `text.split(sep)` for a separator of one character, by its code
unfoldable pub split : ℕ → String → List String
split sep String.[] = "" ∷ []
split sep (String.◌∷◌ c s) =
    let parts = split sep s in if code c == sep then "" ∷ parts else extend c parts

-- `parts.find(p => p.startsWith(prefix))`
unfoldable pub find_part : String → List String → Option String
find_part prefix [] = none
find_part prefix (p ∷ ps) = if starts_with p prefix then some p else find_part prefix ps

-- `parts[i]`; the code takes it where there are as many parts
unfoldable pub nth : ℕ → List String → String
nth i [] = ""
nth zero (p ∷ ps) = p
nth (suc i) (p ∷ ps) = nth i ps

-- No character of the text is the one with this code.
abbrev pub Lacks : ℕ → String → Type 0
Lacks sep String.[] = Unit
Lacks sep (String.◌∷◌ c s) = (code c ≢ sep) × Lacks sep s

pub split_single : (sep : ℕ) (s : String) → Lacks sep s → split sep s ≡ s ∷ []
unfolding split
split_single sep String.[] h = refl
split_single sep (String.◌∷◌ c s) h = ground (arith, split_single sep s h.1)

-- a text without the separator, up to a separator
pub split-append :
    (sep : ℕ) (s t : String) (c : Char)
    → code c ≡ sep
    → Lacks sep s
    → split sep (append s (String.◌∷◌ c t)) ≡ s ∷ split sep t
unfolding split
split-append sep String.[] t c e h = ground (arith, nil-append (String.◌∷◌ c t))
split-append sep (String.◌∷◌ d s) t c e h =
    ground (arith, cons-append d s (String.◌∷◌ c t), split-append sep s t c e h.1)
