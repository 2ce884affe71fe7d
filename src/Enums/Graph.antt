-- ===== src/Enums/Graph.antt =====
-- The graph of VALID_TRANSITIONS: which states can follow which, over any number of transitions.
use payment_orchestration_la.Common.{
  Bool, ◌↔◌, ◌≡◌, refl, ◌≢◌, inl, inr, subst, ◌⊎◌, true, false, arith,
}
use payment_orchestration_la.Enums.{
  TransactionState, initiated, routed, processing, retry_pending, success, failed, reconciled,
  allowed,
}

-- A path of allowed transitions.
pub data Reach (s : TransactionState) : TransactionState → Type 0 where
  here : Reach s s
  next : {t u : TransactionState} → Reach s t → allowed t u ≡ true → Reach s u

abbrev pub IsTerminal : TransactionState → Type 0
IsTerminal s = (s ≡ failed) ⊎ (s ≡ reconciled)

terminal_refuses : (s t : TransactionState) → IsTerminal s → allowed s t ≡ false
unfolding allowed
terminal_refuses s t h = ground arith

-- From a terminal state no path of allowed transitions leads to another state.
pub terminal_absorbs : {s t : TransactionState} → IsTerminal s → Reach s t → t ≡ s
terminal_absorbs h here = refl
terminal_absorbs {s} h (next {t = t} {u = u} r e) =
    let same : t ≡ s = terminal_absorbs h r in ground (arith, terminal_refuses s u h)

allowed_settled :
    (s t : TransactionState)
    → (s ≡ success) ⊎ (s ≡ reconciled)
    → allowed s t ≡ true
    → t ≡ reconciled
unfolding allowed
allowed_settled s t h e = ground arith

-- After SUCCESS only SUCCESS and RECONCILED can follow: a paid transaction never fails or is
-- charged again.
pub success_settles : {t : TransactionState} → Reach success t → (t ≡ success) ⊎ (t ≡ reconciled)
success_settles here = inl refl
success_settles (next {t = t} {u = u} r e) = inr (allowed_settled t u (success_settles r) e)

allowed-reconciled : (s : TransactionState) → allowed s reconciled ≡ true → s ≡ success
unfolding allowed
allowed-reconciled s e = ground arith

-- Every path to RECONCILED from another state passes through SUCCESS.
pub reconciled_after_success :
    {s t : TransactionState} → s ≢ reconciled → t ≡ reconciled → Reach s t → Reach s success
reconciled_after_success ne e here = absurd (ne e)
reconciled_after_success ne e (next {t = t} r a) =
    subst (Reach _) (allowed-reconciled t (ground arith)) r

-- Which states come later in the life of a payment: from INITIATED every other one, from a payment
-- that is being made all but INITIATED, from SUCCESS only RECONCILED, and from FAILED and RECONCILED
-- none.
unfoldable pub later : TransactionState → TransactionState → Bool
later s initiated = false
later initiated t = true
later routed t = true
later processing t = true
later retry_pending t = true
later success reconciled = true
later _ _ = false

Reach-trans : {s t u : TransactionState} → Reach s t → Reach t u → Reach s u
Reach-trans r here = r
Reach-trans r (next q e) = next (Reach-trans r q) e

later_next :
    (s t u : TransactionState)
    → (s ≡ t) ⊎ (later s t ≡ true)
    → allowed t u ≡ true
    → (s ≡ u) ⊎ (later s u ≡ true)
unfolding allowed later
later_next s t u h e = ground (arith, h, e)

path_later : {s t : TransactionState} → Reach s t → (s ≡ t) ⊎ (later s t ≡ true)
path_later here = inl refl
path_later {s} (next {t = t} {u = u} r e) = later_next s t u (path_later r) e

one_step : (s t : TransactionState) → allowed s t ≡ true → Reach s t
one_step s t e = next here e

-- from a charge that is under way to every state but INITIATED
from_processing : (t : TransactionState) → later processing t ≡ true → Reach processing t
unfolding later allowed
from_processing initiated e = absurd (ground (arith, e))
from_processing routed e = next (one_step processing retry_pending refl) refl
from_processing processing e = here
from_processing retry_pending e = one_step processing retry_pending refl
from_processing success e = one_step processing success refl
from_processing failed e = one_step processing failed refl
from_processing reconciled e = next (one_step processing success refl) refl

later_path : (s t : TransactionState) → later s t ≡ true → Reach s t
unfolding later allowed
later_path initiated t e =
    Reach-trans (next (one_step initiated routed refl) refl) (from_processing t (ground (arith, e)))
later_path routed t e =
    Reach-trans (one_step routed processing refl) (from_processing t (ground (arith, e)))
later_path processing t e = from_processing t e
later_path retry_pending t e =
    Reach-trans (next (one_step retry_pending routed refl) refl)
      (from_processing t (ground (arith, e)))
later_path success reconciled e = one_step success reconciled refl
later_path success initiated e = absurd (ground (arith, e))
later_path success routed e = absurd (ground (arith, e))
later_path success processing e = absurd (ground (arith, e))
later_path success retry_pending e = absurd (ground (arith, e))
later_path success success e = absurd (ground (arith, e))
later_path success failed e = absurd (ground (arith, e))
later_path failed t e = absurd (ground (arith, e))
later_path reconciled t e = absurd (ground (arith, e))

-- Over any number of allowed transitions a state is followed by itself and by the states that come
-- later in the life of a payment, and by no other: from INITIATED by every other one, from a payment
-- that is being made by all but INITIATED, from SUCCESS by RECONCILED, from FAILED and RECONCILED by
-- none.
pub Reach-iff : (s t : TransactionState) → Reach s t ↔ ((s ≡ t) ⊎ (later s t ≡ true))
Reach-iff s t =
    (path_later, λ h. elim h [ inl e ↦ subst (Reach s) e here | inr e ↦ later_path s t e ])
