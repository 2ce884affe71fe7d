-- ===== src/Routing/Ranking.antt =====
-- What the ranking of gateways returns.
use mathlib.Core.List.Perm
use mathlib.Core.List.{Perm}
use payment_orchestration_la.Common.{
  ◌^◌, ◌<◌, ◌≡◌, refl, inl, inr, Bool, true, false, not, List, [], ◌∷◌, arith, Bool-cases,
}
use payment_orchestration_la.Entities.{GatewayStats}
use payment_orchestration_la.Double.{Double, IsDouble}
use payment_orchestration_la.Routing.Score.{is_open, insert, sort}

module _ {A : Type 0} (after : A → A → Bool) where
  -- No element has to be exchanged with the one behind it.
  abbrev pub IsSorted : List A → Type 0
  IsSorted [] = Unit
  IsSorted (x ∷ []) = Unit
  IsSorted (x ∷ y ∷ ys) = (after x y ≡ false) × IsSorted (y ∷ ys)

  insert-perm : (x : A) (xs : List A) → Perm (insert after x xs) (x ∷ xs)
  unfolding insert
  insert-perm x [] = Perm.refl (x ∷ [])
  insert-perm x (y ∷ ys) = elim (Bool-cases (after x y)) [
    | inl behind ↦ rw behind (Perm.trans (Perm.cons y (insert-perm x ys)) (Perm.swap x y ys))
    | inr before ↦ rw before (Perm.refl (x ∷ y ∷ ys))
  ]

  pub sort-perm : (xs : List A) → Perm (sort after xs) xs
  unfolding sort
  sort-perm [] = Perm.refl []
  sort-perm (x ∷ xs) = Perm.trans (insert-perm x (sort after xs)) (Perm.cons x (sort-perm xs))

  module _ (asym : (x y : A) → after x y ≡ true → after y x ≡ false) where
    -- in front of `y` stands no element that has to be exchanged with it
    insert-IsSorted : (x : A) (xs : List A) → IsSorted xs → IsSorted (insert after x xs)
    unfolding insert
    insert-IsSorted x [] h = tt
    insert-IsSorted x (y ∷ []) h = ground (arith, asym x y)
    insert-IsSorted x (y ∷ z ∷ zs) h = ground (arith, asym x y, insert-IsSorted x (z ∷ zs) h.1)

    pub sort-IsSorted : (xs : List A) → IsSorted (sort after xs)
    unfolding sort
    sort-IsSorted [] = tt
    sort-IsSorted (x ∷ xs) = insert-IsSorted x (sort after xs) (sort-IsSorted xs)

-- What a row of `gateway_stats` holds: 32-bit integers, and a cost of any size below that.
pub record FitsInt (row : GatewayStats) : Type 0 where
  pub successes : row.success_count < 2 ^ 31
  pub failures : row.failure_count < 2 ^ 31
  pub latency : row.avg_latency_ms < 2 ^ 31
  pub cost : row.cost_bps < 2 ^ 31

module _ (R : Double) (law : IsDouble R) where
  abbrev pub is_live : GatewayStats → Bool
  is_live row = not (is_open row.circuit_state)
