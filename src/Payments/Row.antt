-- ===== src/Payments/Row.antt =====
-- What a part of `create` has done to one transaction and to the calls of the adapters.
use mathlib.Core.List.{append-nil, append_assoc}
use payment_orchestration_la.Common.{String, ◌≡◌, ◌≢◌, some, List, [], ◌++◌, sym, ap, ◌∙◌}
use payment_orchestration_la.Enums.{GatewayProvider}
use payment_orchestration_la.Entities.{Transaction}
use payment_orchestration_la.Payments.Charge.{GatewayChargeRequest}
use payment_orchestration_la.Payments.World.{System, World}

module _ (Y : System) where
  open Y use {database}

  -- The row under `id` has become `t'`, the other rows have not changed, and `calls` were made.
  pub record Row (id : String) (calls : List (GatewayProvider × GatewayChargeRequest))
      (t' : Transaction) (w w' : World Y) : Type 0 where
    pub stored : database.find_txn id w'.db ≡ some t'
    pub others : (j : String) → j ≢ id → database.find_txn j w'.db ≡ database.find_txn j w.db
    pub charges : w'.charged ≡ w.charged ++ calls

  pub Row-trans :
      {id : String} {c₁ c₂ : List (GatewayProvider × GatewayChargeRequest)} {t₁ t₂ : Transaction}
      {w₀ w₁ w₂ : World Y}
      → Row id c₁ t₁ w₀ w₁
      → Row id c₂ t₂ w₁ w₂
      → Row id (c₁ ++ c₂) t₂ w₀ w₂
  Row-trans {c₁ = c₁} {c₂ = c₂} {w₀ = w₀} a b = record {
    stored = b.stored;
    others = λ j ne. b.others j ne ∙ a.others j ne;
    charges = b.charges ∙ (ap (λ l. l ++ c₂) a.charges ∙ append_assoc w₀.charged c₁ c₂);
  }

  -- nothing was done to the transactions
  pub Row-same :
      {id : String} {t : Transaction} {w w' : World Y}
      → database.find_txn id w.db ≡ some t
      → w'.db ≡ w.db
      → w'.charged ≡ w.charged
      → Row id [] t w w'
  Row-same {id} {w = w} found same none_made = record {
    stored = ap (database.find_txn id) same ∙ found;
    others = λ j ne. ap (database.find_txn j) same;
    charges = none_made ∙ sym (append-nil w.charged);
  }
