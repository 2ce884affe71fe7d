-- ===== src/Webhooks/Path.antt =====
-- The states that `driveToReconciled` moves a transaction through, and what a way through them
-- leaves in the database.
use mathlib.Core.List.{append-nil, append_assoc}
use payment_orchestration_la.Common.{
  ℕ, String, ◌≡◌, ◌≢◌, refl, true, some, List, [], ◌∷◌, ◌++◌, map, arith, sym, ap, ◌∙◌,
  if◌then◌else◌,
}
use payment_orchestration_la.Enums.{
  TransactionState, initiated, routed, processing, retry_pending, success, failed, reconciled,
  state_eq,
}
use payment_orchestration_la.Entities.{Transaction, AuditLog}
use payment_orchestration_la.Database.{Database}
use payment_orchestration_la.StateMachine.{Metadata, mutate, audit_entry}
use payment_orchestration_la.StateMachine.Transition.{Transitioned}

-- The states that a transaction is moved through from `s`, and the one in which it is left.
abbrev pub route : TransactionState → List TransactionState
route initiated = routed ∷ processing ∷ success ∷ reconciled ∷ []
route routed = processing ∷ success ∷ reconciled ∷ []
route processing = success ∷ reconciled ∷ []
route retry_pending = routed ∷ processing ∷ success ∷ reconciled ∷ []
route success = reconciled ∷ []
route failed = []
route reconciled = []

abbrev pub target : TransactionState → TransactionState
target s = if state_eq s failed then failed else reconciled

-- one `if` of the method
abbrev pub hop : TransactionState → TransactionState → TransactionState → TransactionState
hop from to s = if state_eq s from then to else s

abbrev pub hop_path : TransactionState → TransactionState → TransactionState → List TransactionState
hop_path from to s = if state_eq s from then to ∷ [] else []

pub state_eq_sound : (s t : TransactionState) → state_eq s t ≡ true → s ≡ t
state_eq_sound s t e = ground arith

module _ (D : Database) where
  open D use {Db, find_txn, history}

  -- The row under `id` was moved through `path`, one audit entry each, and is left in `state`; no
  -- other row and no other history has changed.
  pub record Driven (id : String) (path : List TransactionState) (state : TransactionState)
      (db db' : Db) : Type 0 where
    pub row : Transaction
    pub stored : find_txn id db' ≡ some row
    pub left_in : row.current_state ≡ state
    pub entries : List AuditLog
    pub logged : history id db' ≡ history id db ++ entries
    pub visited : map (λ e. e.to_state) entries ≡ path
    pub others : (j : String) → j ≢ id → find_txn j db' ≡ find_txn j db
    pub other_histories : (j : String) → j ≢ id → history j db' ≡ history j db

  pub Driven-same :
      {id : String} {db : Db} (t : Transaction)
      → find_txn id db ≡ some t
      → Driven id [] t.current_state db db
  Driven-same {id} {db} t found = record {
    row = t;
    stored = found;
    left_in = refl;
    entries = [];
    logged = sym (append-nil (history id db));
    visited = refl;
    others = λ j ne. refl;
    other_histories = λ j ne. refl;
  }

  map-append :
      (xs ys : List AuditLog)
      → map (λ e. e.to_state) (xs ++ ys) ≡ map (λ e. e.to_state) xs ++ map (λ e. e.to_state) ys
  map-append [] ys = refl
  map-append (x ∷ xs) ys = ap (λ l. x.to_state ∷ l) (map-append xs ys)

  pub Driven-trans :
      {id : String} {p q : List TransactionState} {s t : TransactionState} {db₀ db₁ db₂ : Db}
      → Driven id p s db₀ db₁
      → Driven id q t db₁ db₂
      → Driven id (p ++ q) t db₀ db₂
  Driven-trans {id} {p} {q} {db₀ = db₀} a b = record {
    row = b.row;
    stored = b.stored;
    left_in = b.left_in;
    entries = a.entries ++ b.entries;
    logged =
        b.logged
        ∙ (ap (λ l. l ++ b.entries) a.logged ∙ append_assoc (history id db₀) a.entries b.entries);
    visited =
        map-append a.entries b.entries
        ∙ (ap (λ l. l ++ map (λ e. e.to_state) b.entries) a.visited ∙ ap (λ l. p ++ l) b.visited);
    others = λ j ne. b.others j ne ∙ a.others j ne;
    other_histories = λ j ne. b.other_histories j ne ∙ a.other_histories j ne;
  }

  unfoldable pub Driven-move :
      {now : ℕ} {id : String} {to : TransactionState} {metadata : Metadata} {t t' : Transaction}
      {db db' : Db}
      → Transitioned D now id to metadata t t' db db'
      → Driven id (to ∷ []) to db db'
  unfolding mutate audit_entry
  Driven-move {t' = t'} moved = record {
    row = t';
    stored = moved.stored;
    left_in = ap (λ x. x.current_state) moved.result;
    entries = _;
    logged = moved.logged;
    visited = refl;
    others = moved.others;
    other_histories = moved.other_histories;
  }

-- where the five `if`s lead from a state, and over which states
pub hops_lem :
    (s : TransactionState)
    → let s₁ = hop initiated routed s in
      let s₂ = hop retry_pending routed s₁ in
      let s₃ = hop routed processing s₂ in
      let s₄ = hop processing success s₃ in
      (((((([] ++ hop_path initiated routed s) ++ hop_path retry_pending routed s₁)
              ++ hop_path routed processing s₂)
            ++ hop_path processing success s₃)
          ++ hop_path success reconciled s₄)
        ≡ route s)
      × (hop success reconciled s₄ ≡ target s)
hops_lem initiated = (refl, refl)
hops_lem routed = (refl, refl)
hops_lem processing = (refl, refl)
hops_lem retry_pending = (refl, refl)
hops_lem success = (refl, refl)
hops_lem failed = (refl, refl)
hops_lem reconciled = (refl, refl)
