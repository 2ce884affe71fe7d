-- ===== src/Database.antt =====
-- The tables `transactions` and `audit_log` as the services use them, through TypeORM: an
-- interface with the laws that the services rely on. TypeORM and PostgreSQL are not part of the
-- repository. A read answers; a write may be refused, and then changes nothing.
pub mod Memory
pub mod Schema
use payment_orchestration_la.Common.{String, ◌≡◌, ◌≢◌, Option, none, some, List, [], ◌∷◌, ◌++◌}
use payment_orchestration_la.Common.Effect.{ok, err, Action}
use payment_orchestration_la.Common.Effect.Rules.{Ends, Unchanged, Never}
use payment_orchestration_la.Entities.{Transaction, AuditLog}

-- Why a statement was refused: the code tells a unique violation (23505) from the rest.
pub data Refusal : Type 0 where
  unique_violation other_refusal : Refusal

-- What an `async` method throws.
pub data Exception : Type 0 where
  not_found : String → Exception
  bad_request : String → Exception
  conflict : String → Exception
  service_unavailable : String → Exception
  refused : Refusal → Exception
  other : String → Exception

pub record Database : Type 1 where
  pub Db : Type 0
  -- `findOne({ where: { id } })`, and the same with the row locked
  pub find_txn : String → Db → Option Transaction
  -- `findOne({ where: { idempotencyKey } })`
  pub find_txn_by_key : String → Db → Option Transaction
  -- `findOne({ where: [{ gatewayTxnId }, { idempotencyKey }] })`
  pub find_txn_by_gateway_or_key : String → String → Db → Option Transaction
  -- `save` of an entity that was loaded
  pub save_txn : Transaction → Action Db Exception Transaction
  -- `save` of an entity that was created: the database chooses the id
  pub insert_txn : Transaction → Action Db Exception Transaction
  pub insert_audit : AuditLog → Action Db Exception (Unit {0})
  -- `find({ where: { transactionId }, order: { createdAt: 'ASC' } })`
  pub history : String → Db → List AuditLog
  -- `entityManager.transaction(…)`
  pub atomically : Action Db Exception Transaction → Action Db Exception Transaction

-- What a statement that was run at `db` on the transactions and the audit log has done.
module _ (D : Database) where
  open D use {Db, find_txn, history}

  pub record Saved (t t' : Transaction) (db db' : Db) : Type 0 where
    pub returned : t' ≡ t
    pub stored : find_txn t.id db' ≡ some t
    pub others : (id : String) → id ≢ t.id → find_txn id db' ≡ find_txn id db
    pub same_history : (id : String) → history id db' ≡ history id db

  pub record Logged (e : AuditLog) (db db' : Db) : Type 0 where
    pub appended : history e.transaction_id db' ≡ history e.transaction_id db ++ e ∷ []
    pub others : (id : String) → id ≢ e.transaction_id → history id db' ≡ history id db
    pub same_txn : (id : String) → find_txn id db' ≡ find_txn id db

  -- A created row has an id that no row and no audit entry had.
  pub record Inserted (t t' : Transaction) (db db' : Db) : Type 0 where
    pub returned : t' ≡ record t { id = t'.id }
    pub unused : find_txn t'.id db ≡ none
    pub unlogged : history t'.id db ≡ []
    pub stored : find_txn t'.id db' ≡ some t'
    pub others : (id : String) → id ≢ t'.id → find_txn id db' ≡ find_txn id db
    pub same_history : (id : String) → history id db' ≡ history id db

-- The laws. A statement that is refused leaves the database as it was.
pub record IsLawful (D : Database) : Type 0 where
  -- a row is found under its own id
  pub id-find_txn :
      (id : String) (t : Transaction) (db : D.Db) → D.find_txn id db ≡ some t → t.id ≡ id
  pub save_txn_lem :
      (t : Transaction) (db : D.Db)
      → Ends (λ t' db'. Saved D t t' db db') (Unchanged db) (D.save_txn t db)
  pub insert_txn_lem :
      (t : Transaction) (db : D.Db)
      → Ends (λ t' db'. Inserted D t t' db db') (Unchanged db) (D.insert_txn t db)
  pub insert_audit_lem :
      (e : AuditLog) (db : D.Db)
      → Ends (λ u db'. Logged D e db db') (Unchanged db) (D.insert_audit e db)
  -- what a transaction returns its body has returned; a commit may be refused, too
  pub atomically_lem :
      (m : Action D.Db Exception Transaction) (db : D.Db)
      → Ends (λ t db'. m db ≡ (ok t, db')) (Unchanged db) (D.atomically m db)
  -- a transaction whose body throws is rolled back, and throws that
  pub atomically_throw :
      (m : Action D.Db Exception Transaction) (x : Exception) (db db' : D.Db)
      → m db ≡ (err x, db')
      → D.atomically m db ≡ (err x, db)

-- A database that refuses no change of a row, no entry and no commit.
pub record IsAvailable (D : Database) : Type 0 where
  pub save_txn_total :
      (t : Transaction) (db : D.Db) → Ends (λ t' db'. Saved D t t' db db') Never (D.save_txn t db)
  pub insert_audit_total :
      (e : AuditLog) (db : D.Db) → Ends (λ u db'. Logged D e db db') Never (D.insert_audit e db)
  pub atomically_total :
      (m : Action D.Db Exception Transaction) (t : Transaction) (db db' : D.Db)
      → m db ≡ (ok t, db')
      → D.atomically m db ≡ (ok t, db')
