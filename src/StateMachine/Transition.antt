-- ===== src/StateMachine/Transition.antt =====
-- What a call of `transition` has done, by how it ended.
use payment_orchestration_la.Common.{
  ℕ, String, ◌≡◌, ◌≢◌, true, false, some, none, [], ◌∷◌, ◌++◌, arith, ◌∙◌,
}
use payment_orchestration_la.Common.Effect.{err}
use payment_orchestration_la.Common.Effect.Rules.{
  Ends, Unchanged, Never, Ends-bind, Always, returns, Ends-ok, Ends-pure, Ends-mono,
  Ends-bind_known, gets_lem, or_throw-some, or_throw-none, ensure-true, ensure-false, bind_ok,
  bind_err,
}
use payment_orchestration_la.Enums.{TransactionState, allowed}
use payment_orchestration_la.Entities.{AuditLog, Transaction}
use payment_orchestration_la.Database.{
  Saved, Logged, Database, IsLawful, IsAvailable, Exception, not_found, bad_request,
}
use payment_orchestration_la.StateMachine.{
  Metadata, mutate, audit_entry, transition_body, transition,
}

module _ (D : Database) where
  open D use {Db, find_txn, history}

  -- The row `t` has become `t'`, one entry was logged, and nothing else has changed.
  pub record Transitioned (now : ℕ) (id : String) (to : TransactionState) (metadata : Metadata)
      (t t' : Transaction) (db db' : Db) : Type 0 where
    pub found : find_txn id db ≡ some t
    pub was_allowed : allowed t.current_state to ≡ true
    pub result : t' ≡ mutate now to metadata t
    pub stored : find_txn id db' ≡ some t'
    pub others : (j : String) → j ≢ id → find_txn j db' ≡ find_txn j db
    pub logged : history id db' ≡ history id db ++ audit_entry t.current_state to metadata t' ∷ []
    pub other_histories : (j : String) → j ≢ id → history j db' ≡ history j db

module _ (D : Database) (lawful : IsLawful D) where
  open D use {Db, find_txn, history}

  assemble :
      (now : ℕ) (id : String) (to : TransactionState) (metadata : Metadata)
      (t updated : Transaction) (db db₁ db₂ : Db)
      → find_txn id db ≡ some t
      → allowed t.current_state to ≡ true
      → Saved D (mutate now to metadata t) updated db db₁
      → Logged D (audit_entry t.current_state to metadata updated) db₁ db₂
      → Transitioned D now id to metadata t updated db db₂
  unfolding mutate audit_entry
  assemble now id to metadata t updated db db₁ db₂ found may s l =
      let same = lawful.id-find_txn id t db found in
      record {
        found = found;
        was_allowed = may;
        result = s.returned;
        stored = ground (arith, l.same_txn id);
        others = λ j ne. ground (arith, l.same_txn j, s.others j);
        logged = ground (arith, s.same_history id);
        other_histories = λ j ne. ground (arith, l.others j, s.same_history j);
      }

  -- The body, where it reads the row `t` and may move it on; a refused write leaves `E`.
  body_end :
      (E : Exception → Db → Type 0) (now : ℕ) (id : String) (to : TransactionState)
      (metadata : Metadata) (t : Transaction) (db : Db)
      → find_txn id db ≡ some t
      → allowed t.current_state to ≡ true
      → ((t₁ : Transaction) → Ends (λ t' db'. Saved D t₁ t' db db') E (D.save_txn t₁ db))
      → ((e : AuditLog) (db₁ : Db) → Ends (λ u db'. Logged D e db₁ db') E (D.insert_audit e db₁))
      → Ends
          (λ t' db'. Transitioned D now id to metadata t t' db db')
          E
          (transition_body D now id to metadata db)
  unfolding transition_body
  body_end E now id to metadata t db found may saves logs =
      Ends-bind_known _ _ db db _ (gets_lem (find_txn id) db) (
        Ends-bind_known _ _ db db t (or_throw-some _ _ t db found) (
          Ends-bind_known _ _ db db tt (ensure-true _ _ db may) (
            Ends-bind _ _ _ db (saves (mutate now to metadata t)) λ updated db₁ s.
              Ends-bind _ _ _ db₁ (logs _ db₁) λ u db₂ l.
                Ends-pure updated db₂
                  (assemble now id to metadata t updated db db₁ db₂ found may s l))))

  -- A call that finds the row in a state that allows the move returns after both writes, or it
  -- throws and the database is as it was.
  pub transition_outcome :
      (now : ℕ) (id : String) (to : TransactionState) (metadata : Metadata) (t : Transaction)
      (db : Db)
      → find_txn id db ≡ some t
      → allowed t.current_state to ≡ true
      → Ends
          (λ t' db'. Transitioned D now id to metadata t t' db db')
          (Unchanged db)
          (transition D now id to metadata db)
  unfolding transition
  transition_outcome now id to metadata t db found may =
      let body =
        body_end Always now id to metadata t db found may
          (λ t₁. Ends-mono _ (lawful.save_txn_lem t₁ db) (λ a s e h. h) (λ x s e h. tt))
          (λ e db₁. Ends-mono _ (lawful.insert_audit_lem e db₁) (λ a s e' h. h) (λ x s e' h. tt)) in
      Ends-mono _ (lawful.atomically_lem (transition_body D now id to metadata) db)
        (λ t' db' e ran. (rw ran at body).holds) (λ x db' e same. same)

  -- A call for an id that no row has throws NotFoundException and changes nothing.
  pub transition_missing :
      (now : ℕ) (id : String) (to : TransactionState) (metadata : Metadata) (db : Db)
      → find_txn id db ≡ none
      → transition D now id to metadata db ≡ (err (not_found id), db)
  unfolding transition
  transition_missing now id to metadata db missing =
      lawful.atomically_throw (transition_body D now id to metadata) _ db db (
        unfold transition_body in
        bind_ok _ _ (gets_lem (find_txn id) db) ∙ bind_err _ _ (or_throw-none _ _ db missing))

  -- A call for a move that VALID_TRANSITIONS does not list throws BadRequestException and
  -- changes nothing.
  pub transition_refused :
      (now : ℕ) (id : String) (to : TransactionState) (metadata : Metadata) (t : Transaction)
      (db : Db)
      → find_txn id db ≡ some t
      → allowed t.current_state to ≡ false
      → transition D now id to metadata db ≡ (err (bad_request "Invalid state transition"), db)
  unfolding transition
  transition_refused now id to metadata t db found may_not =
      lawful.atomically_throw (transition_body D now id to metadata) _ db db (
        unfold transition_body in
        bind_ok _ _ (gets_lem (find_txn id) db)
        ∙ (bind_ok _ _ (or_throw-some _ _ t db found) ∙ bind_err _ _ (ensure-false _ _ db may_not)))

  -- Where the database refuses no write, an allowed move is made.
  pub transition_total :
      (available : IsAvailable D) (now : ℕ) (id : String) (to : TransactionState)
      (metadata : Metadata) (t : Transaction) (db : Db)
      → find_txn id db ≡ some t
      → allowed t.current_state to ≡ true
      → Ends
          (λ t' db'. Transitioned D now id to metadata t t' db db')
          Never
          (transition D now id to metadata db)
  unfolding transition
  transition_total available now id to metadata t db found may =
      let (t', db', ran, done) = returns _ (
        body_end Never now id to metadata t db found may (λ t₁. available.save_txn_total t₁ db)
          available.insert_audit_total) in
      rw (available.atomically_total _ t' db db' ran) (Ends-ok t' db' done)
