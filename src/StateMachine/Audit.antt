-- ===== src/StateMachine/Audit.antt =====
-- The audit trail as an invariant: the history of each transaction is a path of allowed
-- transitions from its creation to its current state.
use payment_orchestration_la.Common.{
  ℕ, String, ◌≡◌, refl, ◌≢◌, ◌⊎◌, inl, inr, Bool, true, Option, none, some, List, [], ◌∷◌, ◌++◌,
  arith, Option-cases, Bool-cases, text_cases, sym, ◌∙◌, subst,
}
use payment_orchestration_la.Common.Effect.Rules.{Ends, Ends-err, Ends-mono}
use payment_orchestration_la.Enums.{TransactionState, initiated, reconciled, allowed, state_eq}
use payment_orchestration_la.Entities.{Transaction, AuditLog}
use payment_orchestration_la.Database.{Database, IsLawful}
use payment_orchestration_la.StateMachine.{Metadata, mutate, audit_entry, transition}
use payment_orchestration_la.StateMachine.Transition.{
  Transitioned, transition_outcome, transition_missing, transition_refused,
}

-- The first entry creates the transaction; each other one is an allowed transition.
abbrev pub may_follow : Option TransactionState → TransactionState → Bool
may_follow none to = state_eq to initiated
may_follow (some from) to = allowed from to

-- The entries lead from the one state to the other.
abbrev pub Leads : Option TransactionState → List AuditLog → Option TransactionState → Type 0
Leads from [] to = from ≡ to
Leads from (e ∷ es) to =
    (e.from_state ≡ from) × (may_follow from e.to_state ≡ true) × Leads (some e.to_state) es to

pub Leads-append :
    (from : Option TransactionState) (es : List AuditLog) (s : Option TransactionState)
    (e : AuditLog)
    → Leads from es s
    → e.from_state ≡ s
    → may_follow s e.to_state ≡ true
    → Leads from (es ++ e ∷ []) (some e.to_state)
Leads-append from [] s e h p q = (p ∙ sym h, rw h q, refl)
Leads-append from (d ∷ es) s e (a, b, h) p q = (a, b, Leads-append (some d.to_state) es s e h p q)

-- RECONCILED transactions, and no others, have a time of reconciliation.
abbrev pub IsDated : Transaction → Type 0
IsDated t =
    ((t.current_state ≡ reconciled) × (t.final_reconciled_at ≢ none))
    ⊎ ((t.current_state ≢ reconciled) × (t.final_reconciled_at ≡ none))

pub mutate-IsDated :
    (now : ℕ) (to : TransactionState) (metadata : Metadata) (t : Transaction)
    → allowed t.current_state to ≡ true
    → IsDated t
    → IsDated (mutate now to metadata t)
unfolding mutate allowed
mutate-IsDated now to metadata t may h = ground arith

module _ (D : Database) where
  open D use {Db, find_txn, history}

  -- What holds of the row under `id`, if there is one, between two calls.
  pub record RowIsAudited (db : Db) (id : String) (t : Transaction) : Type 0 where
    pub leads : Leads none (history id db) (some t.current_state)
    pub dated : IsDated t

  abbrev pub IsAudited : Db → Type 0
  IsAudited db = (id : String) (t : Transaction) → find_txn id db ≡ some t → RowIsAudited db id t

module _ (D : Database) (lawful : IsLawful D) where
  open D use {Db, find_txn, history}

  moved_row :
      (now : ℕ) (id : String) (to : TransactionState) (metadata : Metadata) (t t' : Transaction)
      (db db' : Db)
      → RowIsAudited D db id t
      → Transitioned D now id to metadata t t' db db'
      → RowIsAudited D db' id t'
  unfolding mutate audit_entry
  moved_row now id to metadata t t' db db' audited moved =
      let e = audit_entry t.current_state to metadata (mutate now to metadata t) in
      record {
        leads =
            rw (moved.logged, moved.result)
              (Leads-append none (history id db) (some t.current_state) e audited.leads refl
                moved.was_allowed);
        dated = rw moved.result (mutate-IsDated now to metadata t moved.was_allowed audited.dated);
      }

  Transitioned-IsAudited :
      (now : ℕ) (id : String) (to : TransactionState) (metadata : Metadata) (t t' : Transaction)
      (db db' : Db)
      → IsAudited D db
      → Transitioned D now id to metadata t t' db db'
      → IsAudited D db'
  Transitioned-IsAudited now id to metadata t t' db db' audited moved j t'' found =
      elim (text_cases j id) [
        | inl same ↦
            let here = moved_row now id to metadata t t' db db' (audited id t moved.found) moved in
            let it : t' ≡ t'' = cc (moved.stored) in rw (same, ← it) here
        | inr differ ↦
            let h = audited j t'' (sym (moved.others j differ) ∙ found) in
            record { leads = rw (moved.other_histories j differ) h.leads; dated = h.dated }
      ]

  -- Every call of `transition` on a lawful database, however it ends, keeps the invariant: the
  -- audit entries of each transaction lead from its creation to its state by allowed moves, and
  -- the RECONCILED transactions, and no others, have a time of reconciliation.
  pub transition-IsAudited :
      (now : ℕ) (id : String) (to : TransactionState) (metadata : Metadata) (db : Db)
      → IsAudited D db
      → Ends
          (λ t' db'. IsAudited D db')
          (λ x db'. IsAudited D db')
          (transition D now id to metadata db)
  transition-IsAudited now id to metadata db audited = elim (Option-cases (find_txn id db)) [
    | inl missing ↦
        rw (transition_missing D lawful now id to metadata db missing) (Ends-err _ db audited)
    | inr (t, found) ↦ elim (Bool-cases (allowed t.current_state to)) [
      | inr refused ↦
          rw (transition_refused D lawful now id to metadata t db found refused)
            (Ends-err _ db audited)
      | inl may ↦
          Ends-mono _ (transition_outcome D lawful now id to metadata t db found may)
            (λ t' db' e moved. Transitioned-IsAudited now id to metadata t t' db db' audited moved)
            (λ x db' e same. subst (IsAudited D) (sym same) audited)
    ]
  ]
