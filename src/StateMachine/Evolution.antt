-- ===== src/StateMachine/Evolution.antt =====
-- How the transactions and the audit log may change over time: no row goes away, each row moves
-- along the allowed transitions, and the log only grows.
use mathlib.Core.List.{append-nil, append_assoc}
use payment_orchestration_la.Common.{
  ℕ, String, ◌≡◌, inl, inr, some, List, [], ◌++◌, Option-cases, Bool-cases, text_cases, sym, ap,
  ◌∙◌, subst, arith,
}
use payment_orchestration_la.Common.Effect.{Result}
use payment_orchestration_la.Common.Effect.Rules.{Ends, Unchanged, Ends-err, Ends-mono}
use payment_orchestration_la.Common.Effect.Keeps.{Keeps}
use payment_orchestration_la.Enums.{TransactionState, allowed}
use payment_orchestration_la.Enums.Graph.{Reach, here, next}
use payment_orchestration_la.Entities.{Transaction, AuditLog}
use payment_orchestration_la.Database.{Database, Exception, IsLawful, Inserted, Logged}
use payment_orchestration_la.StateMachine.{Metadata, mutate, transition}
use payment_orchestration_la.StateMachine.Transition.{
  Transitioned, transition_outcome, transition_missing, transition_refused,
}

Reach-trans : {s t u : TransactionState} → Reach s t → Reach t u → Reach s u
Reach-trans r here = r
Reach-trans r (next q e) = next (Reach-trans r q) e

module _ (D : Database) where
  open D use {Db, find_txn, history}

  -- The row `t` under `id` has a row that its state leads to.
  abbrev pub Successor : String → Transaction → Db → Type 0
  Successor id t db' =
      (t' : Transaction) × (find_txn id db' ≡ some t') × Reach t.current_state t'.current_state

  abbrev pub Growth : String → Db → Db → Type 0
  Growth id db db' = (es : List AuditLog) × (history id db' ≡ history id db ++ es)

  pub record Evolves (db db' : Db) : Type 0 where
    pub kept : (id : String) (t : Transaction) → find_txn id db ≡ some t → Successor id t db'
    pub grown : (id : String) → Growth id db db'

  pub Evolves-refl : (db : Db) → Evolves db db
  Evolves-refl db = record {
    kept = λ id t found. (t, found, here);
    grown = λ id. ([], sym (append-nil (history id db)));
  }

  pub Evolves-trans : {a b c : Db} → Evolves a b → Evolves b c → Evolves a c
  Evolves-trans {a} {b} {c} p q = record {
    kept = λ id t found.
        let (t₁, found₁, reach₁) = p.kept id t found in
        let (t₂, found₂, reach₂) = q.kept id t₁ found₁ in (t₂, found₂, Reach-trans reach₁ reach₂);
    grown = λ id.
        let (es₁, e₁) = p.grown id in
        let (es₂, e₂) = q.grown id in
        (es₁ ++ es₂, e₂ ∙ (ap (λ l. l ++ es₂) e₁ ∙ append_assoc (history id a) es₁ es₂));
  }

  Transitioned-Evolves :
      {now : ℕ} {id : String} {to : TransactionState} {metadata : Metadata} {t t' : Transaction}
      {db db' : Db}
      → Transitioned D now id to metadata t t' db db'
      → Evolves db db'
  unfolding mutate
  Transitioned-Evolves {id = id} {t = t} {t' = t'} {db = db} {db' = db'} m = record {
    kept = λ j u found. elim (text_cases j id) [
      | inl same ↦
          subst (λ k. find_txn k db ≡ some u → Successor k u db') (sym same) (moved u) found
      | inr differ ↦ (u, m.others j differ ∙ found, here)
    ];
    grown = λ j. elim (text_cases j id) [
      | inl same ↦ subst (λ k. Growth k db db') (sym same) (_, m.logged)
      | inr differ ↦ ([], m.other_histories j differ ∙ sym (append-nil (history j db)))
    ];
  }
    where
      moved : (u : Transaction) → find_txn id db ≡ some u → Successor id u db'
      moved u found =
          let it : t ≡ u = cc (m.found, found) in
          let step : Reach t.current_state t'.current_state =
            subst (λ v. Reach t.current_state v.current_state) (sym m.result)
              (next here m.was_allowed) in
          (t', m.stored, subst (λ v. Reach v.current_state t'.current_state) it step)

  Inserted-Evolves : {t t' : Transaction} {db db' : Db} → Inserted D t t' db db' → Evolves db db'
  Inserted-Evolves {t' = t'} {db = db} i = record {
    kept = λ j u found. elim (text_cases j t'.id) [
      | inl same ↦ absurd (ground (arith, i.unused, same))
      | inr differ ↦ (u, i.others j differ ∙ found, here)
    ];
    grown = λ j. ([], i.same_history j ∙ sym (append-nil (history j db)));
  }

  Logged-Evolves : {e : AuditLog} {db db' : Db} → Logged D e db db' → Evolves db db'
  Logged-Evolves {e} {db} {db'} l = record {
    kept = λ j u found. (u, l.same_txn j ∙ found, here);
    grown = λ j. elim (text_cases j e.transaction_id) [
      | inl same ↦ subst (λ k. Growth k db db') (sym same) (_, l.appended)
      | inr differ ↦ ([], l.others j differ ∙ sym (append-nil (history j db)))
    ];
  }

module _ (D : Database) (lawful : IsLawful D) (start : D.Db) where
  one_more_step :
      {A : Type 0} {P : A → D.Db → Type 0} (db : D.Db) (o : Result Exception A × D.Db)
      → Evolves D start db
      → Ends P (Unchanged db) o
      → ((a : A) (db' : D.Db) → P a db' → Evolves D db db')
      → Ends (λ a db'. Evolves D start db') (λ x db'. Evolves D start db') o
  one_more_step db o so_far h step =
      Ends-mono o h (λ a db' e p. Evolves-trans D so_far (step a db' p))
        (λ x db' e same. subst (Evolves D start) (sym same) so_far)

  pub transition-Keeps :
      (now : ℕ) (id : String) (to : TransactionState) (metadata : Metadata)
      → Keeps (Evolves D start) (transition D now id to metadata)
  transition-Keeps now id to metadata = record {
    kept = λ db so_far. elim (Option-cases (D.find_txn id db)) [
      | inl missing ↦
          rw (transition_missing D lawful now id to metadata db missing) (Ends-err _ db so_far)
      | inr (t, found) ↦ elim (Bool-cases (allowed t.current_state to)) [
        | inr refused ↦
            rw (transition_refused D lawful now id to metadata t db found refused)
              (Ends-err _ db so_far)
        | inl may ↦
            one_more_step db _ so_far
              (transition_outcome D lawful now id to metadata t db found may)
              (λ t' db' m. Transitioned-Evolves D m)
      ]
    ];
  }

  pub insert-Keeps : (t : Transaction) → Keeps (Evolves D start) (D.insert_txn t)
  insert-Keeps t = record {
    kept = λ db so_far.
        one_more_step db _ so_far (lawful.insert_txn_lem t db) (λ t' db' i. Inserted-Evolves D i);
  }

  pub audit-Keeps : (e : AuditLog) → Keeps (Evolves D start) (D.insert_audit e)
  audit-Keeps e = record {
    kept = λ db so_far.
        one_more_step db _ so_far (lawful.insert_audit_lem e db) (λ u db' l. Logged-Evolves D l);
  }
