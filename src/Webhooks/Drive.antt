-- ===== src/Webhooks/Drive.antt =====
-- `driveToReconciled` of webhooks/reconciliation-worker.service.ts: where it leaves a transaction,
-- and over which states.
use mathlib.Core.List.{append-nil}
use payment_orchestration_la.Common.{
  ℕ, String, ◌≡◌, refl, true, some, List, [], ◌++◌, sym, Bool-cases, inl, inr, subst, ◌∙◌,
}
use payment_orchestration_la.Common.Effect.Rules.{Ends, Never, Ends-bind, Ends-mono, Ends-pure}
use payment_orchestration_la.Enums.{
  TransactionState, initiated, routed, processing, retry_pending, success, reconciled,
  GatewayProvider, state_eq, allowed,
}
use payment_orchestration_la.Json.{Json}
use payment_orchestration_la.Entities.{Transaction}
use payment_orchestration_la.Database.{Database, IsLawful, IsAvailable}
use payment_orchestration_la.StateMachine.{Metadata}
use payment_orchestration_la.StateMachine.Transition.{transition_total}
use payment_orchestration_la.Webhooks.Worker.{when_in, drive_from, drive_to_reconciled}
use payment_orchestration_la.Webhooks.Path.{
  route, target, hop, hop_path, state_eq_sound, Driven, Driven-same, Driven-trans, Driven-move,
  hops_lem,
}

module _ (D : Database) (lawful : IsLawful D) (available : IsAvailable D) (now : ℕ)
    (id : String) where
  open D use {Db, find_txn}

  -- one `if`, after the ones before it
  when_in_next :
      (from to : TransactionState) (metadata : Metadata) (p : List TransactionState)
      (s : TransactionState) (db₀ db : Db)
      → Driven D id p s db₀ db
      → allowed from to ≡ true
      → Ends
          (λ s' db'.
            (s' ≡ hop from to s) × Driven D id (p ++ hop_path from to s) (hop from to s) db₀ db')
          Never
          (when_in D now from id to metadata s db)
  unfolding when_in Driven-move
  when_in_next from to metadata p s db₀ db d may = elim (Bool-cases (state_eq s from)) [
    | inl here ↦
        let same : d.row.current_state ≡ from = d.left_in ∙ state_eq_sound s from here in
        rw here (
          Ends-bind _ _ _ db
            (transition_total D lawful available now id to metadata d.row db d.stored (rw same may))
            λ t' db' moved.
              Ends-pure t'.current_state db'
                ((Driven-move D moved).left_in, Driven-trans D d (Driven-move D moved)))
    | inr elsewhere ↦
        rw elsewhere
          (Ends-pure s db (refl, subst (λ q. Driven D id q s db₀ db) (sym (append-nil p)) d))
  ]

  drive_from_end :
      (gateway : GatewayProvider) (gateway_txn_id : String) (raw : Json) (t : Transaction) (db : Db)
      → find_txn id db ≡ some t
      → Ends
          (λ s' db'. Driven D id (route t.current_state) (target t.current_state) db db')
          Never
          (drive_from D now id gateway gateway_txn_id raw t.current_state db)
  unfolding drive_from
  drive_from_end gateway gateway_txn_id raw t db found =
      Ends-bind _ _ _ db
        (when_in_next initiated routed _ [] t.current_state db db (Driven-same D t found)
          (unfold allowed in refl))
        λ s₁ db₁ r₁. rw r₁.0 (
          Ends-bind _ _ _ db₁
            (when_in_next retry_pending routed _ _ _ db db₁ r₁.1 (unfold allowed in refl))
            λ s₂ db₂ r₂. rw r₂.0 (
              Ends-bind _ _ _ db₂
                (when_in_next routed processing _ _ _ db db₂ r₂.1 (unfold allowed in refl))
                λ s₃ db₃ r₃. rw r₃.0 (
                  Ends-bind _ _ _ db₃
                    (when_in_next processing success _ _ _ db db₃ r₃.1 (unfold allowed in refl))
                    λ s₄ db₄ r₄. rw r₄.0 (
                      Ends-mono _
                        (when_in_next success reconciled _ _ _ db db₄ r₄.1 (unfold allowed in refl))
                        (λ s₅ db₅ e r₅.
                          rw (← (hops_lem t.current_state).0, ← (hops_lem t.current_state).1) r₅.1)
                        (λ x db₅ e never. never)))))

  -- In a database that refuses no write, `driveToReconciled` on a stored transaction returns. It
  -- leaves a FAILED transaction as it was, and any other RECONCILED, moved through the states of
  -- `route` with one audit entry each; no other row and no other history has changed.
  pub drive_end :
      (gateway : GatewayProvider) (gateway_txn_id : String) (raw : Json) (t : Transaction) (db : Db)
      → t.id ≡ id
      → find_txn id db ≡ some t
      → Ends
          (λ u db'. Driven D id (route t.current_state) (target t.current_state) db db')
          Never
          (drive_to_reconciled D now t gateway gateway_txn_id raw db)
  unfolding drive_to_reconciled
  drive_end gateway gateway_txn_id raw t db own found =
      elim (Bool-cases (state_eq t.current_state reconciled)) [
        | inl done ↦
            let same : t.current_state ≡ reconciled =
              state_eq_sound t.current_state reconciled done in
            let kept = subst (λ s. Driven D id [] s db db) same (Driven-same D t found) in
            rw done (Ends-pure tt db (rw same kept))
        | inr moves ↦
            rw (moves, own)
              (Ends-bind _ _ _ db (drive_from_end gateway gateway_txn_id raw t db found)
                λ s' db' driven. Ends-pure tt db' driven)
      ]
