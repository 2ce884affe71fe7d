-- ===== src/App/Trail.antt =====
-- The audit trail of the whole service.
use payment_orchestration_la.Common.{
  ℕ, ◌∷◌, [], ◌++◌, String, ◌≡◌, refl, inl, inr, List, arith, sym, subst, ap, ◌∙◌, text_cases,
}
use payment_orchestration_la.Common.Effect.{Action, ◌>>=◌, ◌>>◌}
use payment_orchestration_la.Common.Effect.Rules.{Ends, Never, Ends-bind, Ends-mono}
use payment_orchestration_la.Common.Effect.Keeps.{Keeps}
use payment_orchestration_la.Enums.{GatewayProvider, TransactionState}
use payment_orchestration_la.StateMachine.{Metadata, transition}
use payment_orchestration_la.Entities.{Transaction, AuditLog}
use payment_orchestration_la.Database.{Database, Exception, IsLawful, Inserted, Logged}
use payment_orchestration_la.StateMachine.Audit.{
  IsDated, IsAudited, RowIsAudited, transition-IsAudited,
}
use payment_orchestration_la.Payments.World.{System, World, on_db, Ends-on_db}
use payment_orchestration_la.Payments.Requests.{
  CreateTransactionDto, new_transaction, creation_entry,
}
use payment_orchestration_la.Payments.Invariant.{OnDb}
use payment_orchestration_la.App.{Platform, App, Call, system, serve_all}
use payment_orchestration_la.App.Safety.{serve_all_keeps}

-- A database that refuses no entry of the audit log.
abbrev pub LogsAll : Database → Type 0
LogsAll D =
    (e : AuditLog) (db : D.Db) → Ends (λ u db'. Logged D e db db') Never (D.insert_audit e db)

module _ (D : Database) where
  created-IsAudited :
      (dto : CreateTransactionDto) (g : GatewayProvider) (gs : List GatewayProvider)
      (t : Transaction) (db db₁ db₂ : D.Db)
      → IsAudited D db
      → Inserted D (new_transaction dto g gs) t db db₁
      → Logged D (creation_entry t.id g) db₁ db₂
      → IsAudited D db₂
  unfolding new_transaction creation_entry
  created-IsAudited dto g gs t db db₁ db₂ audited i l j u found = elim (text_cases j t.id) [
    | inl same ↦
        let it : t ≡ u = cc (i.stored, l.same_txn j, found, same) in
        subst (λ k. RowIsAudited D db₂ k u) (sym same)
          (subst (RowIsAudited D db₂ t.id) it (record {
            leads =
                rw
                  (
                    l.appended
                        ∙ ap (λ es. es ++ creation_entry t.id g ∷ [])
                            (i.same_history t.id ∙ i.unlogged),
                    ap (λ r. r.current_state) i.returned,
                  )
                  (refl, refl, refl);
            dated = subst IsDated (sym i.returned) (inr (ground arith, refl));
          }))
    | inr differ ↦
        let h = audited j u (sym (l.same_txn j ∙ i.others j differ) ∙ found) in
        record { leads = rw (l.others j differ, i.same_history j) h.leads; dated = h.dated }
  ]

module _ (Y : System) (lawful : IsLawful Y.database) (logs : LogsAll Y.database) where
  begins-IsAudited :
      (dto : CreateTransactionDto) (g : GatewayProvider) (gs : List GatewayProvider)
      (m : Transaction → Action (World Y) Exception Transaction)
      → ((saved : Transaction) → Keeps (OnDb Y (IsAudited Y.database)) (m saved))
      → Keeps (OnDb Y (IsAudited Y.database)) (
          on_db Y (Y.database.insert_txn (new_transaction dto g gs)) >>= λ saved.
          on_db Y (Y.database.insert_audit (creation_entry saved.id g)) >> m saved)
  begins-IsAudited dto g gs m h = record {
    kept = λ w audited.
        Ends-bind (λ t w₁. Inserted Y.database (new_transaction dto g gs) t w.db w₁.db) _ _ w
          (Ends-on_db Y _ w (
            Ends-mono _ (lawful.insert_txn_lem (new_transaction dto g gs) w.db)
              (λ t db e done. done)
              (λ x db e same. subst (IsAudited Y.database) (sym same) audited)))
          λ t w₁ i.
            Ends-bind (λ u w₂. Logged Y.database (creation_entry t.id g) w₁.db w₂.db) _ _ w₁
              (Ends-on_db Y _ w₁ (
                Ends-mono _ (logs (creation_entry t.id g) w₁.db) (λ u db e done. done)
                  (λ x db e never. absurd never)))
              λ u w₂ l.
                (h t).kept w₂
                  (created-IsAudited Y.database dto g gs t w.db w₁.db w₂.db audited i l);
  }

-- However the calls of the service follow each other and however they end, on a lawful database
-- that refuses no audit entry: the audit entries of each transaction lead from its creation to its
-- state by allowed moves, and the RECONCILED transactions, and no others, have a time of
-- reconciliation.
pub serve_all-IsAudited :
    (P : Platform) (lawful : IsLawful P.database) (logs : LogsAll P.database) (cs : List Call)
    (a : App P)
    → IsAudited P.database a.db
    → IsAudited P.database (serve_all P cs a).db
serve_all-IsAudited P lawful logs cs a audited =
    serve_all_keeps P (IsAudited P.database) (λ now id to md. moves now id to md)
      (λ env outside. record {
        moves = λ id to md. moves outside.now id to md;
        begins = begins-IsAudited (system P env outside) lawful logs;
      })
      cs a audited
  where
    moves :
        (now : ℕ) (id : String) (to : TransactionState) (md : Metadata)
        → Keeps (IsAudited P.database) (transition P.database now id to md)
    moves now id to md = record {
      kept = λ db i. transition-IsAudited P.database lawful now id to md db i;
    }
