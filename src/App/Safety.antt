-- ===== src/App/Safety.antt =====
-- What no sequence of calls can do to the transactions.
use payment_orchestration_la.Common.{ℕ, String, ◌≡◌, ◌⊎◌, some, List, [], ◌∷◌, subst}
use payment_orchestration_la.Common.Effect.{Result, ok, err}
use payment_orchestration_la.Common.Effect.Rules.{Ends}
use payment_orchestration_la.Common.Effect.Keeps.{Keeps, Keeps-bind}
use payment_orchestration_la.Enums.{TransactionState, success, reconciled}
use payment_orchestration_la.Enums.Graph.{Reach, success_settles}
use payment_orchestration_la.Entities.{Transaction}
use payment_orchestration_la.Database.{Exception, IsLawful}
use payment_orchestration_la.StateMachine.{Metadata, transition}
use payment_orchestration_la.StateMachine.Evolution.{
  Evolves, Evolves-refl, transition-Keeps, insert-Keeps, audit-Keeps,
}
use payment_orchestration_la.Routing.Config.{Env}
use payment_orchestration_la.Payments.Charge.{Outside}
use payment_orchestration_la.Payments.Invariant.{IsKept, db-Keeps, OnDb, post_payment-Keeps}
use payment_orchestration_la.Webhooks.Invariant.{OnTxns, poll-Keeps, hook-Keeps}
use payment_orchestration_la.App.{
  Platform, App, Call, pay, notify, work, system, world, inbox, serve, serve_all,
}

-- the state that an action leaves, however it ends
left_in :
    {S A : Type 0} (I : S → Type 0) (o : Result Exception A × S)
    → Ends (λ a s'. I s') (λ x s'. I s') o
    → I o.1
left_in I (ok a, s) h = h.holds
left_in I (err x, s) h = h.holds

module _ (P : Platform) (I : P.database.Db → Type 0)
    (moves : (now : ℕ) (id : String) (to : TransactionState) (md : Metadata)
      → Keeps I (transition P.database now id to md))
    (kept : (env : Env) (outside : Outside) → IsKept (system P env outside) I) where
  serve_keeps : (c : Call) (a : App P) → I a.db → I (serve P c a).db
  unfolding serve
  serve_keeps (pay env outside dto header) a i = left_in (OnDb (system P env outside) I) _ (
      (post_payment-Keeps (system P env outside) I (kept env outside) dto header).kept
        (world P env outside a) i)
  serve_keeps (notify env g r) a i =
      left_in (OnTxns P.database P.events P.client I) _
        ((hook-Keeps P.database P.events P.client I P.as_text P.crypto env g r).kept (inbox P a) i)
  serve_keeps (work now) a i =
      left_in (OnTxns P.database P.events P.client I) _
        ((poll-Keeps P.database P.events P.client I now P.as_text (moves now)).kept (inbox P a) i)

  -- Whatever each call of the state machine and each creation of a row keep, every sequence of
  -- calls of the service keeps.
  pub serve_all_keeps : (cs : List Call) (a : App P) → I a.db → I (serve_all P cs a).db
  unfolding serve_all
  serve_all_keeps [] a i = i
  serve_all_keeps (c ∷ cs) a i = serve_all_keeps cs (serve P c a) (serve_keeps c a i)

module _ (P : Platform) (lawful : IsLawful P.database) where
  -- However the calls of the service follow each other and however they end, on a lawful database:
  -- no transaction goes away, each one moves along allowed transitions only, and the audit log of
  -- each one only grows.
  pub serve_all-Evolves :
      (cs : List Call) (a : App P) → Evolves P.database a.db (serve_all P cs a).db
  serve_all-Evolves cs a =
      serve_all_keeps P (Evolves P.database a.db)
        (λ now id to md. transition-Keeps P.database lawful a.db now id to md)
        (λ env outside. record {
          moves = λ id to md. transition-Keeps P.database lawful a.db outside.now id to md;
          begins = λ dto g gs m h.
              Keeps-bind _ _ (db-Keeps _ _ _ (insert-Keeps P.database lawful a.db _)) λ saved.
                Keeps-bind _ _ (db-Keeps _ _ _ (audit-Keeps P.database lawful a.db _)) λ u. h saved;
        })
        cs a (Evolves-refl P.database a.db)

  -- A transaction that is SUCCESS is there after any calls of the service, on a lawful database, and
  -- is SUCCESS or RECONCILED: a payment that was made is never failed, retried or lost.
  pub paid_stays_paid :
      (cs : List Call) (a : App P) (id : String) (t : Transaction)
      → P.database.find_txn id a.db ≡ some t
      → t.current_state ≡ success
      → (t' : Transaction) × (P.database.find_txn id (serve_all P cs a).db ≡ some t')
        × ((t'.current_state ≡ success) ⊎ (t'.current_state ≡ reconciled))
  paid_stays_paid cs a id t found paid =
      let (t', found', reach) = (serve_all-Evolves cs a).kept id t found in
      (t', found', success_settles (subst (λ s. Reach s t'.current_state) paid reach))
