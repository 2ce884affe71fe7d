-- ===== src/Payments/Invariant.antt =====
-- What every payment request keeps of the transactions: whatever the calls of the state machine and
-- the creation of a row keep.
use payment_orchestration_la.Common.{String, true, false, Bool, Option, none, some, List, [], ◌∷◌}
use payment_orchestration_la.Common.Effect.{Result, ok, err, Action, catch, ◌>>=◌, ◌>>◌}
use payment_orchestration_la.Common.Effect.Rules.{Ends}
use payment_orchestration_la.Common.Effect.Keeps.{
  Keeps, Ends-any, Keeps-bind, Keeps-pure, Keeps-throw, Keeps-gets, Keeps-if, Keeps-catch,
}
use payment_orchestration_la.Enums.{retry_pending, GatewayProvider, TransactionState}
use payment_orchestration_la.Entities.{Transaction}
use payment_orchestration_la.Database.{Exception}
use payment_orchestration_la.Redis.Store.{idempotency, Stored, processing_mark, completed, text}
use payment_orchestration_la.Redis.{redis_get}
use payment_orchestration_la.StateMachine.{Metadata, transition}
use payment_orchestration_la.Payments.World.{System, World, on_db, on_shared, call_adapter}
use payment_orchestration_la.Payments.Charge.{GatewayChargeResponse}
use payment_orchestration_la.Payments.Requests.{
  retry_metadata, CreateTransactionDto, new_transaction, creation_entry,
}
use payment_orchestration_la.Payments.Service.{
  on_redis, cache_completed, move, attempt, finish_success, finish_failed, settle, run_attempts,
  create_with, cache_existing, execute, replay_stored, replay, release, create,
}
use payment_orchestration_la.Payments.Controller.{with_header, checked, post_payment}

abbrev pub OnDb : (Y : System) → (Y.database.Db → Type 0) → World Y → Type 0
OnDb Y I w = I w.db

module _ (Y : System) (I : Y.database.Db → Type 0) where
  open Y use {database}

  pub db-Keeps :
      {A : Type 0} (m : Action database.Db Exception A) → Keeps I m → Keeps (OnDb Y I) (on_db Y m)
  unfolding on_db
  db-Keeps m h = record { kept = λ w i. ended w (m w.db) (h.kept w.db i) }
    where
      ended :
          {A : Type 0} (w : World Y) (o : Result Exception A × database.Db)
          → Ends (λ a db'. I db') (λ x db'. I db') o
          → Ends {X = Exception}
              (λ a w'. OnDb Y I w')
              (λ x w'. OnDb Y I w')
              (let (r, db') = o in (r, record w { db = db' }))
      ended w (ok a, db') e = record { holds = e.holds }
      ended w (err x, db') e = record { holds = e.holds }

  -- What keeps `I`: each call of the state machine, and the creation of a row, up to what follows.
  pub record IsKept : Type 1 where
    pub moves :
        (id : String) (to : TransactionState) (metadata : Metadata)
        → Keeps I (transition database Y.outside.now id to metadata)
    pub begins :
        (dto : CreateTransactionDto) (g : GatewayProvider) (gs : List GatewayProvider)
        (m : Transaction → Action (World Y) Exception Transaction)
        → ((saved : Transaction) → Keeps (OnDb Y I) (m saved))
        → Keeps (OnDb Y I) (
            on_db Y (database.insert_txn (new_transaction dto g gs)) >>= λ saved.
            on_db Y (database.insert_audit (creation_entry saved.id g)) >> m saved)

module _ (Y : System) (I : Y.database.Db → Type 0) (k : IsKept Y I)
    (dto : CreateTransactionDto) where
  abbrev J : World Y → Type 0
  J = OnDb Y I

  shared-Keeps : {A : Type 0} (m : Action _ Exception A) → Keeps J (on_shared Y m)
  unfolding on_shared
  shared-Keeps m = record { kept = λ w i. Ends-any (m w.shared).0 _ i }

  call-Keeps : (c : _) → Keeps J (call_adapter Y c)
  unfolding call_adapter
  call-Keeps c = record { kept = λ w i. record { holds = i } }

  move-Keeps : (id : String) (to : TransactionState) (md : Metadata) → Keeps J (move Y id to md)
  unfolding move
  move-Keeps id to md = db-Keeps Y I _ (k.moves id to md)

  cache-Keeps : (key : String) (t : Transaction) → Keeps J (cache_completed Y key t)
  unfolding cache_completed on_redis
  cache-Keeps key t = Keeps-bind _ _ (shared-Keeps _) λ done. Keeps-pure _

  attempt-Keeps : (id : String) (g : GatewayProvider) → Keeps J (attempt Y dto id g)
  unfolding attempt
  attempt-Keeps id g =
      Keeps-bind _ _ (move-Keeps _ _ _)
        λ t. Keeps-bind _ _ (move-Keeps _ _ _) λ u. Keeps-bind _ _ (call-Keeps _) λ v. Keeps-pure _

  success-Keeps :
      (id : String) (g : GatewayProvider) (a : _) → Keeps J (finish_success Y dto id g a)
  unfolding finish_success
  success-Keeps id g a =
      Keeps-bind _ _ (move-Keeps _ _ _)
        λ t. Keeps-bind _ _ (shared-Keeps _) λ u. Keeps-bind _ _ (cache-Keeps _ _) λ v. Keeps-pure _

  failed-Keeps : (id : String) (g : GatewayProvider) (a : _) → Keeps J (finish_failed Y dto id g a)
  unfolding finish_failed
  failed-Keeps id g a =
      Keeps-bind _ _ (move-Keeps _ _ _) λ t. Keeps-bind _ _ (cache-Keeps _ _) λ v. Keeps-pure _

  settle-Keeps :
      (id : String) (g : GatewayProvider)
      (f : GatewayChargeResponse × _ → Action (World Y) Exception Transaction)
      (a : GatewayChargeResponse × _)
      → ((b : GatewayChargeResponse × _) → Keeps J (f b))
      → Keeps J (settle Y dto id g f a)
  unfolding settle
  settle-Keeps id g f a h =
      Keeps-if _ _ _ (success-Keeps id g a) (Keeps-bind _ _ (shared-Keeps _) λ u. h a)

  run-Keeps :
      (id : String) (g : GatewayProvider) (rest : List GatewayProvider)
      → Keeps J (run_attempts Y dto id g rest)
  unfolding run_attempts
  run-Keeps id g [] =
      Keeps-bind _ _ (attempt-Keeps id g) λ a. settle-Keeps id g _ a λ b. failed-Keeps id g b
  run-Keeps id g (next ∷ rest) = Keeps-bind _ _ (attempt-Keeps id g) λ a.
      settle-Keeps id g
        (λ b. move Y id retry_pending (retry_metadata g b.0) >> run_attempts Y dto id next rest) a
        λ b. Keeps-bind _ _ (move-Keeps _ _ _) λ t. run-Keeps id next rest

  create_with-Keeps : (gs : List GatewayProvider) → Keeps J (create_with Y dto gs)
  unfolding create_with
  create_with-Keeps [] = Keeps-throw _
  create_with-Keeps (g ∷ gs) = k.begins dto g gs _ λ saved. run-Keeps saved.id g gs

  existing-Keeps : (t : Transaction) → Keeps J (cache_existing Y dto t)
  unfolding cache_existing
  existing-Keeps t = Keeps-bind _ _ (cache-Keeps _ _) λ u. Keeps-pure _

  found-Keeps :
      (o : Option Transaction) (n : Action (World Y) Exception Transaction)
      → Keeps J n
      → Keeps J (elim o as (λ x. Action (World Y) Exception Transaction) [
        | none ↦ n
        | some t ↦ cache_existing Y dto t
      ])
  found-Keeps none n h = h
  found-Keeps (some t) n h = existing-Keeps t

  execute-Keeps : Keeps J (execute Y dto)
  unfolding execute
  execute-Keeps =
      Keeps-bind _ _ (Keeps-gets _)
        λ o. found-Keeps o _ (Keeps-bind _ _ (shared-Keeps _) λ gs. create_with-Keeps gs)

  replay-Keeps : (o : Option Stored) → Keeps J (replay Y dto o)
  unfolding replay replay_stored
  replay-Keeps (some processing_mark) = Keeps-throw _
  replay-Keeps (some (completed t)) = Keeps-pure _
  replay-Keeps (some (text s)) = Keeps-throw _
  replay-Keeps none = Keeps-bind _ _ (Keeps-gets _) λ o. found-Keeps o _ (Keeps-throw _)

  release-Keeps : (x : Exception) → Keeps J (release Y dto x)
  unfolding release on_redis
  release-Keeps x = Keeps-bind _ _ (shared-Keeps _) λ n. Keeps-throw _

  taken-Keeps :
      (taken : Bool)
      → Keeps J (elim taken as (λ x. Action (World Y) Exception Transaction) [
        | true ↦ catch (execute Y dto) (release Y dto)
        | false ↦ on_redis Y (redis_get Y.client (idempotency dto.idempotency_key)) >>= replay Y dto
      ])
  unfolding on_redis
  taken-Keeps true = Keeps-catch _ _ execute-Keeps release-Keeps
  taken-Keeps false = Keeps-bind _ _ (shared-Keeps _) replay-Keeps

  pub create-Keeps : Keeps J (create Y dto)
  unfolding create on_redis
  create-Keeps = Keeps-bind _ _ (shared-Keeps _) taken-Keeps

module _ (Y : System) (I : Y.database.Db → Type 0) (k : IsKept Y I) where
  -- Whatever the calls of the state machine and the creation of a row keep, a posted payment keeps.
  pub post_payment-Keeps :
      (dto : CreateTransactionDto) (header : Option String)
      → Keeps (OnDb Y I) (post_payment Y dto header)
  unfolding post_payment checked
  post_payment-Keeps dto header =
      Keeps-if _ _ _ (Keeps-throw _) (create-Keeps Y I k (with_header header dto))
