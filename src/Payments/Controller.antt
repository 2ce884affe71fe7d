-- ===== src/Payments/Controller.antt =====
-- transactions/transactions.controller.ts, with findOne and history of
-- transactions/transactions.service.ts. A key that is undefined is the empty text.
use payment_orchestration_la.Common.{
  String, ◌≡◌, false, Option, none, some, List, str_eq, if◌then◌else◌, ap, sym, subst, ◌∙◌,
}
use payment_orchestration_la.Common.Effect.{ok, Action, throw, gets, or_throw, ◌>>=◌}
use payment_orchestration_la.Common.Effect.Rules.{Ends, Ends-mono}
use payment_orchestration_la.Entities.{Transaction, AuditLog}
use payment_orchestration_la.Database.{Exception, bad_request, not_found}
use payment_orchestration_la.Redis.Store.{idempotency}
use payment_orchestration_la.Redis.Mock.{IsMock, held}
use payment_orchestration_la.Payments.World.{System, World}
use payment_orchestration_la.Payments.Requests.{CreateTransactionDto}
use payment_orchestration_la.Payments.Service.{create}
use payment_orchestration_la.Payments.Create.{create_replays}
use payment_orchestration_la.Payments.Lock.{create_frees_key}

-- `if (headerKey) { dto.idempotencyKey = headerKey; }`
unfoldable pub with_header : Option String → CreateTransactionDto → CreateTransactionDto
with_header none dto = dto
with_header (some key) dto = if str_eq key "" then dto else record dto { idempotency_key = key }

module _ (Y : System) where
  unfoldable pub checked : CreateTransactionDto → Action (World Y) Exception Transaction
  checked dto =
      if str_eq dto.idempotency_key ""
      then throw (bad_request "Idempotency-Key header or idempotencyKey body field is required")
      else create Y dto

  unfoldable pub post_payment :
      CreateTransactionDto → Option String → Action (World Y) Exception Transaction
  unfolding with_header checked
  post_payment dto header = checked (with_header header dto)

  unfoldable pub find_payment : String → Action (World Y) Exception Transaction
  find_payment id = gets (λ w. Y.database.find_txn id w.db) >>= λ txn.
      or_throw txn (not_found "transaction not found")

  unfoldable pub payment_history : String → Action (World Y) Exception (List AuditLog)
  payment_history id = gets (λ w. Y.database.history id w.db)

  keyed : String → CreateTransactionDto → CreateTransactionDto
  keyed key dto = record dto { idempotency_key = key }

  post_with_key :
      (key : String) (dto : CreateTransactionDto) (w : World Y)
      → str_eq key "" ≡ false
      → post_payment dto (some key) w ≡ create Y (keyed key dto) w
  unfolding post_payment with_header checked keyed
  post_with_key key dto w some_key =
      ap (λ b. checked (if b then dto else keyed key dto) w) some_key
      ∙ ap
          (λ b.
            (if b
                then throw
                    (bad_request "Idempotency-Key header or idempotencyKey body field is required")
                else create Y (keyed key dto))
              w)
          some_key

  -- A first request with the header `key`, with Redis in fallback mode and whatever the database
  -- refuses and the adapters answer: if it returns a transaction, every later request with that
  -- header, whatever its body, is answered with the same transaction, changes nothing and charges
  -- nobody; if it throws, the key is free for a retry.
  pub post_payment_idempotent :
      (key : String) (dto again : CreateTransactionDto) (w : World Y)
      → str_eq key "" ≡ false
      → IsMock Y.client w.shared.redis
      → held Y.client (idempotency key) w.shared.redis ≡ none
      → Ends
          (λ t w'. post_payment again (some key) w' ≡ (ok t, w'))
          (λ x w'. held Y.client (idempotency key) w'.shared.redis ≡ none)
          (post_payment dto (some key) w)
  unfolding keyed
  post_payment_idempotent key dto again w some_key mock free =
      subst (Ends _ _) (sym (post_with_key key dto w some_key)) (
        Ends-mono _ (create_frees_key Y (keyed key dto) w mock free)
          (λ t w' e cached.
            post_with_key key again w' some_key
            ∙ create_replays Y (keyed key again) t w' cached.0 cached.1)
          (λ x w' e freed. freed))
