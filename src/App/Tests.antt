-- ===== src/App/Tests.antt =====
-- Runs of the service: everything in memory, and a signature that is the signed text itself.
use Prim.Native.Char.{code}
use Prim.Native.String.{String}
use payment_orchestration_la.Common.{
  ℕ, ◌≡◌, ◌≢◌, ◌⊎◌, refl, Bool, true, false, ◌&&◌, none, some, List, [], ◌∷◌, ◌↔◌, length, arith,
  str_eq, template, ◌==◌, if◌then◌else◌,
}
use payment_orchestration_la.Common.Effect.{ok, pure, ◌>>=◌, gets}
use payment_orchestration_la.Enums.{stripe, success, reconciled}
use payment_orchestration_la.Json.{Json, obj, field, end, str}
use payment_orchestration_la.Entities.{Transaction}
use payment_orchestration_la.Database.Memory.{memory, memory-IsLawful, memory-IsAvailable}
use payment_orchestration_la.Double.Fixed.{fixed}
use payment_orchestration_la.Redis.Tests.{unreachable, fallen_back}
use payment_orchestration_la.Routing.Config.{Env}
use payment_orchestration_la.Routing.Table.{table}
use payment_orchestration_la.StateMachine.Audit.{IsAudited}
use payment_orchestration_la.StateMachine.Evolution.{Evolves}
use payment_orchestration_la.StateMachine.Tests.{row}
use payment_orchestration_la.Payments.Tests.{outside, dto, seeded}
use payment_orchestration_la.Webhooks.Events.{Inbox}
use payment_orchestration_la.Webhooks.Memory.{event_table}
use payment_orchestration_la.Webhooks.Intake.{ingest}
use payment_orchestration_la.Webhooks.Signature.{Crypto, IsCrypto}
use payment_orchestration_la.Webhooks.Signature.Stripe.{header_of}
use payment_orchestration_la.Webhooks.Endpoints.{
  HookRequest, hook, is_unset, rejected, accepted, event_of,
}
use payment_orchestration_la.Webhooks.Authentic.{Authentic, hook-Authentic, signed_stripe_accepted}
use payment_orchestration_la.App.{Platform, App, Call, pay, notify, work, serve_all}
use payment_orchestration_la.App.Process.{
  Turn, Request, accept_payment, accept_webhook, resume, start_worker, work as work_on, stop_worker,
  take_turns, fresh_process,
}
use payment_orchestration_la.App.Process.Safety.{interleaved-Evolves, interleaved_paid_stays_paid}
use payment_orchestration_la.App.Process.Exclusion.{mutual_exclusion}
use payment_orchestration_la.App.Process.{payment_request}
use payment_orchestration_la.Async.Lens.{zoom}
use payment_orchestration_la.Payments.Tasks.{
  post_payment_task, execute_task, create_task, locked_task,
}
use payment_orchestration_la.Payments.Service.{on_redis}
use payment_orchestration_la.Payments.World.{on_shared}
use payment_orchestration_la.Payments.Controller.{with_header}
use payment_orchestration_la.Routing.Engine.{redis}
use payment_orchestration_la.Redis.{redis_set, mock_set}
use payment_orchestration_la.Redis.Store.{has}
use payment_orchestration_la.Async.{done, holding, await, within, rescue}
use payment_orchestration_la.Async.{◌>>=◌ as then}
use payment_orchestration_la.App.Trail.{LogsAll, serve_all-IsAudited}

abbrev codes : String → List ℕ
codes String.[] = []
codes (String.◌∷◌ c s) = code c ∷ codes s

abbrev same_codes : List ℕ → List ℕ → Bool
same_codes [] [] = true
same_codes (m ∷ ms) (n ∷ ns) = (m == n) && same_codes ms ns
same_codes _ _ = false

same_codes_iff : (a b : List ℕ) → length a ≡ length b → (same_codes a b ≡ true) ↔ (a ≡ b)
same_codes_iff [] [] e = (λ h. refl, λ h. refl)
same_codes_iff [] (n ∷ ns) e = absurd (ground arith)
same_codes_iff (m ∷ ms) [] e = absurd (ground arith)
same_codes_iff (m ∷ ms) (n ∷ ns) e = ground (arith, (same_codes_iff ms ns))

abbrev as_text : Json → String
as_text j = elim j [ str s ↦ s | _ ↦ "" ]

abbrev crypto : Crypto
crypto = record {
  hmac_sha256 = λ secret t. t;
  sha512 = λ t. t;
  from_hex = codes;
  timing_safe_equal = same_codes;
  lower = λ t. t;
  show = as_text;
}

crypto-IsCrypto : IsCrypto crypto
crypto-IsCrypto = record { timing_safe_equal_iff = same_codes_iff }

abbrev platform : Platform
platform = record {
  database = memory;
  stats = table;
  client = unreachable;
  events = event_table;
  double = fixed;
  crypto = crypto;
  as_text = as_text;
}

abbrev env : Env
env name = if str_eq name "STRIPE_WEBHOOK_SECRET" then some "whsec_1" else none

abbrev body : Json
body = obj (field "id" (str "evt_1") (field "type" (str "charge.succeeded") end))

-- the body of the test, signed at the time 1
abbrev signed : HookRequest
signed = record { body = body; raw_body = some "{}"; signature = some "t=1,v1=1.{}" }

abbrev app : List Transaction → App platform
app rows = record {
  db = record { rows = rows; entries = [] };
  stats = seeded stripe ∷ [];
  redis = fallen_back;
  events = [];
  charged = [];
}

-- a payment, a webhook of its gateway, and a round of the worker
abbrev calls : List Call
calls = pay env outside dto none ∷ notify env stripe signed ∷ work 9 ∷ []

-- two payments with one key and a webhook, whose awaits take turns with the worker's
abbrev early : List Turn
early =
    start_worker 1
    ∷ accept_payment env outside dto none
    ∷ accept_webhook env stripe signed
    ∷ accept_payment env outside dto none
    ∷ resume 0
    ∷ resume 2
    ∷ resume 1
    ∷ work_on 2
    ∷ resume 2
    ∷ []

abbrev late : List Turn
late =
    resume 0 ∷ work_on 3 ∷ resume 2 ∷ resume 1 ∷ work_on 4 ∷ resume 2 ∷ stop_worker ∷ work_on 5 ∷ []

interleaved-Evolves_example :
    Evolves memory
      (take_turns platform early (fresh_process platform (app []))).app.db
      (take_turns platform late
        (take_turns platform early (fresh_process platform (app [])))).app.db
interleaved-Evolves_example = interleaved-Evolves platform memory-IsLawful early late (app [])

-- requests that have come in and not yet run
abbrev waiting : List Turn
waiting = accept_payment env outside dto none ∷ accept_webhook env stripe signed ∷ []

interleaved_paid_stays_paid_example :
    (t' : Transaction) × (memory.find_txn "t1"
        (take_turns platform late
          (take_turns platform waiting (fresh_process platform (app (row success ∷ []))))).app.db
      ≡ some t')
    × ((t'.current_state ≡ success) ⊎ (t'.current_state ≡ reconciled))
unfolding take_turns fresh_process
interleaved_paid_stays_paid_example =
    interleaved_paid_stays_paid platform memory-IsLawful waiting late (app (row success ∷ [])) "t1"
      (row success) refl refl

memory-LogsAll : LogsAll memory
memory-LogsAll e s = memory-IsAvailable.insert_audit_total e s

nothing-IsAudited : IsAudited memory (app []).db
nothing-IsAudited id t found = absurd (ground arith)

serve_all-IsAudited_example : IsAudited memory (serve_all platform calls (app [])).db
serve_all-IsAudited_example =
    serve_all-IsAudited platform memory-IsLawful memory-LogsAll calls (app []) nothing-IsAudited

abbrev inbox : Inbox memory event_table unreachable
inbox = record { db = (app []).db; events = []; redis = fallen_back }

hook-Authentic_example :
    (hook as_text memory event_table unreachable crypto env stripe signed inbox
      ≡ (ok rejected, inbox))
    ⊎ (Authentic crypto stripe "whsec_1" signed
        × (hook as_text memory event_table unreachable crypto env stripe signed inbox
            ≡ (ingest memory event_table unreachable (event_of as_text stripe body true)
                  >>= λ result. pure (accepted result.duplicate))
                inbox))
unfolding is_unset
hook-Authentic_example =
    hook-Authentic crypto crypto-IsCrypto env as_text memory event_table unreachable stripe
      "whsec_1" signed inbox (refl, refl)

signed_stripe_accepted_example :
    hook as_text memory event_table unreachable crypto env stripe
      (record { body = body; raw_body = some "{}"; signature = some (header_of "1" "1.{}") })
      inbox
    ≡ (ingest memory event_table unreachable (event_of as_text stripe body true) >>= λ result.
          pure (accepted result.duplicate))
        inbox
unfolding template is_unset
signed_stripe_accepted_example =
    signed_stripe_accepted crypto crypto-IsCrypto env as_text memory event_table unreachable
      "whsec_1" "{}" "1" "1.{}" body inbox (refl, refl) ((λ e. omega arith), tt)
      ((λ e. omega arith), tt)
      ((λ e. omega arith), ((λ e. omega arith), ((λ e. omega arith), ((λ e. omega arith), tt))))
      ((λ e. omega arith), ((λ e. omega arith), ((λ e. omega arith), ((λ e. omega arith), tt))))
      refl

-- two requests with one key: the first has taken the lock, the second has been refused
abbrev racing : List Turn
racing =
    accept_payment env outside dto none
    ∷ accept_payment env outside dto none
    ∷ resume 0
    ∷ resume 1
    ∷ []

abbrev under_way : List (Request platform)
under_way = (take_turns platform racing (fresh_process platform (app []))).requests

abbrev first_of_two : List (Request platform) → Request platform
first_of_two (t ∷ ts) = t
first_of_two [] = done (ok tt)

abbrev second_of_two : List (Request platform) → Request platform
second_of_two (t ∷ ts) = first_of_two ts
second_of_two [] = done (ok tt)

first_holds : holding (first_of_two under_way) ≡ some "k1"
unfolding take_turns payment_request zoom post_payment_task then ◌>>=◌ on_redis on_shared redis
    redis_set mock_set has await within rescue execute_task gets with_header create_task locked_task
    holding fresh_process
first_holds = refl

mutual_exclusion_example : holding (second_of_two under_way) ≢ some "k1"
unfolding take_turns fresh_process holding
mutual_exclusion_example =
    mutual_exclusion platform racing (app []) [] [] [] (first_of_two under_way)
      (second_of_two under_way) "k1" refl refl first_holds
