-- ===== src/Lib.antt =====
-- A model of the payment orchestration service (src/), and what is proved of it.
--
-- The service takes a payment request, ranks the gateways by success rate, cost and latency, and
-- charges them in that order until a charge succeeds within 1500 ms. Redis holds a lock and then
-- the answer for each idempotency key, Postgres the transactions, their audit log, the statistics
-- of the gateways and the webhook events. Every change of a transaction's state goes through one
-- method of the state machine.
--
-- - Common: names of the library, the Boolean tests, lists; Common/Effect is the result of a call
--   that changes a state and may throw, Common/Effect/Rules and Common/Effect/Keeps the rules on
--   how a call ends.
-- - Enums, Entities: src/common/enums/transaction-state.enum.ts and the entities. Enums/Graph is
--   the reachability of the states. Json is the JSON that the code reads and stores.
-- - Database: what the services use of TypeORM, as an interface with laws; a statement may be
--   refused, and then changes nothing. Database/Memory is an instance.
-- - StateMachine: `transition` of src/transactions/state-machine.service.ts.
--   StateMachine/Transition says how a call ends, StateMachine/Audit what holds of the audit log
--   between the calls, and StateMachine/Evolution what a call can do to the rows and to the audit
--   log.
-- - Async: an `async` method as its sequence of awaits, at each of which other methods may run.
--   Async/Rules says what every step does, Async/Keeping which steps keep a condition,
--   Async/Bounded how many awaits there are, Async/Alone when a method that nothing interrupts is
--   an action, Async/Locks which locks it holds, and Async/Lens lets a method work on a part of the
--   state.
-- - Database/Schema: src/database/migrations/1751600000000-InitSchema.ts, and
--   Database/Schema/Columns the columns that the entities declare. Database/Schema/Rows is about the
--   rows that the tables hold.
-- - Redis: src/redis/redis.service.ts, with ioredis as an interface whose calls may throw;
--   Redis/Store is `mockStore`, a key being its template rather than its text. Redis/Mock and
--   Redis/Lock are about the service in fallback mode, Redis/Quiet says
--   which of its calls free no lock, and Redis/Lifecycle is its start and its end.
-- - Double: the IEEE doubles of the scores, as an interface; Double/Fixed is an instance.
-- - Routing: src/gateways/routing-engine.service.ts: Routing/Config is the environment,
--   Routing/Score the arithmetic, Routing/Engine the three public methods, Routing/Stats the table
--   of statistics as an interface and Routing/Table an instance; Routing/Ranking, Routing/Breaker,
--   Routing/Effects, Routing/Counted and Routing/Recorded have the theorems, Routing/Ranked on the
--   whole of `getRankedGateways`.
--   Routing/Endpoint is src/gateways/gateways.controller.ts.
-- - Adapters: src/gateways/adapters/. Adapters/Stripe, Adapters/Razorpay, Adapters/Payu and
--   Adapters/Upi are the charges, with the requests that they send; `fetch`, the timers, uuid and
--   what they use of Node's crypto and Buffer are the record `Web`. Adapters/Decimal is the text of
--   an amount, and Adapters/Decimal/Suffix is about its last two digits; Adapters/Hundredths divides
--   an amount by 100 as a double and rounds it to two places. Adapters/Online puts the
--   adapters behind the payment service. Adapters/Simulated says which charges are simulated, with
--   Adapters/Simulated/Endings on how these end; Adapters/Live says what a success of the others
--   rests on, with Adapters/Live/Reading on how an answer is read, Adapters/Latency what a charge
--   reports, and Adapters/Sandbox how payments through the adapters end. Adapters/Amount is about
--   the amounts in the requests.
-- - Payments: src/transactions/transactions.service.ts. Payments/Charge is the adapter and the race
--   with the time limit, Payments/Requests what `create` builds, Payments/World the state and
--   Payments/Service `create` itself. Payments/Attempts describes the failover loop plainly;
--   Payments/Row, Payments/Steps and Payments/Failover compare the loop with that description, and
--   Payments/Create has the theorems on a request. Payments/Fallback and Payments/Lock follow the
--   idempotency key through a first request, Payments/Stored a request whose row exists already,
--   and Payments/Controller is src/transactions/transactions.controller.ts. Payments/Invariant
--   lifts what each call of the state machine keeps to whole requests. Payments/Tasks and
--   Routing/Tasks are the same methods await by await. Payments/Tasks/Alone is about a request that
--   nothing interrupts, Payments/Tasks/Each lifts what each call of a request does to its awaits,
--   Payments/Tasks/Keeping does so for the transactions, and Payments/Tasks/Locking and
--   Payments/Tasks/Exclusion for the lock of the key.
-- - Webhooks: src/webhooks/. Webhooks/Intake is `ingest` and `pushEvent`, Webhooks/Payload and
--   Webhooks/Worker the reconciliation worker, Webhooks/Events the table of events as an interface
--   and Webhooks/Memory an instance. Webhooks/Path and Webhooks/Drive follow a transaction to
--   RECONCILED, Webhooks/Process is about one event, Webhooks/Delivery about repeated deliveries.
--   Webhooks/Endpoints is src/webhooks/webhooks.controller.ts and Webhooks/Signature its signature
--   checks, with Webhooks/Signature/Header and Webhooks/Signature/Stripe on the header of Stripe;
--   Webhooks/Authentic is about who is let in, and Webhooks/Invariant lifts what each call of the
--   state machine keeps to webhooks and to rounds of the worker. Webhooks/Tasks is intake and worker
--   await by await, with Webhooks/Tasks/Alone, Webhooks/Tasks/Each, Webhooks/Tasks/Keeping and
--   Webhooks/Tasks/Locking about it in the same way, and Webhooks/Loop the loop of the worker from its start to its end, which Webhooks/Loop/Stops is about.
-- - App: the service as a whole, which serves payment requests, webhooks and rounds of the worker
--   in any order on one database. App/Safety and App/Trail are about any sequence of calls.
--   App/Process is the same service on the event loop: each turn runs a request or the worker up to
--   its next await. App/Process/Safety is about the transactions in any interleaving,
--   App/Process/Apart and App/Process/Exclusion about the locks, App/Process/Alone about a request
--   that nothing interrupts.
--
-- The failover loop is structural recursion on the gateways that are left, and everything else is
-- total as well. The digits of an amount are the one use of fuel: the amount itself, which is at
-- least the number of its digits. Amounts, counts and latencies are natural numbers, and a total of
-- attempts up to 2 ^ 53 is exact as a double. Log lines are left out, and so are the waits: a
-- charge is a time and an answer, a timer of 1500 ms goes off at a time that is a parameter. Calls
-- of App follow one another; in App/Process their awaits interleave, where a transaction of the
-- database is one await, since it locks the row, and so is a call of the Redis service. A charge is
-- one await too: the race with the time limit is decided when it ends. Redis/Lock is about any
-- sequence of Redis calls of other requests.
--
-- Not modelled: the connection settings, the wiring of NestJS with the health check, and the manual
-- script. An amount is taken as a safe integer, up to 2 ^ 53: above it JavaScript writes fewer digits
-- than the number has. The division by 100 for PayU is that of doubles. What PostgreSQL does with the
-- statements of the migration is outside the program; Database/Schema/Rows says which values a column
-- holds.
pub mod Common
pub mod Async
pub mod Enums
pub mod Json
pub mod Entities
pub mod Database
pub mod StateMachine
pub mod Redis
pub mod Double
pub mod Routing
pub mod Payments
pub mod Webhooks
pub mod Adapters
pub mod App
