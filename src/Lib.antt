-- ===== src/Lib.antt =====
-- Verification of the subscription billing backend.
--
-- The program bills subscriptions on Stellar. A worker asks src/services/billing.service.ts which
-- subscriptions are due and runs one billing cycle for each: it finds or makes the payment of the
-- period, collects it through the subscription contract (src/services/soroban-billing.service.ts
-- over src/lib/soroban.ts) or, in test mode, through src/services/payment.service.ts, moves the
-- subscription to its next period, and tells the merchant's endpoints by
-- src/services/webhook.service.ts. A failure counts a retry, or starts a grace period at whose end
-- the subscription is cancelled.
--
-- Files, with the code that they model:
--   Dates, Idempotency   src/lib/date-utils.ts, src/lib/billing-period.ts, src/lib/idempotency.ts
--   Store, Prisma        the tables of prisma/schema.prisma and the writes to them
--   World                the state of the deployment, src/config.ts, src/queues/index.ts, and what is outside
--   Webhooks             src/services/webhook.service.ts, src/lib/webhook-crypto.ts, src/lib/json.ts
--   Outcome              src/lib/billing-outcome.ts
--   Soroban              src/lib/soroban.ts
--   SorobanBilling       src/services/soroban-billing.service.ts
--   Payments             src/services/payment.service.ts
--   Billing              src/services/billing.service.ts
--   Subscriptions        the handlers of src/routes/subscriptions.ts that write
--   Normalize, Indexer   src/lib/tx-hash.ts, src/lib/chain-event-types.ts, src/lib/event-topic.ts,
--                        src/services/indexer.validators.ts, src/services/indexer.service.ts and
--                        src/services/indexer.poller.ts
--   Http                 src/lib/pagination.ts and what a route answers with
--   Routes               src/middleware/auth.ts and the other handlers of src/routes
--   Queues               what BullMQ documents of the queues of src/queues/index.ts
--   Scheduler            src/workers/billing.worker.ts, src/workers/webhook.worker.ts, src/scheduler.ts
--   Stripe               src/lib/webhook-payload.ts
--   System               all of these as operations on one world, and runs of them
--   Process              asynchronous functions by their turns, from one `await` to the next
--   Billing/Turns        src/services/billing.service.ts and what it awaits, by their turns
--   System/Pool          runs of the billing engine that interleave at their turns
-- The children of a file hold its theorems: Billing/Charges and Billing/Keys what a run may send
-- and store, Billing/Branches its branches, Billing/Settled, Billing/Collected and Billing/Again a
-- collection and its repetition, Billing/Failure and Billing/Renewal what becomes of the
-- subscription, Webhooks/Posted, Webhooks/Deliver, Webhooks/Emit and Webhooks/Signature the events,
-- Soroban/Poll the wait, SorobanBilling/Recorded the outcome of the contract, Subscriptions/Created
-- and Subscriptions/Changes what the routes make of a row, Scheduler/Queued the queue after a tick,
-- Billing/Billed a run without a failure, Billing/Attempted every attempt at a payment and a run for
-- a period that is paid, Billing/Ledger the payments that a run leaves alone,
-- Billing/Expired the end of grace periods, Indexer/Table and Indexer/Poll the mirror of chain
-- events as a finite map, Routes/Access what the middleware lets through, Routes/Plans/Offered,
-- Routes/Endpoints/Silent and Routes/Wallets/Proved the rows that routes make, Routes/Pages the
-- length of lists, Routes/Merchants/Revenue the revenue of a merchant by days, Routes/Health/Healthy
-- when the program reports that it is well. Billing/Frame
-- and System/Walk walk through the code once for every relation that its writes respect;
-- System/Sound, System/Periods, System/Ledger and System/Charges use that walk for runs of the
-- whole program. Billing/Turns/Alone compares a run that no other interrupts with the functions of
-- Billing, Billing/Turns/Frame and Billing/Turns/Ledger walk through its turns, and the children of
-- System/Pool use that walk for every interleaving.
-- Billing/Idle follows a payment from PROCESSING to what it is settled as, and System/Idle does for
-- runs of the whole program.
-- Action, Steps and Frames are the language of asynchronous functions: an action takes the world
-- and gives a value or an error with the world after it, and what was written before an error
-- stays written. Examples and its children hold one concrete deployment and the theorems at it.
--
-- A function of the source has the name of its model in another spelling: processBillingCycle is
-- process_billing_cycle. A function that is long in the source is cut at its branches into parts
-- that call each other in order. A table is the list of its rows, and an instant the number of
-- milliseconds since 1970.
--
-- Outside the model, as parameters in World.Outside: the Stellar SDK and network, HMAC, the HTTP
-- client, the queue, and the identifiers of the database. Each answer of the network may depend on
-- the number of calls before it. A theorem that needs more of them says so: a queue that adds
-- a job unless it holds one with its id, or rejects it (AddsOnce, of Queues, as BullMQ documents for
-- custom ids), a network that does not reject with the model's own error (Answers) or with the
-- program's (IsForeign). A topic of an event is an object of the SDK, of which the model has the
-- properties that the code reads.
--
-- Fuel: the wait of invokeAsAdmin is bounded by the clock, which moves by at least the pause in
-- each round, so 42 rounds cover its 60 seconds, as Soroban.Poll shows. Dates need no fuel beyond
-- the number of years that the days can hold.
--
-- Assumptions: local time is UTC, as in the container; dates lie after 1970; a database error
-- other than a missing row, a violated unique column or, in the routes of plans, a number of more
-- than 32 bits does not happen; operations other than the billing runs and the cancellations of
-- expired grace periods happen all at once, and a call of the database is atomic. Rows are added
-- in the order of their creation, so the newest are the last. Strings are cut and counted in
-- characters and not in UTF-16 units; trim and toLowerCase are those of ASCII texts, as hashes
-- are. A number in a request body is an integer that is not negative.
--
-- Not modelled: logging, the set-up of the HTTP layer, and the helpers of src/lib that nothing
-- calls but webhook-payload.ts. The arithmetic of a merchant's revenue is a parameter. Names,
-- descriptions and metadata of plans have no column here.
pub mod Prelude
pub mod Dates
pub mod Idempotency
pub mod Store
pub mod World
pub mod Action
pub mod Process
pub mod Steps
pub mod Frames
pub mod Webhooks
pub mod Prisma
pub mod Outcome
pub mod Soroban
pub mod SorobanBilling
pub mod Payments
pub mod Billing
pub mod Subscriptions
pub mod Queues
pub mod Scheduler
pub mod Normalize
pub mod Stripe
pub mod Indexer
pub mod Http
pub mod Routes
pub mod System
pub mod Examples
