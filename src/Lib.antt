-- ===== src/Lib.antt =====
-- Verification of the Paya backend (backend/src): the services that split payments, refund them,
-- bill subscriptions, convert currencies, store events and deliver webhooks. They share no state;
-- each has its own tables and is a module.
--
-- Shared parts.
-- Prelude: library names, Boolean tests and lists over the native numbers, with the array methods
-- that the services call (`every`, `some`, `find`, `filter`).
-- Runtime.Action: an asynchronous method is a function from the state to a result and the next
-- state. A throw keeps what was written before it, since the services open no
-- transaction, but for `appendEvents`.
-- Runtime.Repository: a TypeORM repository is not code of this repository, so every service takes
-- it as a parameter with the laws that TypeORM documents for `findOne`, `find` and `save`.
-- Runtime.ListTable is an instance, with which the examples run. An insert can be refused by a
-- unique constraint; a lost connection is not modelled.
-- Runtime.Number: money and percentages are JavaScript numbers, IEEE doubles, taken as a parameter
-- with the laws of NaN. Its Value is a JavaScript value that is a number or the text of a decimal
-- column, with the `+` that joins texts. Counters and milliseconds are native numbers: they are
-- whole and stay far below 2^53.
-- Values of `new Date()`, `Date.now()` and `uuidv4()` are arguments of the functions that read them.
-- Logging, decorators and dependency injection are left out. Each handler runs as one request: of
-- requests that interleave only the order of whole handlers is covered, but for `appendEvent`, whose
-- calls may overlap. Loops are recursion on the lists that they run through; where one needs fuel,
-- the component says how much is enough.
-- Runtime.Sorting: ORDER BY of the database is an interface, an ascending permutation of the rows;
-- Runtime.InsertionSort is an instance for the examples.
--
-- Split: backend/src/payment-split/payment-split.service.ts and its entities. Types has the
-- entities, Validation `validateRecipients`, Create `createSplit`, Lifecycle `executeSplit`,
-- `cancelSplit` and `retryFailedDistributions`, Distribute the three distribution handlers, and
-- Milestones the two milestone handlers. Refunds is payment-split-refund.service.ts there, on the same
-- tables; Refunds.Outcomes is about its requests. Calls puts the handlers behind one type of requests.
-- Creation, Outcomes and DistributionOutcomes are about single requests, Moves about the changes of
-- a split and histories.
--
-- Events: backend/src/event-sourcing/services/event-store.service.ts with its entity and its
-- interfaces. Types has the row and the table, which is a parameter with its unique index on stream
-- and version. Append has `appendEvent`, `appendEvents`, `getCurrentStreamVersion`,
-- `initializeGlobalPosition` and the notification of subscribers, whose handlers are named by
-- numbers and whose calls are listed in `delivered`. Interleaving splits `appendEvent` at its two
-- `await`s into steps, so that any number of calls may overlap; Sequential is about one call on its
-- own and Batches about `appendEvents`. A version or position is a Counter: a number, or the text that
-- the driver returns for a bigint column, to which `+ 1` appends a digit; Versions is about the order
-- that this leaves. Read has `readStream` and `readAllEvents`. Replay is
-- about backend/src/event-sourcing/replay/event-replay.service.ts: `replayStream`, `replayAll` and
-- `getStreamStateAtVersion`. Their `while` is recursion on fuel, and for a stream that `appendEvent`
-- wrote fuel above the number of rows is enough, since each round but the last reads an event. Loop
-- is about that `while`, Streams about whole streams, and FromSnapshot has `replayFromSnapshot`. Snapshots has the three operations on
-- snapshots, and Subscribe the subscriptions, whose handlers may throw at the events that they are
-- given first.
--
-- Refund: backend/src/refund/refund.service.ts and its entities. Types has the entities, State the
-- reads and writes and `getMerchantPolicy`, Create `createRefund`, Process `processRefund`,
-- `failRefund` and `reverseRefund`, Disputes `createDispute`, `updateDispute` and `uploadEvidence`.
-- Calls puts the handlers behind one type of requests. Payouts and Moves are about histories of
-- requests, Outcomes and DisputeOutcomes about single ones. The parsing of dates and the addition of
-- days are those of JavaScript's `Date`, which the model takes as functions. A `findOne` of a policy
-- is the first row of the `find` with the same condition. The queries and reports are not modelled.
--
-- Webhook: backend/src/webhook/webhook-delivery.service.ts, webhook-queue.service.ts and
-- webhook.service.ts. RateLimit
-- has `checkRateLimit`; the map of the service is a function from webhooks to their windows, and an
-- assignment to a stored object is an update of the map. Bursts is about lists of its calls. Types
-- has the entities; Delivery has `deliverWebhook`, where the objects `delivery` and `webhook`, which
-- it changes in place, are part of the state, and the end of the POST is an argument; Queue has
-- `processDelivery`. Service has the operations on webhooks, `trigger` and `replay`, on the tables of
-- Queue; Triggers and Replays are about them. The payload templates are a function that `trigger`
-- takes, and the removal of a webhook is not modelled. The second attempts that the queue itself makes when a job throws are not
-- modelled, nor are response times, headers, the text of a signature and `retryDelivery`, which
-- nothing calls.
--
-- Subscription: backend/src/subscription/subscription.service.ts, with what it calls of
-- subscription-invoice.service.ts, subscription-plan.service.ts, subscription-scheduler.service.ts
-- and subscription-notification.service.ts there. Types has the entities, State the reads, writes
-- and queues, Plans the billing dates and the proration, Invoices the two invoices, Create
-- `createSubscription`, Changes the five requests of a merchant, and Billing the four handlers of
-- payments and trials; Calls puts them behind one type of requests. Periods is about the periods
-- that are billed: Handlers, Beginnings, Invoicing and PlanChanges each take some handlers,
-- Soundness has the invariant and Histories the lists of requests; Payments, Failures and Pauses
-- are about single handlers and runs of one. InvoiceStates has the changes of a stored invoice, and
-- Repayments is about lists of them. The queues are lists of waiting jobs. The setters of `Date`
-- are those of Runtime.Calendar. The rows that TypeORM joins are a parameter. Usage invoices, late
-- fees, the editing of plans, dunning and usage are not modelled.
--
-- Conversion: backend/src/conversion-engine/modules/conversion.service.ts and
-- risk-management.service.ts there. Types has the entity and what the services hand to each other,
-- Risk the risk management, whose maps are functions, and Services the other services of the engine,
-- as an interface: a call returns or throws, and changes a state of theirs. Execution has
-- `executeConversion`, where the object `conversion`, which is changed in place and saved between the
-- calls, is part of the state; Service has the other five operations. Risk.Laws is about one
-- assessment and Risk.Limits about the daily volumes; Execution.Lawful and Execution.Outcomes are
-- about how an execution ends, Calls and Creation about single requests, Retries and Volumes about
-- histories. An amount in a request is a number, and the amount
-- of a stored conversion that is added to the daily volume is the text of its column.
--
-- Auth: backend/src/auth/auth.service.ts and its entities. The state has the tables of users, refresh
-- tokens and reset tokens, and the mails handed to the mailer. Random tokens, generated ids and times are
-- arguments; bcrypt, SHA-256 and the signing of JWTs are functions of the setting, and
-- `update(where, set)` of TypeORM is an operation of TokenTable with its law. Each call runs as a
-- whole. `cleanupExpiredTokens` and the reading of JWT_ACCESS_EXPIRES_IN are left out.
--
-- Not modelled: reports and analytics; the reconciliation of refunds, dunning, projections and the
-- CQRS buses, which are open; the services behind the conversion engine, the cross-chain bridge and
-- the fraud detection, which mostly call exchanges, chains and a Python model; notifications and
-- gateways, which wrap third-party packages; the frontend, and the contracts, which are not
-- TypeScript.
pub mod Prelude
pub mod Runtime
pub mod Split
pub mod Subscription
pub mod Webhook
pub mod Auth
pub mod Conversion
pub mod Events
pub mod Refund
