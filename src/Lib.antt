-- ===== src/Lib.antt =====
-- dabdub: a payment gateway for merchants on Stellar. Customers pay in USDC or lumens, the backend
-- (backend/src, a NestJS application) watches the payments, settles them in fiat through a banking
-- partner, and tells merchants by webhook and e-mail. This library models the backend's services.
--
-- Parts, and the code that they model:
-- - Platform/Entities: the rows that several services share (payments/entities, settlements/entities,
--   webhooks/entities, all under backend/src), with their units.
-- - Platform/Actions: what a service method is here. Each `await` on the database, a queue, the Stellar
--   network, the contract, the partner or the mailer is a `Call`. A method is a function from the
--   history of calls to a result and the longer history; a call throws or is added. What the
--   surroundings answer, and which calls throw, is for a record `Env` to say, and the theorems hold
--   for every such record. Platform/Loops and Platform/Runs have the laws of these methods,
--   Platform/Samples the surroundings of the tests.
-- - Settlements (backend/src/settlements/settlements.service.ts): Creation models initiateSettlement and
--   createBatchSettlement, Batching models batchSmallConfirmedPayments and flushMerchantBatch, Transfer
--   models executeFiatTransfer and handlePartnerCallback, Admin models retrySettlement and
--   approveSettlement.
-- - Payments (backend/src/payments/payments.service.ts): Creation models create and createBatch, Refund
--   models confirmPayment and refund.
-- - Monitor (backend/src/stellar): Scan models the scheduled scan of the deposit account
--   (stellar-monitor.service.ts) with its cursor and the outcome that it keeps, Verification the check of
--   one transaction (stellar.service.ts), Confirmation the confirmation of a matched payment, up to the
--   settlement that it makes, and the expiry of old payments. Escrow models the poll of the escrow
--   contract's events (soroban-monitor.service.ts), Indexer the paging through the events that other parts
--   listen to (soroban-event-indexer.service.ts).
-- - Contract (backend/src/blockchain-wallet/soroban.service.ts): the mirror of the escrow contract, with
--   the pause switch, its lock and its log.
-- - Webhooks (backend/src/webhooks): Dispatch models dispatch and enqueueDelivery, Delivery models the
--   delivery job with its retries, the failure count and the alerts.
-- - Limits: Rate models the request limit of an API key (backend/src/auth/rate-limit.service.ts), Slippage
--   the guard on swap rates (backend/src/blockchain-wallet/slippage.service.ts).
-- - Groups (backend/src/groups): Store models the tables and queries, Service and Joining the methods.
--   They read and write a store directly (Platform/Stores), one request after another.
-- - Security: Guards models the allowlist of the administration (backend/src/security/ip-allowlist.guard.ts),
--   Metrics that of the metrics (backend/src/prometheus/metrics.guard.ts), Addresses the reading of texts
--   as JavaScript does it; Bits and Networks have the arithmetic of masks.
-- - Alerts (backend/src/alerts/admin-alert.service.ts): raise and acknowledge, with the cooldown.
-- - Preferences (backend/src/notifications/notification-prefs.service.ts): the matrix of preferences.
-- - Admin (backend/src/admin): Base32 and Totp model the one-time passwords of administrators, Store,
--   Service and Records the changes of merchants and payments (admin.service.ts), Controller the endpoints
--   behind the guard on roles (admin.controller.ts, auth/guards/roles.guard.ts), and Fees the global fees
--   with their history (fee-config/entities) and their place in the cache.
-- - Cache: Redis states what the cache asks of its client, Envelope and Service model
--   backend/src/cache/cache.service.ts, Runtime and Idempotency two of its users
--   (runtime-config/runtime-config.service.ts, payment/idempotency.interceptor.ts), Rates the exchange
--   rate (rates/rates.service.ts); Samples is for tests.
-- - Auth (backend/src/auth): registration, login and sessions (auth.service.ts, strategies/jwt.strategy.ts).
-- - Queues (backend/src/queues/queue.processors.ts): the lock of the settlement queue, with workers that take
--   and end jobs while time passes; Retrying models the retries of tasks (backend/src/retry).
-- - Merchants (backend/src/merchants/merchants.service.ts): the bulk change of status with its audit log.
-- - Soroban (backend/src/soroban/soroban.service.ts): Retries models withRetry, Errors what is retried and
--   how errors are translated, Transactions the submission and invocation built on them.
-- Payments and settlements meet in the rows: a settlement's transfer, its callback and its retry set
-- the status of the payments in it, and a refund asks for a settled payment. All of them announce what
-- they did by the call `Call.dispatch`, which Webhooks.Dispatch models in full.
--
-- Reading the model. A row that a method reads first is an argument, found or not; a row that it reads
-- later is an answer of `Env`. Amounts are scaled whole numbers (see Platform/Entities), so the binary
-- fractions of JavaScript numbers and the rounding of decimal columns by the database are not
-- modelled; `toFixed` is rounding to the nearest, a half up. Times are milliseconds, in Limits/Rate
-- seconds. The cache does not expire by
-- itself. The texts of alerts, e-mails and log lines, QR images, metadata columns (but for the
-- identifier of a payment in the escrow contract) and the signature of webhooks are left out. Two methods that run at the same
-- time are modelled in Queues only.
-- Fuel: Prelude/Texts prints a number with fuel 16, the digits of the numbers that JavaScript counts
-- exactly; Webhooks/Delivery/Schedule follows a failing delivery with fuel for the length of the
-- schedule, which is enough since each attempt moves one place on. Monitor/Indexer reads pages with fuel,
-- and fuel for more events than are left, two hundred a page, is enough. Cache/Service scans for keys with fuel, none where it
-- runs out; Admin/Base32 takes digits with the number of bits as fuel, and five bits leave at each step.
-- All other loops are structural.
--
-- Not modelled: the Rust contracts and the frontend; the other controllers, DTO decorators, modules, migrations
-- and seeds, which only declare; queries for lists, statistics, reports and analytics. Redis, bcrypt, JSON
-- Web Tokens, gzip and HMAC are third-party code, and parameters.
pub mod Admin
pub mod Alerts
pub mod Auth
pub mod Cache
pub mod Contract
pub mod Groups
pub mod Limits
pub mod Merchants
pub mod Monitor
pub mod Payments
pub mod Platform
pub mod Preferences
pub mod Prelude
pub mod Queues
pub mod Security
pub mod Settlements
pub mod Soroban
pub mod Webhooks
