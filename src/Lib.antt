-- ===== src/Lib.antt =====
-- The booking core of the altstay backend (src/, TypeScript over Prisma and PostgreSQL).
--
-- The program. A guest asks for a quote of a stay and books it: the request is validated, the quote
-- loaded, an idempotency key claimed, and one transaction locks the inventory, writes the
-- reservation with an inventory hold for each night, and takes the coins that the quote redeems. A
-- payment event then confirms the reservation, from its live holds or by selling the rooms anew, or
-- marks the money for a refund. A sweep expires unpaid reservations, releases their holds and gives
-- their coins back; another completes past stays and credits coins. Before the event, the guest opens
-- a payment session, which keeps one live payment attempt for the reservation. Administrators accept,
-- cancel, refund and delete reservations and set the inventory and the prices. A user buys a
-- membership, whose payment event supersedes the one that is running and starts a new period. A
-- user logs in by a one-time code or a password, and the login lasts by refresh tokens, each of which is exchanged
-- for the next.
--
-- The files and the code they model:
--   Prelude                  shared names, numbers, lists, signed integers, doubles and table
--                            operations
--   Model                    prisma/schema.prisma: the tables (Rows, Enums), the errors, transactions
--                            and updates by id; what code keeps true of the state (Stable)
--   Lifecycle                src/bookings/booking-lifecycle.ts
--   AlterCash                src/alter-cash/alter-cash.service.ts
--   Dates                    eachNight and assertDateRange of src/admin/admin.utils.ts
--   Inventory                src/bookings/booking-inventory.service.ts
--   Pricing                  src/pricing/pricing.service.ts and pricing.types.ts
--   Idempotency              src/bookings/booking-idempotency.service.ts
--   Validation               src/bookings/booking-validation.service.ts
--   Quotes                   src/bookings/quotes.service.ts; Intents: createIntent and resolveQuote
--   Bookings                 Create: createBooking of src/bookings/bookings.service.ts with
--                            src/bookings/booking-number.service.ts; Extend: tryExtendHold; Sweep:
--                            expiry and completion with src/bookings/booking-maintenance.service.ts
--   Payments                 Confirmation: src/payments/payment-confirmation.service.ts, with
--                            reservation-lock.ts; Sessions: payment-sessions.service.ts and two
--                            settings of payments.config.ts
--   Membership               src/membership. Terms: membership.utils.ts and the expiry of a purchase;
--                            Periods: profiles, sweeps and the admin's updates; Activation:
--                            membership-payment-confirmation.service.ts; Purchases:
--                            membership-purchase.service.ts
--   Admin                    src/admin. Reservations: bookings/admin-bookings.service.ts; Inventory:
--                            inventory/admin-inventory.service.ts; RatePlans: the prices of
--                            rate-plans/admin-rate-plans.service.ts
--   Auth                     src/auth. RateLimit: rate-limit/rate-limit.service.ts; Sessions: the
--                            refresh tokens of auth.service.ts, its one-time codes (Otp)
--                            and passwords (Passwords)
--   Search                   the availability of src/search/search.service.ts
--   Samples                  a small database for the Tests modules
--
-- The correspondence. A database is a record of tables, a table a list of rows, newest first. A
-- definition has the name of its method in snake case. Code inside `prisma.$transaction` is a `Tx`,
-- which returns a value and a new database or an exception; `transaction` restores the database on
-- an exception, as a rollback does. `SELECT ... FOR UPDATE` makes a transaction atomic on the rows
-- it locks, so that one transaction runs at a time. A service call of several transactions is an
-- `Action`, which keeps what was committed before an exception. Reads that a call makes before its one
-- transaction are part of the `Tx`. The payment service is a function argument, and `interim` is what
-- other calls commit while its answer is awaited.
--
-- Representation. Ids, tokens, references, currencies and texts that are only compared are natural
-- numbers. Instants are milliseconds, dates the numbers of their days. Amounts are in hundredths,
-- exact in the prices, the taxes and the coins, where the source computes with binary floats and
-- rounds; `Math.round` rounds a half up. Where the source compares or floors what it computed, in the
-- refunds of an administrator and the credit of a membership, the model computes in doubles
-- (Prelude.Double), rounded to 53 bits, of at least 2 ^ -48. The clock, the ids of new rows, the random
-- reservation numbers and the request's hash are arguments.
--
-- Fuel. The loop of `each_night` tests its condition once more than there are days between its bounds,
-- and gives none when it has not ended by then; Dates.Nights proves that it ends, with the same nights
-- for every larger fuel. Rounding a double halves a number of at most 1000 bits. The retries for
-- reservation numbers are the source's own five draws and three attempts. The other loops run over
-- lists.
--
-- Not modelled: the read endpoints (lists, dashboards, response mapping), the payment service's
-- client and its signature, the queries of the search, access tokens, profiles, the catalogue's
-- create and update calls, uploads, controllers and DTO decorators, guest rows, snapshots,
-- descriptions and logging. Settings are modelled where they are missing or whole numbers. Infinite
-- and undefined numbers stand only where a rate divides by zero days or a zero price.
pub mod Prelude
pub mod Model
pub mod Samples
pub mod Lifecycle
pub mod AlterCash
pub mod Dates
pub mod Inventory
pub mod Pricing
pub mod Idempotency
pub mod Validation
pub mod Quotes
pub mod Bookings
pub mod Payments
pub mod Admin
pub mod Auth
pub mod Membership
pub mod Search
