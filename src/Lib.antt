-- ===== src/Lib.antt =====
-- MiniLedger: a double-entry ledger with a REST interface over PostgreSQL.
--
-- The program. A money and currency kernel (src/shared/kernel) carries a domain of accounts,
-- postings and journal transactions (src/ledger/domain). Services (src/ledger/application) open
-- accounts, transfer, reverse, page through statements and audit; those that write do it in a unit
-- of work (src/db/drizzle-unit-of-work.ts) through repositories
-- (src/ledger/infrastructure/persistence) over tables whose constraints and trigger are in the
-- schemas and in drizzle/*.sql. A transfer and a reversal both go through LedgerPoster.post, which
-- looks the accounts up, locks their balance rows, computes the lines of the hash chain and writes.
--
-- The model.
-- Base: shared names and helpers; bigint as an unbounded integer, JavaScript's Map as an
--   association list in insertion order, decimal texts.
-- Kernel.Currency, Kernel.Money: currency.ts and money.ts.
-- Domain: account-id.ts and transaction-id.ts (Ids), account.ts, posting.ts and
--   journal-transaction.ts (Journal), balance-fold.ts, overdraft.ts, hash-chain.ts.
-- Persistence.Store: the tables as lists of rows and maps by primary key (`Db`). Persistence.Action:
--   a call is a function from the tables to a result or a failure, and the tables after it; writes
--   made before a throw stay until the unit of work (`with_transaction`) takes them back, which also
--   runs the deferred trigger. Persistence.Platform: what the program does not implement, as
--   parameters: SHA-256, PostgreSQL's reading of a UUID, and the fields of a caught driver error.
--   Persistence.Locking is the loop of lockForUpdate in transactions that run at the same time.
--   The other files of Persistence are the repositories, one each, and Genesis the migrated tables.
-- Application: ledger-poster.ts (Poster), transfer.service.ts (Transfers), reverse.service.ts
--   (Reversals), accounts.service.ts, statement.service.ts, audit.service.ts. A clock's time and a
--   generated UUID are arguments.
-- Ledger: what the ledger promises: the chain of an account (Chain), the order of the postings
--   (Order), the sums (Totals), the invariant of the tables (Invariant), that every service keeps it
--   (Posting, Transfers, Reversals, Accounts, Reachable), what stays as it is through any calls
--   (History), and what follows for the balances
--   (Movements), the permissions (Authorization), the retries (Retries), repeated reversals
--   (SecondReversals), the trigger (Commits), the audit (Audits), the statements (Pages, Statements)
--   and the accounts (Untouched, Listing).
-- Interface: the controllers of src/ledger/interface, with src/shared/http/problem-details.ts: the
--   handler of each route, behind its guards, on a request whose principal is known. Interface.Filter is
--   problem-details.filter.ts and zod-validation.pipe.ts.
-- Access: src/access, the guard before the controllers; verifying a token is a parameter.
-- Web: the dashboard, web/src. Web.Runtime: the network, the codecs and the request at hand, as
--   parameters. lib/money.ts (Money), lib/upstream.ts (Upstream), lib/bff.ts and the routes over it
--   (Proxy), app/api/login and app/api/logout (Sessions), lib/client.ts (Client) with the way from the
--   browser to the ledger and back (Client.Delivery), lib/server-ledger.ts, lib/identity.ts,
--   lib/types.ts, lib/i18n.ts with lib/dictionaries.ts (Languages), and the state of two components:
--   components/dashboard/transfer-form.tsx and statement-view.tsx. A route is a function from a
--   request to the requests that it sends and the response that it gives.
-- Seed: seed.ts, the demo script over the services; Again is about what a second run does.
-- Tests: a small ledger that the services run on.
--
-- Bounds. Amounts are unbounded as bigint is; the range of a bigint column is the test `fits_int8`
-- of the inserts and updates. All loops are structural; the decimal printer of Base.Decimal takes
-- one unit of fuel for each digit and is given one more than the number.
--
-- Not modelled. Calls run one after another, but for the locks on the balance rows
-- (Persistence.Locking): the interleaving of reads and writes is not modelled, nor are the locks
-- that PostgreSQL takes for unique and foreign keys. A rollback gives the numbers of the postings
-- back too, where PostgreSQL leaves a gap in them. The listing of accounts, whose query has no
-- order, comes in the order of the table. The guards of the routes are apart from the handlers:
-- AccessTokenGuard is Access, and @RequirePermission is the accesscore-sdk library's. The rules of
-- the DTO schemas are calls of the zod library, and the wiring (modules, metrics, health,
-- migration, OpenAPI) is calls of other libraries; both are left out, as is the rendering of the
-- web pages. Columns that no code reads are left out of the rows. JSON numbers are whole: those
-- that the code reads are statuses, cursors and seconds. JSON, URI and base64 codecs are
-- parameters.
pub mod Base
pub mod Kernel
pub mod Domain
pub mod Persistence
pub mod Application
pub mod Ledger
pub mod Interface
pub mod Access
pub mod Seed
pub mod Web
pub mod Tests
