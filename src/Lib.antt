-- ===== src/Lib.antt =====
-- Ticash Pay: the money core of the back end.
--
-- The program is a double-entry ledger of currencies in minor units, with services on top that
-- move money through it. Each service builds a journal (`JournalDraft`), the ledger's store checks
-- and stores it, and the services that need an approval keep a row of their own whose status is
-- changed by an atomic claim before the ledger is asked.
--
-- The files, and the code that each models:
--   Prelude      what the modules share: native integers, texts as lists of character codes, the
--                JavaScript `Map` as an association list in insertion order, results
--   Money        src/money: currencies, `toMinor`, `fromMinor`, `convert`, `roundHalfUpDiv`,
--                `floorToPayoutUnit`
--   Ledger       src/ledger: Types (types.ts), Engine (engine.ts), Operations (operations.ts: every
--                journal builder), Store (in-memory-store.ts: `post`, `getFeed`, `reconcile`), Service
--                (service.ts: every method that posts)
--   Fx           src/fx: basis points, the rate store, `priceTransfer`, `quote`, `setRate`
--   Airtime      src/airtime: the margins of countries, `topup` with the provider as an argument
--   Withdrawal   src/withdrawal: `request`, `complete`, `reject` over the in-memory store
--   Cashout      src/cashout: `request`, `approve`, `reject`, `cancel` over the in-memory store
--   P2p          src/p2p: Types, Store (the in-memory store), Listing (`createOffer`), Ordering
--                (`openOrder` to `expireUnpaidOrders`), Service (close, release, cancel, resolve),
--                Commission; Step has every sequence of calls
--   Payouts      src/payouts: the in-memory store and `submit`, `sync`, `releaseManually`,
--                `failManually`, with what the provider answers as arguments; Office has every run
--   Transfers    src/transfers: `initiate`, `run`, `recover`, with the payouts behind them
--   Referrals    src/referrals: `codeFor`, `record`, `onReferredUserTransacted` over the in-memory
--                store, with the bonus and the drawn codes as arguments
--   Auth         src/auth: the one-time codes (`issueOtp`, `consumeOtp`) and the sessions of the
--                in-memory store (`rotateSession`, `revokeSession`), with the clock, the hash, the
--                verifier and the sender as arguments
--   Tests        the theorems at concrete inputs
--
-- How state is modelled. `Ledger` is the record of `InMemoryLedgerStore`'s fields. `post` is a
-- function from a ledger to an answer and the next ledger; a `throw` is the result `err`, with the
-- class and the code of the error and without its message, and the ledger that comes with it holds
-- what the code has written by then. A service is a function on the pair of the ledger and its
-- store. `async` methods run to their end, as they do over the in-memory stores, one call after
-- another; sequences of calls are step relations (`Step`, `Reach`). The calls that wait for a provider
-- are more than that: in Payouts, `submit` and `sync` are two steps each (Office), with the row as
-- it was read before the wait, and other calls run in between; in Transfers and Airtime the provider
-- answers with nothing else running. The clock, SHA-256, `randomUUID`, `Date.parse` and
-- `toISOString` are arguments.
--
-- A transfer's saga can stop between two awaits. A stop is a state in which the ledger has the
-- post and the row has the status before it, and the theorems on `run` start there.
--
-- Numbers. A `bigint` is an integer without bound, as in the source. Basis points are integers,
-- so the check `Number.isInteger` always passes. The only fuel is that of `to_decimal`, which
-- prints a number `n` with `n + 1` steps, more than it has digits.
--
-- Not modelled: the Postgres stores, the HTTP layer, the adapters of providers, the mobile
-- applications, and so far limits and logins. Listings for display are left out, with
-- their sorting by locale. In `request` of a withdrawal the refund after a failed insert is left
-- out, and in `createOffer` of the market the unlock after one: the in-memory insert cannot fail.
pub mod Prelude
pub mod Money
pub mod Ledger
pub mod Fx
pub mod Airtime
pub mod Withdrawal
pub mod Cashout
pub mod P2p
pub mod Payouts
pub mod Transfers
pub mod Referrals
pub mod Auth
pub mod Tests
