-- ===== src/Lib.antt =====
-- Payrune issues payment addresses, watches them for receipts and reports every change of a
-- payment's status to a webhook. This library models the domain, the application layer, the
-- Postgres stores, the receipt observers and the policy reader of the Go program and proves what they promise. All paths are below the repository's root.
--
-- The parts and how they interact
--   A request allocates an address: `UseCases.Allocate` claims the idempotency key, reserves a slot,
--   derives the address, completes the allocation and creates its receipt tracking, all in one
--   transaction. A polling cycle (`UseCases.Polling`) claims due trackings, observes their addresses
--   and saves each with the event of its change of status, in one transaction per tracking. A
--   dispatch cycle (`UseCases.Dispatch`) claims pending events, notifies the webhook and saves the
--   delivery result. The use cases call the domain (`Domain`) and, over ports (`Ports`), the rest; the
--   ports to the database are implemented by the stores (`Postgres`), those to the chains by the
--   observers (`Chains`), and the policies come from the configuration (`Policies`).
--
-- Which file models what
--   Prelude: library names passed on, tests on numbers, lists, and the integers with their
--     wrap-around (int64 and int32 sums are taken modulo 2 ^ 64 and 2 ^ 32).
--   Text: strings as lists of code points, with TrimSpace, ToLower, TrimSuffix and the byte length;
--     Text/Id: parseAddressPolicyID, ParseChainID and ParseNetworkID (internal/domain/valueobjects)
--     and isPortableID (internal/application/ports/outbound/validation.go); Text/Number: integers in
--     a base as strconv and math/big read and print them; Text/Escape: url.PathEscape.
--   Result, Time: a value with an error; time.Time and time.Duration.
--   Domain/Values, Status, Observation: internal/domain/valueobjects.
--   Domain/StatusChanged: internal/domain/events. Domain/Error: the errors of the domain.
--   Domain/Tracking, Allocation: internal/domain/entities/payment_receipt_tracking.go and
--     payment_address_allocation.go. Domain/Policy, Issuance: internal/domain/policies.
--   Ports/Error, Validation, Delivery, Records, Stores, Outside, World: internal/application/ports,
--     the conversions of internal/application/usecases/port_record_conversions.go, and the
--     transaction of internal/adapters/outbound/persistence/postgres/unit_of_work.go.
--   Postgres: internal/adapters/outbound/persistence/postgres. Tables: the rows, as the migrations in
--     deployments/postgresql/migrations leave the columns. Driver: one transaction of executor.go.
--     Reasons: failure_reason_normalizer.go. Due, Scan: what the two claiming statements share.
--     Trackings, Outbox, Keys, Finder: the stores of these names; Allocations and Reserve: the
--     operations of payment_address_allocation_store.go on an issued row and on a slot; History:
--     sequences of them. Scope: the txScope of unit_of_work.go, so that the use cases run over tables.
--   Chains: the receipt observers. Observer: the port of one chain; Bitcoin (with Client and Observe):
--     internal/adapters/outbound/bitcoin/esplora_receipt_observer.go; Ethereum (with Observe):
--     internal/adapters/outbound/ethereum/rpc_receipt_observer.go; Router:
--     internal/adapters/outbound/blockchain/multi_chain_receipt_observer.go. HTTP and JSON are the
--     parameters `Http` and `Rpc`: a request gives the text or the decoded answer, or fails. The loop
--     over pages has the bound of the source, 10,000 of 25, as its fuel.
--   Policies: internal/adapters/outbound/policy/address_policy_reader.go; UseCases/Policies: the
--     list_address_policies_use_case.go over it.
--   UseCases/Polling, Dispatch, Allocate, Status: the files of internal/application/usecases on
--     these, one definition per method and per step of a long one. UseCases/Store has concrete ports for
--     the examples.
--
-- How state is modelled
--   A use case is an action over a world of two parts: the database, which a transaction restores
--   when its steps return an error, and all the rest (chains, webhook, clock, driver), which it does
--   not. A port is a record of functions over its part, so every theorem holds of every store and
--   observer, and a store's failures are values. The database driver is a parameter: whether a
--   transaction begins and whether it commits. A commit that fails has written nothing. A nil port
--   is `none`. The maps of a cycle are passed from step to step. Transactions run one after another:
--   interleavings of several processes are not modelled here.
--
--   A store of Postgres is the same over `Tables`: one list of rows per table, one function per
--   statement. What it relies on of the server is the parameter `Tx`: which statement fails (for the
--   state it meets, so a check or a foreign key that is not met is such a failure), whose result
--   cannot be read, which rows another transaction has locked (they are skipped by SKIP LOCKED), and
--   NOW(), and what the server keeps of an instant that a statement is given: TIMESTAMPTZ has whole
--   microseconds and the clock nanoseconds, so every time that a store writes or compares goes
--   through the field `stored` of `Tx`. A statement that fails changes nothing. The unique constraints of the tables are written
--   out with the statements that meet them. The columns created_at and updated_at, that nothing reads,
--   are left out, and RETURNING lists rows in the order of the table, where the server promises none.
--
-- Bounds and fuel
--   The decimal digits of an id run on fuel, where 19 are enough for an int64, and the hexadecimal
--   ones of a block number, where 16 are. The loop over the pages of an address has the bound of the
--   source, 10,000 pages, at which it ends with what it has. Sums of
--   amounts and of attempts wrap around as in the source; the theorems say where they do not. Times
--   are unbounded integers of nanoseconds since the zero time, and locations are left out. The
--   counts of a cycle are natural numbers, bounded by the number of claimed items. ToLower maps the
--   ASCII capitals and the two other code points whose lower case is ASCII, and leaves the rest,
--   of which no accepted text has any.
--
-- What is not modelled
--   The stores over the Cloudflare bridge (internal/adapters/outbound/persistence/cloudflarepostgres),
--   whose statements are those of Postgres, the derivation of addresses, the webhook
--   adapter, the HTTP controllers, the schedulers, the reading of the environment and the health
--   use case: the first three behind the port records, the others because they call what is modelled
--   and add input and output. The maps of clients and observers that a constructor ranges over are
--   lists, in the order of the range. Contexts are left out: a cancelled
--   one shows as the error of the port that was called.
pub mod Prelude
pub mod Text
pub mod Result
pub mod Time
pub mod Domain
pub mod Ports
pub mod UseCases
pub mod Postgres
pub mod Chains
pub mod Policies
