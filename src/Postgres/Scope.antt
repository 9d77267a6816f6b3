-- ===== src/Postgres/Scope.antt =====
-- The stores as the ports of the use cases: WithinTransaction of unit_of_work.go hands them to its
-- function, and the use cases run over the tables.
pub mod Examples
use payrune.Prelude.{
  ◌≡◌, refl, sym, ◌∙◌, Bool, some, Option, none, arith, Bool-cases, Option-cases, inl, inr,
}
use payrune.Prelude.Int.{ℤ}
use payrune.Text.{Text, is_empty, trim_space}
use payrune.Result.{err}
use payrune.Ports.Error.{Error}
use payrune.Ports.Stores.{AllocationStore, IdempotencyStore, TrackingStore, Outbox, StatusFinder}
use payrune.Ports.World.{World, TxScope, UnitOfWork}
use payrune.UseCases.Allocate.{UseCase, Input}
use payrune.UseCases.Allocate.Atomic.{execute-IsAtomic}
use payrune.UseCases.Allocate.Execute.{execute}
use payrune.UseCases.Allocate.Lookups.{LooksUp}
use payrune.Postgres.Driver.{Tx, find_issued, find_key}
use payrune.Postgres.Tables.{Tables}
use payrune.Prelude.Rows.{some_injective}
use payrune.Postgres.Allocations as Allocations
use payrune.Postgres.Finder as Finder
use payrune.Postgres.Keys as Keys
use payrune.Postgres.Outbox as OutboxStore
use payrune.Postgres.Reserve as Reserve
use payrune.Postgres.Trackings as Trackings

-- NewPaymentAddressAllocationStore
abbrev pub allocation_store : Tx → AllocationStore Tables
allocation_store x = record {
  find_issued_by_id = Allocations.find_issued_by_id x;
  reopen_failed_reservation = Reserve.reopen_failed_reservation x;
  reserve_fresh = Reserve.reserve_fresh x;
  complete = Allocations.complete x;
  mark_derivation_failed = Allocations.mark_derivation_failed x;
}

-- NewPaymentAddressIdempotencyStore
abbrev pub idempotency_store : Tx → IdempotencyStore Tables
idempotency_store x = record {
  find_by_key = Keys.find_by_key x;
  claim = Keys.claim x;
  complete = Keys.complete x;
  release = Keys.release x;
}

-- NewPaymentReceiptTrackingStore
abbrev pub tracking_store : Tx → TrackingStore Tables
tracking_store x = record {
  create = Trackings.create x;
  claim_due = Trackings.claim_due x;
  save = Trackings.save x;
}

-- NewPaymentReceiptStatusNotificationOutboxStore
abbrev pub outbox : Tx → Outbox Tables
outbox x = record {
  enqueue_status_changed = OutboxStore.enqueue_status_changed x;
  claim_pending = OutboxStore.claim_pending x;
  save_delivery_result = OutboxStore.save_delivery_result x;
}

-- NewPaymentAddressStatusFinder
abbrev pub status_finder : Tx → StatusFinder Tables
status_finder x = record { find_by_id = Finder.find_by_id x }

-- The txScope of WithinTransaction.
abbrev pub scope : Tx → TxScope Tables
scope x = record {
  allocation = some (allocation_store x);
  idempotency = some (idempotency_store x);
  tracking = some (tracking_store x);
  outbox = some (outbox x);
}

find_issued-kept : (x : Tx) (id : ℤ) (t : Tables) → (Allocations.find_issued_by_id x id t).1 ≡ t
unfolding Allocations.find_issued_by_id Allocations.find_row
find_issued-kept x id t = ground arith

find_key-kept : (x : Tx) (chain key : Text) (t : Tables) → (Keys.find_by_key x chain key t).1 ≡ t
unfolding Keys.find_by_key Keys.find_row
find_key-kept x chain key t = ground arith

scope-LooksUp : (x : Tx) → LooksUp (scope x)
scope-LooksUp x = record {
  by_id = λ store e id t. rw (← some_injective e) (find_issued-kept x id t);
  by_key = λ keys e chain key t. rw (← some_injective e) (find_key-kept x chain key t);
}

-- Over the Postgres stores a request that fails leaves every table as it was, with no condition on
-- the stores.
pub execute-IsAllOrNothing :
    {X : Type 0} (uc : UseCase Tables X) (u : UnitOfWork Tables X) (x : Tx) (input : Input)
    → uc.unit_of_work ≡ some u
    → u.scope ≡ scope x
    → (w w' : World Tables X) (e : Error) → execute uc input w ≡ (err e, w')
    → w'.db ≡ w.db
execute-IsAllOrNothing uc u x input same tables w w' e h =
    execute-IsAtomic uc input
      (λ v at.
        let is_u : u ≡ v = some_injective (sym same ∙ at) in
        rw (← is_u) (rw tables (scope-LooksUp x)))
      w w' e h
