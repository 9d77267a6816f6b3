-- ===== src/Postgres/Reserve.antt =====
-- payment_address_allocation_store.go of internal/adapters/outbound/persistence/postgres: the two ways
-- to reserve a slot.
pub mod Slots
pub mod Fresh
use payrune.Prelude.{
  Bool, ◌&&◌, true, not, Option, none, some, List, [], ◌∷◌, ◌++◌, any, update, first, filter,
  if◌then◌else◌,
}
use payrune.Prelude.Int.{ℤ, pos, eqb_ℤ, leb_ℤ, ltb_ℤ, ◌+ℤ◌}
use payrune.Text.{Text, ◌==ᵗ◌, trim_space}
use payrune.Result.{ok, err}
use payrune.Time.{Time}
use payrune.Ports.Error.{allocation_store_failed, address_index_exhausted}
use payrune.Ports.Records.{AllocationRecord}
use payrune.Ports.Stores.{ReserveAllocation}
use payrune.Postgres.Allocations.{reserved, derivation_failed, is_out_of_range, max_slot_index}
use payrune.Postgres.Driver.{
  Tx, Query, pure, raise, run, read, guard, ◌>>=◌, ◌>>◌, find_failed, reopen_failed, insert_cursor,
  lock_cursor, insert_allocation, advance_cursor,
}
use payrune.Postgres.Due.{sort}
use payrune.Postgres.Tables.{AllocationRow, CursorRow, Tables, null_if_empty}

-- `address_policy_id = $1 AND address_space_ref = $2`
abbrev pub is_in : Text → Text → AllocationRow → Bool
is_in policy_id space a = a.address_policy_id ==ᵗ policy_id && a.address_space_ref ==ᵗ space

abbrev pub space_of : ReserveAllocation → Text
space_of input = trim_space input.issuance_policy.address_space_ref

-- The failed reservation that is the oldest of those that no other transaction has locked.
unfoldable pub oldest_failed : Tx → ReserveAllocation → List AllocationRow → Option AllocationRow
unfolding sort filter first
oldest_failed x input rows =
    let is_candidate = λ (a : AllocationRow).
      is_in input.issuance_policy.address_policy_id (space_of input) a
      && a.allocation_status ==ᵗ derivation_failed
      && not (x.locked find_failed a.id) in
    first (λ a. true) (sort (λ a. a.id) (λ a. a.reserved_at) (filter is_candidate rows))

abbrev pub reopened : Time → ReserveAllocation → AllocationRow → AllocationRow
reopened now input a = record a {
  allocation_status = reserved;
  expected_amount = input.expected_amount;
  customer_reference = null_if_empty (trim_space input.customer_reference);
  chain = none;
  network = none;
  scheme = none;
  asset_reference = none;
  address = none;
  sweep_material = none;
  failure_reason = none;
  reserved_at = now;
  issued_at = none;
}

-- The record that ReopenFailedReservation and ReserveFresh return.
abbrev pub reservation : ReserveAllocation → ℤ → ℤ → AllocationRecord
reservation input id slot = record {
  payment_address_id = id;
  address_policy_id = input.issuance_policy.address_policy_id;
  slot_index = slot;
  expected_amount = input.expected_amount;
  customer_reference = trim_space input.customer_reference;
  status = reserved;
  chain = [];
  network = [];
  scheme = [];
  asset_reference = [];
  address = [];
  derivation_failure_reason = [];
}

-- The UPDATE of ReopenFailedReservation.
unfoldable pub reopen_row : Tx → ReserveAllocation → AllocationRow → Query (Option AllocationRecord)
unfolding update null_if_empty
reopen_row x input a t = (
  ok (some (reservation input a.id a.slot_index)),
  record t { allocations = update (λ b. eqb_ℤ b.id a.id) (reopened x.now input) t.allocations },
)

-- ReopenFailedReservation from the row that it found on.
unfoldable pub reopen_found :
    Tx → ReserveAllocation → Option AllocationRow → Query (Option AllocationRecord)
unfolding reopen_row
reopen_found x input none = pure none
reopen_found x input (some a) =
    guard (is_out_of_range a.slot_index) address_index_exhausted
      (run x reopen_failed allocation_store_failed (reopen_row x input a))

-- PaymentAddressAllocationStore.ReopenFailedReservation
unfoldable pub reopen_failed_reservation : Tx → ReserveAllocation → Query (Option AllocationRecord)
unfolding oldest_failed reopen_found
reopen_failed_reservation x input t =
    if x.fails find_failed t
    then (err allocation_store_failed, t)
    else reopen_found x input (oldest_failed x input t.allocations) t

-- MAX(slot_index) + 1, or 0 with no row
unfoldable pub next_slot : Text → Text → List AllocationRow → ℤ
next_slot policy_id space [] = pos 0
next_slot policy_id space (a ∷ rest) =
    let next = next_slot policy_id space rest in
    if is_in policy_id space a && leb_ℤ next a.slot_index then a.slot_index +ℤ pos 1 else next

abbrev pub is_cursor : Text → Text → CursorRow → Bool
is_cursor policy_id space c = c.address_policy_id ==ᵗ policy_id && c.address_space_ref ==ᵗ space

abbrev pub with_cursor : Text → Text → Tables → Tables
with_cursor policy_id space t = if any (is_cursor policy_id space) t.cursors then t else record t {
  cursors =
      t.cursors
      ++ (record {
        address_policy_id = policy_id;
        address_space_ref = space;
        next_index = next_slot policy_id space t.allocations;
      }
          ∷ []);
}

abbrev pub fresh_row : Time → ReserveAllocation → ℤ → ℤ → AllocationRow
fresh_row now input id slot = record {
  id = id;
  address_policy_id = input.issuance_policy.address_policy_id;
  address_space_ref = space_of input;
  slot_index = slot;
  expected_amount = input.expected_amount;
  customer_reference = null_if_empty (trim_space input.customer_reference);
  chain = none;
  network = none;
  scheme = none;
  asset_reference = none;
  address = none;
  sweep_material = none;
  failure_reason = none;
  allocation_status = reserved;
  reserved_at = now;
  issued_at = none;
}

abbrev pub advanced : CursorRow → CursorRow
advanced c = record c { next_index = c.next_index +ℤ pos 1 }

-- The INSERT of ReserveFresh, with UNIQUE (address_policy_id, address_space_ref, slot_index).
unfoldable pub insert_row : Tx → ReserveAllocation → ℤ → Query ℤ
unfolding null_if_empty
insert_row x input slot t =
    let policy_id = input.issuance_policy.address_policy_id in
    if any (λ a. is_in policy_id (space_of input) a && eqb_ℤ a.slot_index slot) t.allocations
    then (err allocation_store_failed, t)
    else (
      ok t.next_allocation_id,
      record t {
        allocations = t.allocations ++ (fresh_row x.now input t.next_allocation_id slot ∷ []);
        next_allocation_id = t.next_allocation_id +ℤ pos 1;
      },
    )

-- ReserveFresh from its cursor on.
unfoldable pub reserve_slot : Tx → ReserveAllocation → CursorRow → Query AllocationRecord
unfolding insert_row update
reserve_slot x input c = guard (ltb_ℤ max_slot_index c.next_index) address_index_exhausted (do
  inserted ← run x insert_allocation allocation_store_failed (insert_row x input c.next_index)
  id ← read x insert_allocation allocation_store_failed inserted
  run x advance_cursor allocation_store_failed (λ t. (
    ok (reservation input id c.next_index),
    record t {
      cursors =
          update (is_cursor input.issuance_policy.address_policy_id (space_of input)) advanced
            t.cursors;
    },
  )))

-- PaymentAddressAllocationStore.ReserveFresh
unfoldable pub reserve_fresh : Tx → ReserveAllocation → Query AllocationRecord
unfolding next_slot reserve_slot first
reserve_fresh x input = do
  let policy_id = input.issuance_policy.address_policy_id
  let space = space_of input
  run x insert_cursor allocation_store_failed (λ t. (ok tt, with_cursor policy_id space t))
  row ←
      run x lock_cursor allocation_store_failed
        (λ t. (ok (first (is_cursor policy_id space) t.cursors), t))
  elim row [ none ↦ raise allocation_store_failed | some c ↦ reserve_slot x input c ]
