-- ===== src/Postgres/History/Examples.antt =====
-- The allocation store on small tables, and the theorems about it at these tables.
use payrune.Prelude.{◌≡◌, refl, true, false, none, some, List, [], ◌∷◌, All, first, arith}
use payrune.Prelude.Int.{pos, ◌+ℤ◌, ◌≤ℤ◌, ◌<ℤ◌}
use payrune.Text.{codes, trim_space, trim_left, to_lower, lower, is_space, byte_len}
use payrune.Text.Id.{is_portable_id, is_id_char}
use payrune.Result.{ok, err}
use payrune.Domain.Values.{bitcoin, mainnet}
use payrune.Ports.Error.{address_index_exhausted}
use payrune.Ports.Records.{PolicyRecord, AllocationRecord}
use payrune.Ports.Stores.{ReserveAllocation, CompleteAllocation}
use payrune.Ports.Validation.{normalize_supported_chain, normalize_address_scheme}
use payrune.Postgres.Allocations.{
  complete, complete_row, max_slot_index, is_row, reserved, find_issued_by_id,
}
use payrune.Postgres.Allocations.Completed.{complete-read, IsNormal, read_as}
use payrune.Postgres.History.{Call, IsKept, after_all, has_id}
use payrune.Postgres.History.Addresses.{IsApart, after_all-final}
use payrune.Postgres.History.Kept.{after_all-IsKept}
use payrune.Postgres.Reserve.{
  is_cursor, space_of, with_cursor, reserve_fresh, fresh_row, reservation,
}
use payrune.Postgres.Reserve.Fresh.{reserve_fresh-unused, reserve_fresh-error}
use payrune.Postgres.Reserve.Slots.{IsSlotted}
use payrune.Postgres.Samples.{no_tables, tx}
use payrune.Postgres.Tables.{Tables, CursorRow, AllocationRow, null_if_empty}

abbrev policy : PolicyRecord
policy = record {
  address_policy_id = codes "btc";
  chain = bitcoin;
  network = mainnet;
  scheme = codes "taproot";
  asset_reference = [];
  decimals = pos 8;
  enabled = true;
  address_space_ref = codes " xpub ";
  issuance_ref_prefix = [];
}

abbrev request : ReserveAllocation
request = record { issuance_policy = policy; expected_amount = pos 1000; customer_reference = [] }

abbrev reserved_row : AllocationRow
reserved_row = record {
  id = pos 1;
  address_policy_id = codes "btc";
  address_space_ref = codes "xpub";
  slot_index = pos 0;
  expected_amount = pos 1000;
  customer_reference = none;
  chain = none;
  network = none;
  scheme = none;
  asset_reference = none;
  address = none;
  sweep_material = none;
  failure_reason = none;
  allocation_status = codes "reserved";
  reserved_at = pos 50;
  issued_at = none;
}

abbrev reserved_tables : Tables
reserved_tables = record no_tables {
  allocations = reserved_row ∷ [];
  cursors =
      record {
        address_policy_id = codes "btc";
        address_space_ref = codes "xpub";
        next_index = pos 1;
      }
      ∷ [];
  next_allocation_id = pos 2;
}

abbrev reserved_record : AllocationRecord
reserved_record = record {
  payment_address_id = pos 1;
  address_policy_id = codes "btc";
  slot_index = pos 0;
  expected_amount = pos 1000;
  customer_reference = [];
  status = codes "reserved";
  chain = [];
  network = [];
  scheme = [];
  asset_reference = [];
  address = [];
  derivation_failure_reason = [];
}

first_reserved : reserve_fresh tx request no_tables ≡ (ok reserved_record, reserved_tables)
unfolding reserve_fresh null_if_empty trim_space trim_left is_space ◌+ℤ◌
first_reserved = refl

no_tables-IsSlotted : IsSlotted no_tables
unfolding first
no_tables-IsSlotted = record { below = λ p r c h. tt; distinct = tt }

no_tables-IsKept : IsKept no_tables
no_tables-IsKept = record { slotted = no_tables-IsSlotted; unique = tt; ahead = tt }

reserve_fresh-unused_example :
    (reserved_record.slot_index ≤ℤ max_slot_index)
    × Unit {0}
    × (reserved_tables.allocations ≡ fresh_row (pos 50) request (pos 1) (pos 0) ∷ [])
    × (reserved_record ≡ reservation request (pos 1) (pos 0))
    × IsSlotted reserved_tables
reserve_fresh-unused_example =
    reserve_fresh-unused tx request no_tables no_tables-IsSlotted first_reserved

-- A cursor past the last slot.
abbrev full_tables : Tables
full_tables = record no_tables {
  cursors =
      record {
        address_policy_id = codes "btc";
        address_space_ref = codes "xpub";
        next_index = pos 0x80000000;
      }
      ∷ [];
}

full_refused : reserve_fresh tx request full_tables ≡ (err address_index_exhausted, full_tables)
unfolding reserve_fresh trim_space trim_left is_space
full_refused = refl

reserve_fresh-error_example :
    ◌≡◌ {A = payrune.Ports.Error.Error} address_index_exhausted address_index_exhausted
    × (c : CursorRow) × (first
          (is_cursor (codes "btc") (space_of request))
          (with_cursor (codes "btc") (space_of request) full_tables).cursors
        ≡ some c)
    × (max_slot_index <ℤ c.next_index)
unfolding first
reserve_fresh-error_example =
    reserve_fresh-error (λ _ _. false) (pos 50) request full_tables
      (record { below = λ p r c h. tt; distinct = tt }) full_refused

abbrev completion : CompleteAllocation
completion = record {
  allocation = record reserved_record {
    status = codes "issued";
    chain = bitcoin;
    network = mainnet;
    scheme = codes "taproot";
    address = codes "bc1q";
  };
  sweep_material = codes "{}";
  issued_at = pos 60;
}

abbrev calls : List Call
calls =
    Call.reserve tx request
    ∷ Call.complete_it tx completion
    ∷ Call.reopen tx request
    ∷ Call.reserve tx request
    ∷ []

after_all-IsKept_example : IsKept (after_all no_tables calls)
after_all-IsKept_example = after_all-IsKept calls no_tables no_tables-IsKept

abbrev issued_row : AllocationRow
issued_row = record reserved_row {
  chain = some bitcoin;
  network = some mainnet;
  scheme = some (codes "taproot");
  address = some (codes "bc1q");
  sweep_material = some (codes "{}");
  allocation_status = codes "issued";
  issued_at = some (pos 60);
}

abbrev issued_tables : Tables
issued_tables = record reserved_tables { allocations = issued_row ∷ [] }

row_completed : complete tx completion reserved_tables ≡ (ok tt, issued_tables)
unfolding complete complete_row null_if_empty trim_space trim_left is_space
row_completed = refl

issued_after :
    after_all no_tables (Call.reserve tx request ∷ Call.complete_it tx completion ∷ [])
    ≡ issued_tables
unfolding after_all reserve_fresh complete null_if_empty trim_space trim_left is_space ◌+ℤ◌
issued_after = refl

after_all-final_example :
    (first (has_id (pos 1)) (after_all issued_tables calls).allocations ≡ some issued_row)
    × All (IsApart (pos 1) bitcoin (codes "bc1q")) (after_all issued_tables calls).allocations
unfolding first
after_all-final_example =
    after_all-final calls (pos 1) bitcoin (codes "bc1q") issued_tables issued_row
      (rw (← issued_after) (after_all-IsKept _ no_tables no_tables-IsKept)) refl refl refl refl
      ((λ other. absurd (ground (arith, other))), tt)

completion-IsNormal : IsNormal completion.allocation
unfolding normalize_supported_chain is_portable_id byte_len is_id_char normalize_address_scheme
    trim_space trim_left is_space to_lower lower
completion-IsNormal = record {
  chain = refl;
  network = refl;
  scheme = refl;
  asset_reference = refl;
  address = refl;
}

complete-read_example :
    (b : AllocationRow) × (first (is_row (pos 1) reserved) reserved_tables.allocations ≡ some b)
    × (find_issued_by_id tx (pos 1) issued_tables
        ≡ (ok (some (read_as completion.allocation b)), issued_tables))
unfolding is_portable_id byte_len is_id_char
complete-read_example =
    complete-read tx tx completion reserved_tables (tt, tt) ((refl, refl), tt) completion-IsNormal
      (omega arith) row_completed refl
