-- ===== src/Postgres/Allocations.antt =====
-- payment_address_allocation_store.go of internal/adapters/outbound/persistence/postgres.
pub mod Completed
use payrune.Prelude.{
  Bool, ◌&&◌, ◌||◌, false, not, Option, none, some, any, update, first, if◌then◌else◌,
}
use payrune.Prelude.Int.{ℤ, pos, eqb_ℤ, leb_ℤ, ltb_ℤ}
use payrune.Text.{Text, codes, ◌==ᵗ◌, is_empty, trim_space}
use payrune.Result.{Result, ok, err}
use payrune.Time.{Time, is_zero}
use payrune.Ports.Error.{
  Error, allocation_store_failed, address_index_exhausted, allocation_persisted_chain_invalid,
  allocation_persisted_policy_id_invalid, allocation_persisted_network_invalid,
  allocation_issued_at_required, allocation_not_reserved,
}
use payrune.Ports.Records.{AllocationRecord}
use payrune.Ports.Stores.{CompleteAllocation}
use payrune.Ports.Validation.{normalize_id, normalize_supported_chain, normalize_address_scheme}
use payrune.Postgres.Driver.{
  Tx, Query, pure, run, read, guard, lift, ◌>>=◌, find_issued, complete_allocation, mark_failed,
}
use payrune.Postgres.Reasons.{stored_derivation_reason}
use payrune.Postgres.Tables.{AllocationRow, coalesce, null_if_empty}

abbrev pub max_slot_index : ℤ
max_slot_index = pos 0x7fffffff

abbrev pub reserved : Text
reserved = codes "reserved"

abbrev pub issued : Text
issued = codes "issued"

abbrev pub derivation_failed : Text
derivation_failed = codes "derivation_failed"

abbrev pub is_row : ℤ → Text → AllocationRow → Bool
is_row id status a = eqb_ℤ a.id id && a.allocation_status ==ᵗ status

abbrev pub is_out_of_range : ℤ → Bool
is_out_of_range slot = ltb_ℤ slot (pos 0) || ltb_ℤ max_slot_index slot

-- The tests and the record of FindIssuedByID, behind Scan. The slot fits a uint32.
unfoldable pub issued_record : AllocationRow → Result Error AllocationRecord
issued_record a =
    let (policy_id, policy_id_ok) = normalize_id a.address_policy_id in
    let (network, network_ok) = normalize_id (coalesce a.network) in
    if is_out_of_range a.slot_index
    then err address_index_exhausted
    else elim (normalize_supported_chain (coalesce a.chain)) [
      | none ↦ err allocation_persisted_chain_invalid
      | some chain ↦
          if not policy_id_ok
          then err allocation_persisted_policy_id_invalid
          else if not network_ok
          then err allocation_persisted_network_invalid
          else elim (normalize_address_scheme (coalesce a.scheme)) [
            | none ↦ err allocation_store_failed
            | some scheme ↦ ok (record {
              payment_address_id = a.id;
              address_policy_id = policy_id;
              slot_index = a.slot_index;
              expected_amount = a.expected_amount;
              customer_reference = coalesce a.customer_reference;
              status = issued;
              chain = chain;
              network = network;
              scheme = scheme;
              asset_reference = trim_space (coalesce a.asset_reference);
              address = trim_space (coalesce a.address);
              derivation_failure_reason = stored_derivation_reason (coalesce a.failure_reason);
            })
          ]
    ]

abbrev pub found : Result Error AllocationRecord → Result Error (Option AllocationRecord)
found r = elim r [ err e ↦ err e | ok a ↦ ok (some a) ]

unfoldable pub find_row : ℤ → Query (Option AllocationRow)
unfolding first
find_row id t = (ok (first (is_row id issued) t.allocations), t)

-- PaymentAddressAllocationStore.FindIssuedByID
unfoldable pub find_issued_by_id : Tx → ℤ → Query (Option AllocationRecord)
unfolding find_row
find_issued_by_id x id = if leb_ℤ id (pos 0) then pure none else (do
  row ← run x find_issued allocation_store_failed (find_row id)
  elim row [ none ↦ pure none | some a ↦ lift (found (issued_record a)) ])

abbrev pub completed : (Time → Time) → CompleteAllocation → AllocationRow → AllocationRow
completed keep input a = record a {
  chain = some input.allocation.chain;
  network = some input.allocation.network;
  scheme = some input.allocation.scheme;
  address = some (trim_space input.allocation.address);
  asset_reference = null_if_empty (trim_space input.allocation.asset_reference);
  sweep_material = some (trim_space input.sweep_material);
  failure_reason = none;
  allocation_status = issued;
  issued_at = some (keep input.issued_at);
}

abbrev pub holds : Text → Option Text → Bool
holds s none = false
holds s (some s') = s' ==ᵗ s

-- UNIQUE (chain, address), against the other rows
abbrev pub is_taken : CompleteAllocation → AllocationRow → Bool
is_taken input a =
    not (eqb_ℤ a.id input.allocation.payment_address_id)
    && holds input.allocation.chain a.chain
    && holds (trim_space input.allocation.address) a.address

-- The UPDATE of Complete, with whether it met a row.
unfoldable pub complete_row : (Time → Time) → CompleteAllocation → Query Bool
unfolding update null_if_empty
complete_row keep input t =
    let is_target = is_row input.allocation.payment_address_id reserved in
    if any is_target t.allocations && any (is_taken input) t.allocations
    then (err allocation_store_failed, t)
    else (
      ok (any is_target t.allocations),
      record t { allocations = update is_target (completed keep input) t.allocations },
    )

-- PaymentAddressAllocationStore.Complete
unfoldable pub complete : Tx → CompleteAllocation → Query Unit
unfolding complete_row
complete x input = guard (is_zero input.issued_at) allocation_issued_at_required (
    guard (is_empty (trim_space input.sweep_material)) allocation_store_failed (do
      updated ← run x complete_allocation allocation_store_failed (complete_row x.stored input)
      affected ← read x complete_allocation allocation_store_failed updated
      guard (not affected) allocation_not_reserved (pure tt)))

abbrev pub with_failure : Text → AllocationRow → AllocationRow
with_failure reason a = record a {
  failure_reason = null_if_empty reason;
  allocation_status = derivation_failed;
}

-- The UPDATE of MarkDerivationFailed, with whether it met a row.
unfoldable pub mark_row : AllocationRecord → Query Bool
unfolding update null_if_empty
mark_row allocation t =
    let is_target = is_row allocation.payment_address_id reserved in
    (
      ok (any is_target t.allocations),
      record t {
        allocations =
            update is_target (with_failure allocation.derivation_failure_reason) t.allocations;
      },
    )

-- PaymentAddressAllocationStore.MarkDerivationFailed
unfoldable pub mark_derivation_failed : Tx → AllocationRecord → Query Unit
unfolding mark_row
mark_derivation_failed x allocation = do
  updated ← run x mark_failed allocation_store_failed (mark_row allocation)
  affected ← read x mark_failed allocation_store_failed updated
  guard (not affected) allocation_not_reserved (pure tt)
