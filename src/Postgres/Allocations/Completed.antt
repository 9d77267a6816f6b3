-- ===== src/Postgres/Allocations/Completed.antt =====
-- What Complete of payment_address_allocation_store.go stores is what FindIssuedByID finds.
use payrune.Prelude.{
  ◌≡◌, refl, Bool, true, false, some, List, [], ◌∷◌, All, any, first, update, arith, Bool-cases,
  inl, inr,
}
use payrune.Prelude.Int.{ℤ, pos, eqb_ℤ, ◌<ℤ◌}
use payrune.Text.{trim_space, to_lower, trim_left}
use payrune.Text.Id.{is_portable_id}
use payrune.Result.{ok}
use payrune.Ports.Records.{AllocationRecord}
use payrune.Ports.Stores.{CompleteAllocation}
use payrune.Ports.Validation.{normalize_supported_chain, normalize_address_scheme}
use payrune.Postgres.Allocations.{
  complete, complete_row, completed, is_row, issued, reserved, issued_record, find_issued_by_id,
  find_row, is_out_of_range,
}
use payrune.Postgres.Driver.{Tx, find_issued}
use payrune.Postgres.Reasons.{stored_derivation_reason}
use payrune.Postgres.Tables.{AllocationRow, Tables, coalesce}
use payrune.Postgres.Trackings.Stored.{normalize_id_self, coalesce-null_if_empty}
use payrune.Prelude.Rows.{Pairwise, All-first, some_injective, some_of_any}

abbrev pub same_id : AllocationRow → AllocationRow → Bool
same_id a b = eqb_ℤ a.id b.id

-- The texts of an allocation that is completed are in normal form.
pub record IsNormal (a : AllocationRecord) : Type 0 where
  pub chain : normalize_supported_chain a.chain ≡ some a.chain
  pub network : is_portable_id a.network ≡ true
  pub scheme : normalize_address_scheme a.scheme ≡ some a.scheme
  pub asset_reference : trim_space a.asset_reference ≡ a.asset_reference
  pub address : trim_space a.address ≡ a.address

-- The record that is read of a completed row: texts from the allocation, the reservation from the row.
abbrev pub read_as : AllocationRecord → AllocationRow → AllocationRecord
read_as a b = record a {
  payment_address_id = b.id;
  address_policy_id = b.address_policy_id;
  slot_index = b.slot_index;
  expected_amount = b.expected_amount;
  customer_reference = coalesce b.customer_reference;
  status = issued;
  derivation_failure_reason = [];
}

no_reason : stored_derivation_reason [] ≡ []
unfolding stored_derivation_reason to_lower trim_space trim_left
no_reason = refl

completed_read :
    (keep : ℤ → ℤ) (input : CompleteAllocation) (b : AllocationRow)
    → IsNormal input.allocation
    → is_portable_id b.address_policy_id ≡ true
    → is_out_of_range b.slot_index ≡ false
    → issued_record (completed keep input b) ≡ ok (read_as input.allocation b)
unfolding issued_record
completed_read keep input b n policy slot = ground (
  arith,
  n.chain,
  normalize_id_self input.allocation.network n.network,
  normalize_id_self b.address_policy_id policy,
  n.scheme,
  n.asset_reference,
  n.address,
  coalesce-null_if_empty (trim_space input.allocation.asset_reference),
  no_reason,
)

-- The row of an id is the first with the id in either status, as no other row has the id.
first-completed :
    (id : ℤ) (f : AllocationRow → AllocationRow) (rows : List AllocationRow) (b : AllocationRow)
    → Pairwise same_id rows
    → first (is_row id reserved) rows ≡ some b
    → ((a : AllocationRow) → (f a).id ≡ a.id)
    → ((a : AllocationRow) → (f a).allocation_status ≡ issued)
    → first (is_row id issued) (update (is_row id reserved) f rows) ≡ some (f b)
unfolding first update
first-completed id f [] b d h same done = cc
first-completed id f (a ∷ rows) b d h same done = elim (Bool-cases (is_row id reserved a)) [
  | inl e ↦ let is_b : a ≡ b = some_injective (rw e at h) in rw e (ground (arith, same a, done a))
  | inr e ↦
      let later : first (is_row id reserved) rows ≡ some b = rw e at h in
      let passed = (All-first (λ c. same_id a c ≡ false) (is_row id reserved) rows d.0 later) in
      let other : is_row id issued a ≡ false = ground arith in
      rw (e, other) (first-completed id f rows b d.1 later same done)
]

complete-eq-ok :
    (x : Tx) (input : CompleteAllocation) (t : Tables) {t' : Tables}
    → complete x input t ≡ (ok tt, t')
    → (any (is_row input.allocation.payment_address_id reserved) t.allocations ≡ true)
      × (t' ≡ record t {
        allocations =
            update
              (is_row input.allocation.payment_address_id reserved)
              (completed x.stored input)
              t.allocations;
      })
unfolding complete complete_row
complete-eq-ok x input t h = (ground arith, ground arith)

find_issued-eq-ok :
    (y : Tx) (id : ℤ) (t : Tables) (a : AllocationRow) {r : AllocationRecord}
    → y.fails find_issued t ≡ false
    → pos 0 <ℤ id
    → first (is_row id issued) t.allocations ≡ some a
    → issued_record a ≡ ok r
    → find_issued_by_id y id t ≡ (ok (some r), t)
unfolding find_issued_by_id find_row
find_issued-eq-ok y id t a up positive here read = ground arith

-- Complete takes a reserved row. A reservation that is completed with texts in normal form is then
-- found as issued, with these texts and with the policy, slot, amount and customer that were
-- reserved.
pub complete-read :
    (x y : Tx) (input : CompleteAllocation) (t : Tables) {t' : Tables}
    → Pairwise same_id t.allocations
    → All
        (λ a. (is_portable_id a.address_policy_id ≡ true) × (is_out_of_range a.slot_index ≡ false))
        t.allocations
    → IsNormal input.allocation
    → pos 0 <ℤ input.allocation.payment_address_id
    → complete x input t ≡ (ok tt, t')
    → y.fails find_issued t' ≡ false
    → (b : AllocationRow) × (first
          (is_row input.allocation.payment_address_id reserved)
          t.allocations
        ≡ some b)
      × (find_issued_by_id y input.allocation.payment_address_id t'
          ≡ (ok (some (read_as input.allocation b)), t'))
complete-read x y input t {t'} apart sound n positive h up =
    let id = input.allocation.payment_address_id in
    let (some_row, e) = complete-eq-ok x input t h in
    let (b, here) = some_of_any (is_row id reserved) t.allocations some_row in
    let ((policy, slot), _) =
      All-first
        (λ a. (is_portable_id a.address_policy_id ≡ true) × (is_out_of_range a.slot_index ≡ false))
        (is_row id reserved) t.allocations sound here in
    let found : first (is_row id issued) t'.allocations ≡ some (completed x.stored input b) = rw e (
      first-completed id (completed x.stored input) t.allocations b apart here (λ a. refl)
        (λ a. refl)) in
    (
      b,
      here,
      find_issued-eq-ok y id t' (completed x.stored input b) up positive found
          (completed_read x.stored input b n policy slot),
    )
