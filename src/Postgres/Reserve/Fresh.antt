-- ===== src/Postgres/Reserve/Fresh.antt =====
-- ReserveFresh of payment_address_allocation_store.go: it reserves a slot that is not used, and fails
-- only where the slots or the driver do.
use payrune.Prelude.{
  ◌⊎◌, ◌≡◌, refl, Bool, true, false, ◌&&◌, some, List, [], ◌∷◌, ◌++◌, All, any, first, arith,
  Bool-cases, Option-cases, inl, inr,
}
use payrune.Prelude.Int.{ℤ, eqb_ℤ, ◌≤ℤ◌, ◌<ℤ◌, ltb_ℤ}
use payrune.Text.{Text}
use payrune.Text.Laws.{==ᵗ_refl}
use payrune.Result.{ok, err, is_ok}
use payrune.Time.{Time}
use payrune.Ports.Error.{Error, address_index_exhausted}
use payrune.Ports.Records.{AllocationRecord}
use payrune.Ports.Stores.{ReserveAllocation}
use payrune.Postgres.Allocations.{max_slot_index}
use payrune.Postgres.Driver.{Tx, Statement, working}
use payrune.Postgres.Reserve.{
  is_in, is_cursor, with_cursor, fresh_row, space_of, reserve_fresh, reserve_slot, insert_row,
  reservation,
}
use payrune.Postgres.Reserve.Slots.{
  IsSlotted, same_slot, taken, slot_unused, taken-IsSlotted, with_cursor-IsSlotted, new_cursor,
}
use payrune.Postgres.Tables.{CursorRow, Tables}
use payrune.Prelude.Rows.{any-eq-first, some_of_any, first-append}

pub reserve_fresh-eq-ok :
    (x : Tx) (input : ReserveAllocation) (t : Tables) {t' : Tables} {a : AllocationRecord}
    → reserve_fresh x input t ≡ (ok a, t')
    → let u = with_cursor input.issuance_policy.address_policy_id (space_of input) t in
      (c : CursorRow) × (first
          (is_cursor input.issuance_policy.address_policy_id (space_of input))
          u.cursors
        ≡ some c)
      × (c.next_index ≤ℤ max_slot_index)
      × (a ≡ reservation input t.next_allocation_id c.next_index)
      × (t' ≡ taken x input c u)
unfolding reserve_fresh reserve_slot insert_row
reserve_fresh-eq-ok x input t h =
    let q = input.issuance_policy.address_policy_id in
    let u = with_cursor q (space_of input) t in
    elim (Option-cases (first (is_cursor q (space_of input)) u.cursors)) [
      | inl missing ↦ absurd (ground arith)
      | inr (c, found) ↦ (c, found, ground arith, ground arith, ground arith)
    ]

pub with_cursor-allocations :
    (p r : Text) (t : Tables)
    → ((with_cursor p r t).allocations ≡ t.allocations)
      × ((with_cursor p r t).next_allocation_id ≡ t.next_allocation_id)
with_cursor-allocations p r t = (ground arith, ground arith)

-- ReserveFresh reserves a slot of the address space that no allocation has, not above the greatest
-- slot, in one new row with the id that it returns; and the slots stay apart.
pub reserve_fresh-unused :
    (x : Tx) (input : ReserveAllocation) (t : Tables) {t' : Tables} {a : AllocationRecord}
    → IsSlotted t
    → reserve_fresh x input t ≡ (ok a, t')
    → let row = fresh_row x.now input t.next_allocation_id a.slot_index in
      (a.slot_index ≤ℤ max_slot_index)
      × All (λ b. same_slot b row ≡ false) t.allocations
      × (t'.allocations ≡ t.allocations ++ (row ∷ []))
      × (a ≡ reservation input t.next_allocation_id a.slot_index)
      × IsSlotted t'
reserve_fresh-unused x input t s h =
    let q = input.issuance_policy.address_policy_id in
    let (c, found, fits, made, e) = reserve_fresh-eq-ok x input t h in
    let (rows, ids) = with_cursor-allocations q (space_of input) t in
    let u = with_cursor q (space_of input) t in
    let v = with_cursor-IsSlotted q (space_of input) t s in
    (
      rw made fits,
      rw made (rw (← rows) (slot_unused x input u v c found)),
      rw e (rw made (rw rows (rw ids))),
      rw made,
      rw e (taken-IsSlotted x input u v c found),
    )

not_any : {A : Type 0} (p : A → Bool) (xs : List A) → All (λ a. p a ≡ false) xs → any p xs ≡ false
not_any p [] h = refl
not_any p (a ∷ xs) h = ground (arith, h.0, not_any p xs h.1)

first_one :
    (p r : Text) (t : Tables)
    → first (is_cursor p r) (new_cursor p r t ∷ []) ≡ some (new_cursor p r t)
unfolding first new_cursor
first_one p r t = ground (arith, ==ᵗ_refl p, ==ᵗ_refl r)

with_cursor_total :
    (p r : Text) (t : Tables)
    → (c : CursorRow) × (first (is_cursor p r) (with_cursor p r t).cursors ≡ some c)
unfolding new_cursor
with_cursor_total p r t = elim (Bool-cases (any (is_cursor p r) t.cursors)) [
  | inl e ↦ rw e (some_of_any (is_cursor p r) t.cursors e)
  | inr e ↦ rw e (
    new_cursor p r t,
    rw (first-append (is_cursor p r) t.cursors (new_cursor p r t ∷ []))
        (rw (any-eq-first (is_cursor p r) t.cursors e) (first_one p r t)),
  )
]

reserve_slot-error :
    (locked : Statement → ℤ → Bool) (now : Time) (input : ReserveAllocation) (u : Tables)
    (c : CursorRow)
    → any
        (λ a.
          is_in input.issuance_policy.address_policy_id (space_of input) a
          && eqb_ℤ a.slot_index c.next_index)
        u.allocations
      ≡ false
    → (is_ok (reserve_slot (working locked now) input c u).0 ≡ true)
      ⊎ (((reserve_slot (working locked now) input c u).0 ≡ err address_index_exhausted)
          × (max_slot_index <ℤ c.next_index))
unfolding reserve_slot insert_row
reserve_slot-error locked now input u c unused =
    elim (Bool-cases (ltb_ℤ max_slot_index c.next_index)) [
      | inl full ↦ inr (rw full, ground arith)
      | inr room ↦ inl (ground arith)
    ]

-- Where the driver does its part, ReserveFresh only fails with the error of a full space, and then the
-- next slot of the space's cursor, or of the one that it gets now, is past the greatest slot.
pub reserve_fresh-error :
    (locked : Statement → ℤ → Bool) (now : Time) (input : ReserveAllocation) (t : Tables)
    {t' : Tables} {e : Error}
    → IsSlotted t
    → reserve_fresh (working locked now) input t ≡ (err e, t')
    → let policy_id = input.issuance_policy.address_policy_id in
      (e ≡ address_index_exhausted)
      × (c : CursorRow) × (first
            (is_cursor policy_id (space_of input))
            (with_cursor policy_id (space_of input) t).cursors
          ≡ some c)
      × (max_slot_index <ℤ c.next_index)
unfolding reserve_fresh
reserve_fresh-error locked now input t s h =
    let x = working locked now in
    let q = input.issuance_policy.address_policy_id in
    let o = space_of input in
    let u = with_cursor q o t in
    let (c, found) = with_cursor_total q o t in
    let v = with_cursor-IsSlotted q o t s in
    let unused =
      not_any (λ a. is_in q o a && eqb_ℤ a.slot_index c.next_index) u.allocations
        (slot_unused x input u v c found) in
    elim (reserve_slot-error locked now input u c unused) [
      | inl done ↦ absurd (ground arith)
      | inr (full, past) ↦ (ground arith, c, found, past)
    ]
