-- ===== src/Postgres/History/Kept.antt =====
-- The operations of payment_address_allocation_store.go keep slots and ids apart.
use payrune.Prelude.{◌≡◌, refl, Bool, true, false, List, [], ◌∷◌, update, arith, inl, inr}
use payrune.Prelude.Int.{ℤ, pos, eqb_ℤ, ◌<ℤ◌, ◌+ℤ◌, +ℤ_parts}
use payrune.Text.{Text}
use payrune.Result.{ok}
use payrune.Time.{Time}
use payrune.Ports.Records.{AllocationRecord}
use payrune.Ports.Stores.{ReserveAllocation, CompleteAllocation}
use payrune.Postgres.Allocations.{complete, completed, mark_derivation_failed, with_failure}
use payrune.Postgres.Driver.{Tx}
use payrune.Postgres.History.{
  IsKept, Call, after_all, same_id, reserve, reopen, complete_it, mark_it_failed, after_call,
}
use payrune.Postgres.History.Effects.{
  reopen-eq-ok, complete-eq-ok, mark_derivation_failed-eq-ok, committed_cases,
}
use payrune.Postgres.Reserve.{
  reserve_fresh, reopen_failed_reservation, reopened, fresh_row, space_of, is_in,
}
use payrune.Postgres.Reserve.Fresh.{
  reserve_fresh-unused, reserve_fresh-eq-ok, with_cursor-allocations,
}
use payrune.Postgres.Reserve.Slots.{same_slot}
use payrune.Postgres.Tables.{AllocationRow, Tables}
use payrune.Prelude.Rows.{Pairwise-append, Pairwise-update, All-mono, All-append, All-update}

-- An update that leaves the id and the slot of a row alone.
pub record KeepsKeys (f : AllocationRow → AllocationRow) : Type 0 where
  pub id : (a : AllocationRow) → (f a).id ≡ a.id
  pub policy_id : (a : AllocationRow) → (f a).address_policy_id ≡ a.address_policy_id
  pub space : (a : AllocationRow) → (f a).address_space_ref ≡ a.address_space_ref
  pub slot : (a : AllocationRow) → (f a).slot_index ≡ a.slot_index

same_slot-keeps :
    (f : AllocationRow → AllocationRow) (a b : AllocationRow)
    → KeepsKeys f
    → (same_slot (f a) b ≡ same_slot a b) × (same_slot a (f b) ≡ same_slot a b)
same_slot-keeps f a b k =
    (rw (k.policy_id a, k.space a, k.slot a), rw (k.policy_id b, k.space b, k.slot b))

update-IsKept :
    (p : AllocationRow → Bool) (f : AllocationRow → AllocationRow) (t : Tables)
    → KeepsKeys f
    → IsKept t
    → IsKept (record t { allocations = update p f t.allocations })
update-IsKept p f t k h = record {
  slotted = record {
    below = λ q o c found.
        All-update (λ a. is_in q o a ≡ true → a.slot_index <ℤ c.next_index)
          (λ a. is_in q o a ≡ true → a.slot_index <ℤ c.next_index) p f t.allocations
          (λ a low _ e. let mine = rw (k.policy_id a, k.space a) at e in rw (k.slot a) (low mine))
          (λ a low _. low) (h.slotted.below q o c found);
    distinct =
        Pairwise-update same_slot p f t.allocations (λ a b. (same_slot-keeps f a b k).0)
          (λ a b. (same_slot-keeps f a b k).1) h.slotted.distinct;
  };
  unique =
      Pairwise-update same_id p f t.allocations (λ a b. rw (k.id a)) (λ a b. rw (k.id b)) h.unique;
  ahead =
      All-update (λ a. a.id <ℤ t.next_allocation_id) (λ a. a.id <ℤ t.next_allocation_id) p f
        t.allocations (λ a low _. rw (k.id a) low) (λ a low _. low) h.ahead;
}

-- Each operation that returns has made one such update, or a reservation.
completed-KeepsKeys : (keep : ℤ → ℤ) (input : CompleteAllocation) → KeepsKeys (completed keep input)
completed-KeepsKeys keep input = record {
  id = λ a. refl;
  policy_id = λ a. refl;
  space = λ a. refl;
  slot = λ a. refl;
}

failed-KeepsKeys : (reason : Text) → KeepsKeys (with_failure reason)
failed-KeepsKeys reason = record {
  id = λ a. refl;
  policy_id = λ a. refl;
  space = λ a. refl;
  slot = λ a. refl;
}

reopened-KeepsKeys : (now : Time) (input : ReserveAllocation) → KeepsKeys (reopened now input)
reopened-KeepsKeys now input = record {
  id = λ a. refl;
  policy_id = λ a. refl;
  space = λ a. refl;
  slot = λ a. refl;
}

next_id-fresh :
    (x : Tx) (input : ReserveAllocation) (t : Tables) {u : Tables} {a : AllocationRecord}
    → reserve_fresh x input t ≡ (ok a, u)
    → u.next_allocation_id ≡ t.next_allocation_id +ℤ pos 1
next_id-fresh x input t h =
    let (c, found, fits, made, e) = reserve_fresh-eq-ok x input t h in
    let ids =
      (with_cursor-allocations input.issuance_policy.address_policy_id (space_of input) t).1 in
    rw e (rw ids refl)

fresh-IsKept :
    (x : Tx) (input : ReserveAllocation) (t u : Tables) (a : AllocationRecord)
    → IsKept t
    → reserve_fresh x input t ≡ (ok a, u)
    → IsKept u
fresh-IsKept x input t u a k h =
    let (_, _, rows, _, slots) = reserve_fresh-unused x input t k.slotted h in
    let row = fresh_row x.now input t.next_allocation_id a.slot_index in
    let next = next_id-fresh x input t h in
    record {
      slotted = slots;
      unique = rw rows (
          Pairwise-append same_id t.allocations row
            (All-mono (λ b. b.id <ℤ t.next_allocation_id) (λ b. same_id b row ≡ false) t.allocations
              (λ b low. ground arith) k.ahead)
            k.unique);
      ahead =
          rw (rows, next)
            (All-append (λ b. b.id <ℤ t.next_allocation_id +ℤ pos 1) t.allocations (row ∷ [])
              (All-mono (λ b. b.id <ℤ t.next_allocation_id)
                (λ b. b.id <ℤ t.next_allocation_id +ℤ pos 1) t.allocations
                (λ b low. omega (arith, +ℤ_parts t.next_allocation_id (pos 1))) k.ahead)
              (omega (arith, +ℤ_parts t.next_allocation_id (pos 1)), tt));
    }

pub after_call-IsKept : (t : Tables) (call : Call) → IsKept t → IsKept (after_call t call)
after_call-IsKept t (reserve x input) k =
    committed_cases IsKept t (reserve_fresh x input t) k (λ a u. fresh-IsKept x input t u a k)
after_call-IsKept t (reopen x input) k =
    committed_cases IsKept t (reopen_failed_reservation x input t) k (λ o u h.
      elim (reopen-eq-ok x input t h) [
        | inl same ↦ rw same k
        | inr (a, _, e) ↦ rw e (
            update-IsKept (λ b. eqb_ℤ b.id a.id) (reopened x.now input) t
              (reopened-KeepsKeys x.now input) k)
      ])
after_call-IsKept t (complete_it x input) k =
    committed_cases IsKept t (complete x input t) k (λ _ u h.
      rw (complete-eq-ok x input t h) (update-IsKept _ _ t (completed-KeepsKeys x.stored input) k))
after_call-IsKept t (mark_it_failed x a) k =
    committed_cases IsKept t (mark_derivation_failed x a t) k (λ _ u h.
      rw (mark_derivation_failed-eq-ok x a t h)
        (update-IsKept _ _ t (failed-KeepsKeys a.derivation_failure_reason) k))

-- Whatever the store is asked for, the slots of an address space stay apart, and so do the ids.
pub after_all-IsKept : (calls : List Call) (t : Tables) → IsKept t → IsKept (after_all t calls)
unfolding after_all
after_all-IsKept [] t k = k
after_all-IsKept (call ∷ calls) t k =
    after_all-IsKept calls (after_call t call) (after_call-IsKept t call k)
