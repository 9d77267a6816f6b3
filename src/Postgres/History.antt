-- ===== src/Postgres/History.antt =====
-- The life of the allocations of payment_address_allocation_store.go under any sequence of its
-- operations, each in a transaction of its own that is rolled back where the operation fails.
mod Examples
pub mod Effects
pub mod Kept
pub mod Issued
pub mod Addresses
use payrune.Prelude.{
  ◌≡◌, ◌⊎◌, refl, sym, ◌∙◌, Bool, true, false, ◌&&◌, not, Option, none, some, List, [], ◌∷◌, ◌++◌,
  All, any, first, filter, update, arith, Bool-cases, Option-cases, inl, inr, if◌then◌else◌,
}
use payrune.Prelude.Int.{ℤ, pos, eqb_ℤ, ◌<ℤ◌, ◌≤ℤ◌, ◌+ℤ◌, +ℤ_parts}
use payrune.Text.{Text, ◌==ᵗ◌}
use payrune.Text.Laws.{==ᵗ_iff}
use payrune.Result.{Result, ok, err, result-cases}
use payrune.Time.{Time}
use payrune.Ports.Error.{Error, allocation_store_failed, allocation_not_reserved}
use payrune.Ports.Records.{AllocationRecord}
use payrune.Ports.Stores.{ReserveAllocation, CompleteAllocation}
use payrune.Postgres.Allocations.{
  complete, complete_row, completed, mark_derivation_failed, mark_row, with_failure, is_row, issued,
  reserved, derivation_failed,
}
use payrune.Postgres.Driver.{Tx, Query, mark_failed}
use payrune.Postgres.Driver.Laws.{exec-eq-ok}
use payrune.Postgres.Due.{sort}
use payrune.Postgres.Due.Laws.{All-sort}
use payrune.Postgres.Reserve.{
  reserve_fresh, reopen_failed_reservation, reopen_found, reopen_row, oldest_failed, reopened,
  fresh_row, space_of, with_cursor, is_in, reservation,
}
use payrune.Postgres.Reserve.Fresh.{
  reserve_fresh-unused, reserve_fresh-eq-ok, with_cursor-allocations,
}
use payrune.Postgres.Reserve.Slots.{IsSlotted, same_slot, taken}
use payrune.Postgres.Tables.{AllocationRow, Tables}
use payrune.Prelude.Rows.{
  Pairwise, Pairwise-append, Pairwise-update, some_injective, All-mono, All-append, All-update,
  All-first, All-filter, every_one, first-append, first-update,
}

-- An operation of the store that writes, with its transaction and its arguments.
pub data Call : Type 0 where
  reserve reopen : Tx → ReserveAllocation → Call
  complete_it : Tx → CompleteAllocation → Call
  mark_it_failed : Tx → AllocationRecord → Call

abbrev pub committed : {A : Type 0} → Tables → Result Error A × Tables → Tables
committed t (ok _, t') = t'
committed t (err _, _) = t

-- What one call leaves behind, and a sequence of them.
abbrev pub after_call : Tables → Call → Tables
after_call t (reserve x input) = committed t (reserve_fresh x input t)
after_call t (reopen x input) = committed t (reopen_failed_reservation x input t)
after_call t (complete_it x input) = committed t (complete x input t)
after_call t (mark_it_failed x allocation) = committed t (mark_derivation_failed x allocation t)

unfoldable pub after_all : Tables → List Call → Tables
after_all t [] = t
after_all t (call ∷ calls) = after_all (after_call t call) calls

abbrev pub has_id : ℤ → AllocationRow → Bool
has_id id a = eqb_ℤ a.id id

abbrev pub same_id : AllocationRow → AllocationRow → Bool
same_id a b = eqb_ℤ a.id b.id

-- The slots and the ids are apart, and BIGSERIAL is ahead of the ids.
pub record IsKept (t : Tables) : Type 0 where
  pub slotted : IsSlotted t
  pub unique : Pairwise same_id t.allocations
  pub ahead : All (λ a. a.id <ℤ t.next_allocation_id) t.allocations
