-- ===== src/Postgres/History/Effects.antt =====
-- What each operation of payment_address_allocation_store.go that returns has changed.
use payrune.Prelude.{
  ◌≡◌, ◌⊎◌, refl, true, Option, some, List, All, update, arith, Option-cases, inl, inr,
}
use payrune.Prelude.Int.{eqb_ℤ}
use payrune.Text.{◌==ᵗ◌}
use payrune.Result.{Result, ok, err}
use payrune.Ports.Error.{Error, allocation_store_failed, allocation_not_reserved}
use payrune.Ports.Records.{AllocationRecord}
use payrune.Ports.Stores.{ReserveAllocation, CompleteAllocation}
use payrune.Postgres.Allocations.{
  complete, complete_row, completed, mark_derivation_failed, mark_row, with_failure, is_row,
  reserved, derivation_failed,
}
use payrune.Postgres.Driver.{Tx, mark_failed}
use payrune.Postgres.Driver.Laws.{exec-eq-ok}
use payrune.Postgres.Due.Laws.{All-sort}
use payrune.Postgres.History.{committed}
use payrune.Postgres.Reserve.{
  reopen_failed_reservation, reopen_found, reopen_row, oldest_failed, reopened,
}
use payrune.Postgres.Tables.{AllocationRow, Tables}
use payrune.Prelude.Rows.{All-mono, All-first, All-filter}

pub complete-eq-ok :
    (x : Tx) (input : CompleteAllocation) (t : Tables) {t' : Tables}
    → complete x input t ≡ (ok tt, t')
    → t' ≡ record t {
      allocations =
          update
            (is_row input.allocation.payment_address_id reserved)
            (completed x.stored input)
            t.allocations;
    }
unfolding complete complete_row
complete-eq-ok x input t h = ground arith

pub mark_derivation_failed-eq-ok :
    (x : Tx) (a : AllocationRecord) (t : Tables) {t' : Tables}
    → mark_derivation_failed x a t ≡ (ok tt, t')
    → t' ≡ record t {
      allocations =
          update
            (is_row a.payment_address_id reserved)
            (with_failure a.derivation_failure_reason)
            t.allocations;
    }
unfolding mark_derivation_failed mark_row
mark_derivation_failed-eq-ok x a t h =
    let made =
      exec-eq-ok x mark_failed allocation_store_failed allocation_store_failed
        allocation_not_reserved (mark_row a) t h in
    ground arith

pub reopen-eq-ok :
    (x : Tx) (input : ReserveAllocation) (t : Tables) {t' : Tables} {o : Option AllocationRecord}
    → reopen_failed_reservation x input t ≡ (ok o, t')
    → (t' ≡ t)
      ⊎ ((a : AllocationRow) × (oldest_failed x input t.allocations ≡ some a)
          × (t' ≡ record t {
            allocations = update (λ b. eqb_ℤ b.id a.id) (reopened x.now input) t.allocations;
          }))
unfolding reopen_failed_reservation reopen_found reopen_row
reopen-eq-ok x input t h = elim (Option-cases (oldest_failed x input t.allocations)) [
  | inl p ↦ inl (ground arith)
  | inr (a, p) ↦ inr (a, p, ground arith)
]

-- What a query leaves that is committed: what it made, or nothing.
pub committed_cases :
    {A : Type 0} (P : Tables → Type 0) (t : Tables) (r : Result Error A × Tables)
    → P t
    → ((a : A) (u : Tables) → r ≡ (ok a, u) → P u)
    → P (committed t r)
committed_cases P t (ok a, u) h k = k a u refl
committed_cases P t (err e, u) h k = h

-- No row that a failed reservation is reopened for is one that the predicate excludes.
pub All-oldest_failed :
    (P : AllocationRow → Type 0) (x : Tx) (input : ReserveAllocation) (rows : List AllocationRow)
    {a : AllocationRow}
    → All (λ b. b.allocation_status ==ᵗ derivation_failed ≡ true → P b) rows
    → oldest_failed x input rows ≡ some a
    → P a
unfolding oldest_failed
All-oldest_failed P x input rows h found =
    (All-first P (λ a. true) _
      (All-sort (λ a. a.id) (λ a. a.reserved_at) P _
        (All-filter P _ rows (
          All-mono (λ b. b.allocation_status ==ᵗ derivation_failed ≡ true → P b) _ rows
            (λ b keep q. keep (ground arith)) h)))
      found).0
