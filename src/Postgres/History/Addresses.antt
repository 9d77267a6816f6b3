-- ===== src/Postgres/History/Addresses.antt =====
-- The address of an issued allocation of payment_address_allocation_store.go stays its own.
use payrune.Prelude.{
  ◌≡◌, refl, Bool, true, false, ◌&&◌, some, List, [], ◌∷◌, All, any, first, arith, Bool-cases, inl,
  inr,
}
use payrune.Prelude.Int.{ℤ, eqb_ℤ}
use payrune.Text.{Text, ◌==ᵗ◌, trim_space}
use payrune.Text.Laws.{==ᵗ_eq, ==ᵗ_refl}
use payrune.Result.{ok}
use payrune.Ports.Stores.{CompleteAllocation}
use payrune.Postgres.Allocations.{
  complete, complete_row, completed, mark_derivation_failed, with_failure, is_row, is_taken, holds,
  issued, reserved,
}
use payrune.Postgres.Driver.{Tx}
use payrune.Postgres.History.{
  IsKept, after_all, has_id, Call, reserve, reopen, complete_it, mark_it_failed, after_call,
}
use payrune.Postgres.History.Effects.{
  committed_cases, reopen-eq-ok, complete-eq-ok, mark_derivation_failed-eq-ok,
}
use payrune.Postgres.History.Issued.{after_call-issued}
use payrune.Postgres.History.Kept.{after_call-IsKept}
use payrune.Postgres.Reserve.{reserve_fresh, reopen_failed_reservation, reopened}
use payrune.Postgres.Reserve.Fresh.{reserve_fresh-unused}
use payrune.Postgres.Tables.{AllocationRow, Tables}
use payrune.Prelude.Rows.{All-append, All-first, All-update, every_one}

-- A row of another id has not this address on this chain.
abbrev pub IsApart : ℤ → Text → Text → AllocationRow → Type 0
IsApart id chain address b =
    eqb_ℤ b.id id ≡ false → holds chain b.chain && holds address b.address ≡ false

complete-free :
    (x : Tx) (input : CompleteAllocation) (t : Tables) {t' : Tables}
    → complete x input t ≡ (ok tt, t')
    → any (is_taken input) t.allocations ≡ false
unfolding complete complete_row
complete-free x input t h = ground arith

none_of :
    (p q : AllocationRow → Bool) (rows : List AllocationRow) (a : AllocationRow)
    → any p rows ≡ false
    → first q rows ≡ some a
    → p a ≡ false
unfolding first
none_of p q [] a h found = absurd (ground arith)
none_of p q (b ∷ rows) a h found = elim (Bool-cases (q b)) [
  | inl e ↦ ground arith
  | inr e ↦ let rest = none_of p q rows a (ground arith) (ground arith) in rest
]

module _ (id : ℤ) (chain address : Text) (t : Tables) (a : AllocationRow) (k : IsKept t)
    (found : first (has_id id) t.allocations ≡ some a) (on_chain : a.chain ≡ some chain)
    (at_address : a.address ≡ some address) where
  mine : eqb_ℤ a.id id ≡ true
  mine =
      (All-first (λ _. Unit) (has_id id) t.allocations
        (every_one (λ _. Unit) t.allocations (λ _. tt)) found).1

  completed-IsApart :
      (x : Tx) (input : CompleteAllocation) (b : AllocationRow)
      → any (is_taken input) t.allocations ≡ false
      → is_row input.allocation.payment_address_id reserved b ≡ true
      → IsApart id chain address (completed x.stored input b)
  completed-IsApart x input b free hit other =
      let ic = input.allocation.chain in
      let ia = trim_space input.allocation.address in
      let clear = none_of (is_taken input) (has_id id) t.allocations a free found in
      elim (Bool-cases (ic ==ᵗ chain && ia ==ᵗ address)) [
        | inr apart ↦ apart
        | inl same ↦ absurd (
            let c : ic ≡ chain = ==ᵗ_eq ic chain (ground arith) in
            let s : ia ≡ address = ==ᵗ_eq ia address (ground arith) in
            let rc : holds ic a.chain ≡ true = rw on_chain (rw c (==ᵗ_refl chain)) in
            let rs : holds ia a.address ≡ true = rw at_address (rw s (==ᵗ_refl address)) in
            let m = mine in ground arith)
      ]

  after_call-IsApart :
      (call : Call)
      → All (IsApart id chain address) t.allocations
      → All (IsApart id chain address) (after_call t call).allocations
  after_call-IsApart (reserve x input) h =
      committed_cases (λ u. All (IsApart id chain address) u.allocations) t
        (reserve_fresh x input t) h
        (λ r u made.
          rw ((reserve_fresh-unused x input t k.slotted made).2)
            (All-append (IsApart id chain address) t.allocations _ h ((λ _. refl), tt)))
  after_call-IsApart (reopen x input) h =
      committed_cases (λ u. All (IsApart id chain address) u.allocations) t
        (reopen_failed_reservation x input t) h
        (λ o u made. elim (reopen-eq-ok x input t made) [
          | inl same ↦ rw same h
          | inr (b, old, e) ↦ rw e (
              All-update (IsApart id chain address) (IsApart id chain address)
                (λ c. eqb_ℤ c.id b.id) (reopened x.now input) t.allocations (λ c _ _ _. refl)
                (λ c apart _. apart) h)
        ])
  after_call-IsApart (complete_it x input) h =
      committed_cases (λ u. All (IsApart id chain address) u.allocations) t (complete x input t) h
        (λ _ u made. rw (complete-eq-ok x input t made) (
          All-update (IsApart id chain address) (IsApart id chain address)
            (is_row input.allocation.payment_address_id reserved) (completed x.stored input)
            t.allocations
            (λ b _ hit. completed-IsApart x input b (complete-free x input t made) hit)
            (λ c apart _. apart) h))
  after_call-IsApart (mark_it_failed x r) h =
      committed_cases (λ u. All (IsApart id chain address) u.allocations) t
        (mark_derivation_failed x r t) h
        (λ _ u made. rw (mark_derivation_failed-eq-ok x r t made) (
          All-update (IsApart id chain address) (IsApart id chain address)
            (is_row r.payment_address_id reserved) (with_failure r.derivation_failure_reason)
            t.allocations (λ c apart _. apart) (λ c apart _. apart) h))

-- An issued allocation is final, and its address its own: whatever the store is asked for afterwards,
-- its row stays the row of its id, unchanged, and where no other row has its address on its chain, as
-- the table's constraint asks, none gets it.
pub after_all-final :
    (calls : List Call) (id : ℤ) (chain address : Text) (t : Tables) (a : AllocationRow)
    → IsKept t
    → first (has_id id) t.allocations ≡ some a
    → a.allocation_status ≡ issued
    → a.chain ≡ some chain
    → a.address ≡ some address
    → All (IsApart id chain address) t.allocations
    → (first (has_id id) (after_all t calls).allocations ≡ some a)
      × All (IsApart id chain address) (after_all t calls).allocations
unfolding after_all
after_all-final [] id chain address t a k found done c s h = (found, h)
after_all-final (call ∷ calls) id chain address t a k found done c s h =
    after_all-final calls id chain address (after_call t call) a (after_call-IsKept t call k)
      (after_call-issued id t a k found done call) done c s
      (after_call-IsApart id chain address t a k found c s call h)
