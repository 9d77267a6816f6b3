-- ===== src/Postgres/History/Issued.antt =====
-- An issued allocation of payment_address_allocation_store.go is final.
use payrune.Prelude.{
  ◌≡◌, refl, Bool, true, false, some, List, [], ◌∷◌, All, first, update, arith, Bool-cases, inl,
  inr,
}
use payrune.Prelude.Int.{ℤ, eqb_ℤ}
use payrune.Text.{Text, ◌==ᵗ◌}
use payrune.Ports.Stores.{ReserveAllocation}
use payrune.Postgres.Allocations.{
  complete, completed, mark_derivation_failed, with_failure, is_row, issued, reserved,
  derivation_failed,
}
use payrune.Postgres.Driver.{Tx}
use payrune.Postgres.History.{
  IsKept, has_id, same_id, Call, reserve, reopen, complete_it, mark_it_failed, after_call,
}
use payrune.Postgres.History.Effects.{
  committed_cases, All-oldest_failed, reopen-eq-ok, complete-eq-ok, mark_derivation_failed-eq-ok,
}
use payrune.Postgres.Reserve.{reserve_fresh, reopen_failed_reservation, oldest_failed, reopened}
use payrune.Postgres.Reserve.Fresh.{reserve_fresh-unused}
use payrune.Postgres.Tables.{AllocationRow, Tables}
use payrune.Prelude.Rows.{
  Pairwise, some_injective, All-mono, All-first, every_one, first-append, first-update,
}

-- An id is that of one row at most.
only_row :
    (id : ℤ) (rows : List AllocationRow) (a : AllocationRow)
    → Pairwise same_id rows
    → first (has_id id) rows ≡ some a
    → All (λ b. eqb_ℤ b.id id ≡ true → b ≡ a) rows
unfolding first
only_row id [] a d h = tt
only_row id (b ∷ rows) a d h = elim (Bool-cases (eqb_ℤ b.id id)) [
  | inl e ↦
      let same : b ≡ a = some_injective (rw e at h) in
      (
        λ _. same,
        All-mono (λ c. same_id b c ≡ false) (λ c. eqb_ℤ c.id id ≡ true → c ≡ a) rows
            (λ c apart f. absurd (ground arith)) d.0,
      )
  | inr e ↦ (λ f. absurd (ground arith), only_row id rows a d.1 (rw e at h))
]

issued-not_failed : (s : Text) → s ≡ issued → s ==ᵗ derivation_failed ≡ true → ⊥
issued-not_failed s e h = let absurd_test = rw e at h in cc

issued-not_reserved :
    (id : ℤ) (a : AllocationRow) → a.allocation_status ≡ issued → is_row id reserved a ≡ false
issued-not_reserved id a e = elim (Bool-cases (eqb_ℤ a.id id)) [ inl f ↦ rw (f, e) | inr f ↦ rw f ]

module _ (id : ℤ) (t : Tables) (a : AllocationRow) (k : IsKept t)
    (found : first (has_id id) t.allocations ≡ some a) (done : a.allocation_status ≡ issued) where
  -- An update whose test the issued row does not pass leaves it where it is.
  untouched :
      (p : AllocationRow → Bool) (f : AllocationRow → AllocationRow)
      → ((b : AllocationRow) → (f b).id ≡ b.id)
      → p a ≡ false
      → first (has_id id) (update p f t.allocations) ≡ some a
  untouched p f same miss =
      rw (first-update (has_id id) p f t.allocations (λ b. rw (same b)), found, miss) refl

  reopened_other :
      (x : Tx) (input : ReserveAllocation) (b : AllocationRow)
      → oldest_failed x input t.allocations ≡ some b
      → eqb_ℤ a.id b.id ≡ false
  reopened_other x input b old = elim (Bool-cases (eqb_ℤ a.id b.id)) [
    | inr miss ↦ miss
    | inl hit ↦
        let mine : eqb_ℤ a.id id ≡ true =
          (All-first (λ _. Unit) (has_id id) t.allocations
            (every_one (λ _. Unit) t.allocations (λ _. tt)) found).1 in
        let same =
          All-oldest_failed
            (λ c.
              (eqb_ℤ c.id id ≡ true → c ≡ a) × (c.allocation_status ==ᵗ derivation_failed ≡ true))
            x input t.allocations
            (All-mono (λ c. eqb_ℤ c.id id ≡ true → c ≡ a)
              (λ c.
                c.allocation_status ==ᵗ derivation_failed ≡ true
                → (eqb_ℤ c.id id ≡ true → c ≡ a)
                  × (c.allocation_status ==ᵗ derivation_failed ≡ true))
              t.allocations (λ c one failed. (one, failed))
              (only_row id t.allocations a k.unique found))
            old in
        let is_a : b ≡ a = same.0 (ground arith) in
        let failed : a.allocation_status ==ᵗ derivation_failed ≡ true = rw (← is_a) same.1 in
        absurd (issued-not_failed a.allocation_status done failed)
  ]

  -- One call leaves an issued allocation as it is.
  pub after_call-issued : (call : Call) → first (has_id id) (after_call t call).allocations ≡ some a
  after_call-issued (reserve x input) =
      committed_cases (λ u. first (has_id id) u.allocations ≡ some a) t (reserve_fresh x input t)
        found
        (λ r u h.
          rw ((reserve_fresh-unused x input t k.slotted h).2)
            (rw (first-append (has_id id) t.allocations _, found) refl))
  after_call-issued (reopen x input) =
      committed_cases (λ u. first (has_id id) u.allocations ≡ some a) t
        (reopen_failed_reservation x input t) found
        (λ o u h. elim (reopen-eq-ok x input t h) [
          | inl same ↦ rw same found
          | inr (b, old, e) ↦ rw e (
              untouched (λ c. eqb_ℤ c.id b.id) (reopened x.now input) (λ c. refl)
                (reopened_other x input b old))
        ])
  after_call-issued (complete_it x input) =
      committed_cases (λ u. first (has_id id) u.allocations ≡ some a) t (complete x input t) found
        (λ _ u h. rw (complete-eq-ok x input t h) (
          untouched (is_row input.allocation.payment_address_id reserved) (completed x.stored input)
            (λ b. refl) (issued-not_reserved input.allocation.payment_address_id a done)))
  after_call-issued (mark_it_failed x r) =
      committed_cases (λ u. first (has_id id) u.allocations ≡ some a) t
        (mark_derivation_failed x r t) found
        (λ _ u h. rw (mark_derivation_failed-eq-ok x r t h) (
          untouched (is_row r.payment_address_id reserved)
            (with_failure r.derivation_failure_reason) (λ b. refl)
            (issued-not_reserved r.payment_address_id a done)))
