-- ===== src/Postgres/Reserve/Slots.antt =====
-- The slots of payment_address_allocation_store.go: no two allocations of an address space share
-- one. A cursor stands above every slot of its space.
use payrune.Prelude.{
  ◌≡◌, refl, sym, ◌∙◌, Bool, true, false, ◌&&◌, some, List, [], ◌∷◌, ◌++◌, All, any, first, update,
  arith, Bool-cases, Option-cases, inl, inr,
}
use payrune.Prelude.Int.{ℤ, pos, eqb_ℤ, ◌<ℤ◌, ◌≤ℤ◌, ◌+ℤ◌, +ℤ_parts}
use payrune.Text.{Text}
use payrune.Text.Laws.{==ᵗ_iff}
use payrune.Ports.Stores.{ReserveAllocation}
use payrune.Postgres.Driver.{Tx}
use payrune.Postgres.Reserve.{
  is_in, is_cursor, next_slot, with_cursor, fresh_row, advanced, space_of,
}
use payrune.Postgres.Tables.{AllocationRow, CursorRow, Tables}
use payrune.Prelude.Rows.{
  Pairwise, some_injective, Pairwise-append, All-mono, All-append, All-first, every_one,
  first-append_cases, first-update,
}

-- UNIQUE (address_policy_id, address_space_ref, slot_index)
abbrev pub same_slot : AllocationRow → AllocationRow → Bool
same_slot a b = is_in b.address_policy_id b.address_space_ref a && eqb_ℤ a.slot_index b.slot_index

-- Every slot of the space is below the number.
abbrev pub Below : Text → Text → ℤ → List AllocationRow → Type 0
Below policy_id space next rows =
    All (λ a. is_in policy_id space a ≡ true → a.slot_index <ℤ next) rows

pub record IsSlotted (t : Tables) : Type 0 where
  pub below :
      (policy_id space : Text) (c : CursorRow)
      → first (is_cursor policy_id space) t.cursors ≡ some c
      → Below policy_id space c.next_index t.allocations
  pub distinct : Pairwise same_slot t.allocations

Below-mono :
    (policy_id space : Text) (m n : ℤ) (rows : List AllocationRow)
    → m ≤ℤ n
    → Below policy_id space m rows
    → Below policy_id space n rows
Below-mono policy_id space m n rows h =
    All-mono (λ a. is_in policy_id space a ≡ true → a.slot_index <ℤ m)
      (λ a. is_in policy_id space a ≡ true → a.slot_index <ℤ n) rows
      (λ a k e. let low = k e in omega arith)

next_slot_head :
    (policy_id space : Text) (a : AllocationRow) (rest : List AllocationRow)
    → is_in policy_id space a ≡ true
    → a.slot_index <ℤ next_slot policy_id space (a ∷ rest)
unfolding next_slot
next_slot_head policy_id space a rest h = ground (arith, +ℤ_parts a.slot_index (pos 1))

next_slot_step :
    (policy_id space : Text) (a : AllocationRow) (rest : List AllocationRow)
    → next_slot policy_id space rest ≤ℤ next_slot policy_id space (a ∷ rest)
unfolding next_slot
next_slot_step policy_id space a rest = ground (arith, +ℤ_parts a.slot_index (pos 1))

next_slot_above :
    (policy_id space : Text) (rows : List AllocationRow)
    → Below policy_id space (next_slot policy_id space rows) rows
next_slot_above policy_id space [] = tt
next_slot_above policy_id space (a ∷ rest) = (
  next_slot_head policy_id space a rest,
  Below-mono policy_id space (next_slot policy_id space rest) _ rest
      (next_slot_step policy_id space a rest) (next_slot_above policy_id space rest),
)

cursor_texts :
    (policy_id space : Text) (c : CursorRow)
    → is_cursor policy_id space c ≡ true
    → (c.address_policy_id ≡ policy_id) × (c.address_space_ref ≡ space)
cursor_texts policy_id space c h =
    ground (arith, ==ᵗ_iff c.address_policy_id policy_id, ==ᵗ_iff c.address_space_ref space)

cursor_found :
    (policy_id space : Text) (cursors : List CursorRow) (c : CursorRow)
    → first (is_cursor policy_id space) cursors ≡ some c
    → is_cursor policy_id space c ≡ true
cursor_found policy_id space cursors c h =
    (All-first (λ _. Unit) (is_cursor policy_id space) cursors
      (every_one (λ _. Unit) cursors (λ _. tt)) h).1

unfoldable pub new_cursor : Text → Text → Tables → CursorRow
new_cursor policy_id space t = record {
  address_policy_id = policy_id;
  address_space_ref = space;
  next_index = next_slot policy_id space t.allocations;
}

pub with_cursor-IsSlotted :
    (policy_id space : Text) (t : Tables) → IsSlotted t → IsSlotted (with_cursor policy_id space t)
unfolding new_cursor
with_cursor-IsSlotted policy_id space t s =
    elim (Bool-cases (any (is_cursor policy_id space) t.cursors)) [
      | inl e ↦ rw e s
      | inr e ↦ rw e (record {
        below = λ p r c h.
            elim (first-append_cases (is_cursor p r) t.cursors (new_cursor policy_id space t) h) [
              | inl old ↦ s.below p r c old
              | inr (same, q) ↦
                  let (p_eq, r_eq) = cursor_texts p r (new_cursor policy_id space t) q in
                  rw (← same)
                    (rw (← p_eq) (rw (← r_eq) (next_slot_above policy_id space t.allocations)))
            ];
        distinct = s.distinct;
      })
    ]

-- The tables after the INSERT and the UPDATE of ReserveFresh.
abbrev pub taken : Tx → ReserveAllocation → CursorRow → Tables → Tables
taken x input c t = record t {
  allocations = t.allocations ++ (fresh_row x.now input t.next_allocation_id c.next_index ∷ []);
  next_allocation_id = t.next_allocation_id +ℤ pos 1;
  cursors =
      update (is_cursor input.issuance_policy.address_policy_id (space_of input)) advanced
        t.cursors;
}

row_texts :
    (p r : Text) (a : AllocationRow)
    → is_in p r a ≡ true
    → (a.address_policy_id ≡ p) × (a.address_space_ref ≡ r)
row_texts p r a h = ground (arith, ==ᵗ_iff a.address_policy_id p, ==ᵗ_iff a.address_space_ref r)

Below-taken :
    (p r : Text) (next : ℤ) (rows : List AllocationRow) (row : AllocationRow)
    → Below p r next rows
    → (is_in p r row ≡ true → row.slot_index <ℤ next)
    → Below p r next (rows ++ (row ∷ []))
Below-taken p r next rows row h k =
    All-append (λ a. is_in p r a ≡ true → a.slot_index <ℤ next) rows (row ∷ []) h (k, tt)

module _ (x : Tx) (input : ReserveAllocation) (t : Tables) (s : IsSlotted t) (c : CursorRow)
    (at : first (is_cursor input.issuance_policy.address_policy_id (space_of input)) t.cursors
      ≡ some c) where
  head_under :
      Below input.issuance_policy.address_policy_id (space_of input) c.next_index t.allocations
  head_under = s.below input.issuance_policy.address_policy_id (space_of input) c at

  taken_under :
      (p r : Text) (c' : CursorRow)
      → first (is_cursor p r) (taken x input c t).cursors ≡ some c'
      → Below p r c'.next_index (taken x input c t).allocations
  taken_under p r c' h =
      let q = input.issuance_policy.address_policy_id in
      let o = space_of input in
      let row = fresh_row x.now input t.next_allocation_id c.next_index in
      let moved = first-update (is_cursor p r) (is_cursor q o) advanced t.cursors (λ b. refl) in
      elim (Option-cases (first (is_cursor p r) t.cursors)) [
        | inl missing ↦ absurd (ground arith)
        | inr (c0, f) ↦
            let (p_eq, r_eq) = cursor_texts p r c0 (cursor_found p r t.cursors c0 f) in
            elim (Bool-cases (is_cursor q o c0)) [
              | inr other ↦
                  let kept : c0 ≡ c' = ground arith in
                  Below-taken p r c'.next_index t.allocations row (rw (← kept) (s.below p r c0 f))
                    (λ mine.
                      let (q_eq, o_eq) = row_texts p r row mine in
                      absurd (
                        ground
                          (arith, ==ᵗ_iff c0.address_policy_id q, ==ᵗ_iff c0.address_space_ref o)))
              | inl here ↦
                  let (q_eq, o_eq) = cursor_texts q o c0 here in
                  let kept : advanced c0 ≡ c' = ground arith in
                  let mine : first (is_cursor q o) t.cursors ≡ some c0 =
                    rw (← (sym p_eq ∙ q_eq)) (rw (← (sym r_eq ∙ o_eq)) f) in
                  let same : c0 ≡ c = some_injective (sym mine ∙ at) in
                  Below-taken p r c'.next_index t.allocations row
                    (rw (← kept) (
                      Below-mono p r c0.next_index (c0.next_index +ℤ pos 1) t.allocations
                        (omega (arith, +ℤ_parts c0.next_index (pos 1))) (s.below p r c0 f)))
                    (λ _. rw (← kept) (rw same (omega (arith, +ℤ_parts c.next_index (pos 1)))))
            ]
      ]

  -- No allocation has the slot yet.
  pub slot_unused :
      All
        (λ a. same_slot a (fresh_row x.now input t.next_allocation_id c.next_index) ≡ false)
        t.allocations
  slot_unused =
      let q = input.issuance_policy.address_policy_id in
      All-mono (λ a. is_in q (space_of input) a ≡ true → a.slot_index <ℤ c.next_index)
        (λ a. same_slot a (fresh_row x.now input t.next_allocation_id c.next_index) ≡ false)
        t.allocations
        (λ a low. elim (Bool-cases (is_in q (space_of input) a)) [
          | inl e ↦ let below = low e in ground arith
          | inr e ↦ ground arith
        ])
        head_under

  pub taken-IsSlotted : IsSlotted (taken x input c t)
  taken-IsSlotted = record {
    below = taken_under;
    distinct = Pairwise-append same_slot t.allocations _ slot_unused s.distinct;
  }
