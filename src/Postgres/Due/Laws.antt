-- ===== src/Postgres/Due/Laws.antt =====
-- What a claim of due rows claims: rows that are due, and none that a lease still holds.
use payrune.Prelude.{
  ℕ, ◌≡◌, Bool, true, false, List, [], ◌∷◌, map, filter, take, any, All, length, ◌&&◌, ◌≤◌, refl,
  Bool-cases, inl, inr, arith,
}
use payrune.Prelude.Int.{ℤ, eqb_ℤ}
use payrune.Postgres.Due.{comes_first, insert, sort, due_ids, has_id, leased, returned}
use payrune.Prelude.Rows.{All-filter, All-take, All-update, every_one, All-any, length-take-le}

All-map :
    {A B : Type 0} (P : B → Type 0) (f : A → B) (xs : List A)
    → All (λ x. P (f x)) xs
    → All P (map f xs)
All-map P f [] h = tt
All-map P f (x ∷ xs) h = (h.0, All-map P f xs h.1)

pub All-has_id : (P : ℤ → Type 0) (ids : List ℤ) (i : ℤ) → All P ids → has_id ids i ≡ true → P i
All-has_id P [] i h e = cc
All-has_id P (j ∷ ids) i h e = elim (Bool-cases (eqb_ℤ i j)) [
  | inl q ↦ let same : i ≡ j = ground arith in rw same h.0
  | inr q ↦ All-has_id P ids i h.1 (rw q at e)
]

module _ {R : Type 0} (id due_at : R → ℤ) where
  All-insert :
      (P : R → Type 0) (r : R) (rows : List R) → P r → All P rows → All P (insert id due_at r rows)
  unfolding insert
  All-insert P r [] h all = (h, tt)
  All-insert P r (s ∷ rows) h all = elim (Bool-cases (comes_first id due_at r s)) [
    | inl e ↦ rw e (h, all)
    | inr e ↦ rw e (all.0, All-insert P r rows h all.1)
  ]

  pub All-sort : (P : R → Type 0) (rows : List R) → All P rows → All P (sort id due_at rows)
  unfolding sort
  All-sort P [] all = tt
  All-sort P (r ∷ rows) all = All-insert P r (sort id due_at rows) all.0 (All-sort P rows all.1)

  pub All-due_ids :
      (P : ℤ → Type 0) (is_due : R → Bool) (limit : ℕ) (rows : List R)
      → All (λ r. is_due r ≡ true → P (id r)) rows
      → All P (due_ids id due_at is_due limit rows)
  unfolding due_ids
  All-due_ids P is_due limit rows h =
      let due = filter is_due rows in
      All-map P id (take limit (sort id due_at due)) (
        All-take (λ r. P (id r)) limit (sort id due_at due)
          (All-sort (λ r. P (id r)) due (All-filter (λ r. P (id r)) is_due rows h)))

  -- Every claimed id is that of a row that is due.
  pub due_ids-is_due :
      (is_due : R → Bool) (limit : ℕ) (rows : List R)
      → All
          (λ i. any (λ r. eqb_ℤ (id r) i && is_due r) rows ≡ true)
          (due_ids id due_at is_due limit rows)
  due_ids-is_due is_due limit rows =
      All-due_ids (λ i. any (λ r. eqb_ℤ (id r) i && is_due r) rows ≡ true) is_due limit rows
        (All-any is_due (λ s r. eqb_ℤ (id r) (id s) && is_due r) rows (λ r h. ground arith))

  length-map : (rows : List R) → length (map id rows) ≡ length rows
  length-map [] = refl
  length-map (r ∷ rows) = cc (length-map rows)

  pub length-due_ids-le :
      (is_due : R → Bool) (limit : ℕ) (rows : List R)
      → length (due_ids id due_at is_due limit rows) ≤ limit
  unfolding due_ids
  length-due_ids-le is_due limit rows =
      let sorted = sort id due_at (filter is_due rows) in
      omega (arith, length-map (take limit sorted), length-take-le limit sorted)

module _ {R : Type 0} (id : R → ℤ) where
  -- A row that was leased is not due while its lease runs.
  pub leased-not_due :
      (ids : List ℤ) (lease : R → R) (is_due : R → Bool) (rows : List R)
      → ((r : R) → id (lease r) ≡ id r)
      → ((r : R) → is_due (lease r) ≡ false)
      → All (λ r. is_due r ≡ true → has_id ids (id r) ≡ false) (leased id ids lease rows)
  unfolding leased
  leased-not_due ids lease is_due rows same held =
      All-update (λ _. Unit) (λ r. is_due r ≡ true → has_id ids (id r) ≡ false)
        (λ r. has_id ids (id r)) lease rows (λ r _ _ due. absurd (ground (arith, held r)))
        (λ r _ miss _. miss) (every_one (λ _. Unit) rows (λ _. tt))

  pub returned-has_id :
      (ids : List ℤ) (rows : List R) → All (λ r. has_id ids (id r) ≡ true) (returned id ids rows)
  unfolding returned
  returned-has_id ids rows =
      All-filter (λ r. has_id ids (id r) ≡ true) (λ r. has_id ids (id r)) rows
        (every_one (λ r. has_id ids (id r) ≡ true → has_id ids (id r) ≡ true) rows (λ r h. h))
