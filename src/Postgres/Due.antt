-- ===== src/Postgres/Due.antt =====
-- The claim that the two claiming statements share: of the rows that are due, the first `limit` by
-- time and id get a lease. `WITH due AS (SELECT id ... ORDER BY ... LIMIT ...) UPDATE ... RETURNING`.
pub mod Laws
use payrune.Prelude.{
  ℕ, Bool, true, ◌&&◌, ◌||◌, Option, none, some, List, [], ◌∷◌, map, filter, any, take, update,
  if◌then◌else◌,
}
use payrune.Prelude.Int.{ℤ, pos, negsuc, eqb_ℤ, ltb_ℤ, leb_ℤ}
use payrune.Time.{Time}

abbrev pub has_id : List ℤ → ℤ → Bool
has_id ids i = any (λ j. eqb_ℤ i j) ids

-- `lease_until IS NULL OR lease_until <= now`
abbrev pub is_free : Option Time → Time → Bool
is_free none now = true
is_free (some lease) now = leb_ℤ lease now

-- LIMIT
abbrev pub limit_of : ℤ → ℕ
limit_of (pos n) = n
limit_of (negsuc n) = 0

module _ {R : Type 0} (id due_at : R → ℤ) where
  -- ORDER BY due_at ASC, id ASC
  abbrev pub comes_first : R → R → Bool
  comes_first r s =
      ltb_ℤ (due_at r) (due_at s) || (eqb_ℤ (due_at r) (due_at s) && leb_ℤ (id r) (id s))

  unfoldable pub insert : R → List R → List R
  insert r [] = r ∷ []
  insert r (s ∷ rest) = if comes_first r s then r ∷ s ∷ rest else s ∷ insert r rest

  unfoldable pub sort : List R → List R
  unfolding insert
  sort [] = []
  sort (r ∷ rest) = insert r (sort rest)

  unfoldable pub due_ids : (R → Bool) → ℕ → List R → List ℤ
  unfolding sort take filter
  due_ids is_due limit rows = map id (take limit (sort (filter is_due rows)))

module _ {R : Type 0} (id : R → ℤ) where
  -- The rows after the claim.
  unfoldable pub leased : List ℤ → (R → R) → List R → List R
  unfolding update
  leased ids lease rows = update (λ r. has_id ids (id r)) lease rows

  -- RETURNING: the rows that were updated, as they are then. Their order is the server's choice,
  -- here that of the table.
  unfoldable pub returned : List ℤ → List R → List R
  unfolding filter
  returned ids rows = filter (λ r. has_id ids (id r)) rows
