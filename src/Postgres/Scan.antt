-- ===== src/Postgres/Scan.antt =====
-- The loop over rows.Next of the claims: the first row that cannot be read ends it.
use payrune.Prelude.{◌≡◌, List, [], ◌∷◌, All}
use payrune.Result.{Result, ok, ◌>>=◌, >>=-eq-ok, ok_injective}

unfoldable pub scan_all : {E R A : Type 0} → (R → Result E A) → List R → Result E (List A)
scan_all scan [] = ok []
scan_all scan (r ∷ rest) = do
  record_of_row ← scan r
  records ← scan_all scan rest
  ok (record_of_row ∷ records)

-- What a scan makes of every row that passes `P`.
pub scan_all-All :
    {E R A : Type 0} (P : R → Type 0) (Q : A → Type 0) (scan : R → Result E A) (rows : List R)
    {items : List A}
    → ((r : R) (a : A) → P r → scan r ≡ ok a → Q a)
    → All P rows
    → scan_all scan rows ≡ ok items
    → All Q items
unfolding scan_all
scan_all-All P Q scan [] keep h e = rw (← ok_injective e) tt
scan_all-All P Q scan (r ∷ rest) keep h e =
    let (a, p, later) = >>=-eq-ok (scan r) _ e in
    let (items, q, last) = >>=-eq-ok (scan_all scan rest) _ later in
    rw (← ok_injective last) (keep r a h.0 p, scan_all-All P Q scan rest keep h.1 q)
