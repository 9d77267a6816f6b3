-- ===== src/Postgres/Driver/Laws.antt =====
-- What a query that returns has gone through.
use payrune.Prelude.{◌≡◌, ◌⊎◌, refl, Bool, true, not, arith, Bool-cases, inl, inr}
use payrune.Result.{Result, ok, err, result-cases}
use payrune.Ports.Error.{Error}
use payrune.Postgres.Driver.{Tx, Statement, Query, pure, run, read, guard, ◌>>=◌}
use payrune.Postgres.Tables.{Tables}

module _ {A : Type 0} where
  pub bind-eq-ok :
      {B : Type 0} (q : Query A) (next : A → Query B) (t : Tables) {t' : Tables} {b : B}
      → (q >>= next) t ≡ (ok b, t')
      → (a : A) × (u : Tables) × (q t ≡ (ok a, u)) × (next a u ≡ (ok b, t'))
  bind-eq-ok q next t h = elim (result-cases (q t).0) [
    | inl (a, p) ↦ (a, (q t).1, ground arith, ground arith)
    | inr (e, p) ↦ absurd (ground arith)
  ]

  pub run-eq-ok :
      (x : Tx) (s : Statement) (e : Error) (q : Query A) (t : Tables) {t' : Tables} {a : A}
      → run x s e q t ≡ (ok a, t')
      → q t ≡ (ok a, t')
  run-eq-ok x s e q t h = elim (Bool-cases (x.fails s t)) [
    | inl f ↦ absurd (ground arith)
    | inr f ↦ ground arith
  ]

  pub read-eq-ok :
      (x : Tx) (s : Statement) (e : Error) (a : A) (t : Tables) {t' : Tables} {b : A}
      → read x s e a t ≡ (ok b, t')
      → (b ≡ a) × (t' ≡ t)
  read-eq-ok x s e a t h = ground arith

-- ExecContext, RowsAffected and the test for no row.
pub exec-eq-ok :
    (x : Tx) (s : Statement) (failed uncounted missing : Error) (q : Query Bool) (t : Tables)
    {t' : Tables}
    → (run x s failed q >>= λ updated.
          read x s uncounted updated >>= λ affected. guard (not affected) missing (pure tt))
        t
      ≡ (ok tt, t')
    → q t ≡ (ok true, t')
exec-eq-ok x s failed uncounted missing q t h =
    let check : Bool → Query Unit = λ affected. guard (not affected) missing (pure tt) in
    let count : Bool → Query Unit = λ updated. read x s uncounted updated >>= check in
    let (updated, u, ran, more) = bind-eq-ok (run x s failed q) count t h in
    let (affected, v, counted, rest) = bind-eq-ok (read x s uncounted updated) check u more in
    let (same, still) = read-eq-ok x s uncounted updated u counted in
    let made = run-eq-ok x s failed q t ran in ground arith

pub outcome :
    {A : Type 0} (r : Result Error A × Tables)
    → ((a : A) × (t : Tables) × (r ≡ (ok a, t))) ⊎ ((e : Error) × (t : Tables) × (r ≡ (err e, t)))
outcome (ok a, t) = inl (a, t, refl)
outcome (err e, t) = inr (e, t, refl)
