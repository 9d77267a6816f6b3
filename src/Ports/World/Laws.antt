-- ===== src/Ports/World/Laws.antt =====
-- What a transaction promises (adapters/outbound/persistence/postgres/unit_of_work.go).
use payrune.Prelude.{Bool, false, if◌then◌else◌, true, ◌≡◌, refl, arith, inl, inr, ◌⊎◌}
use payrune.Result.{Result, ok, err, result-cases}
use payrune.Ports.Error.{Error}
use payrune.Ports.World.{
  begin, on_error, pure, World, Action, ◌>>=◌, TxScope, UnitOfWork, finish, within_transaction,
}

module _ {D X A : Type 0} (u : UnitOfWork D X) where
  finish-rollback :
      (d : D) (r : Result Error A) (w w' : World D X) (e : Error)
      → finish u d (r, w) ≡ (err e, w')
      → w'.db ≡ d
  unfolding finish
  finish-rollback d (err _) w w' e h = cc
  finish-rollback d (ok a) w w' e h = ground arith

  finish-commit :
      (d : D) (r : Result Error A) (w w' : World D X) (a : A)
      → finish u d (r, w) ≡ (ok a, w')
      → (r ≡ ok a) × (w'.db ≡ w.db)
  unfolding finish
  finish-commit d (err _) w w' a h = cc
  finish-commit d (ok b) w w' a h = ground arith

module _ {D X A : Type 0} (u : UnitOfWork D X) (fn : TxScope D → Action D X A) where
  -- A transaction that returns an error has left the database as it was, whatever its steps wrote.
  pub within_transaction-rollback :
      (w w' : World D X) (e : Error) → within_transaction u fn w ≡ (err e, w') → w'.db ≡ w.db
  unfolding within_transaction
  within_transaction-rollback w w' e h =
      let x = (begin u w.ext).1 in
      let r = fn u.scope (record w { ext = x }) in
      let undone = finish-rollback u w.db r.0 r.1 w' e in
      elim (result-cases (begin u w.ext).0) [
        | inl (_, p) ↦ undone (ground arith)
        | inr (f, p) ↦ ground arith
      ]

  -- One that returns a value has run its steps to the end, once, and their database is committed.
  within_transaction-commit :
      (w w' : World D X) (a : A)
      → within_transaction u fn w ≡ (ok a, w')
      → let begun = begin u w.ext in
        let (r, v) = fn u.scope (record w { ext = begun.1 }) in
        (begun.0 ≡ ok tt) × (r ≡ ok a) × (w'.db ≡ v.db)
  unfolding within_transaction
  within_transaction-commit w w' a h =
      let x = (begin u w.ext).1 in
      let r = fn u.scope (record w { ext = x }) in
      let done = finish-commit u w.db r.0 r.1 w' a in
      elim (result-cases (begin u w.ext).0) [
        | inl (_, p) ↦ let (e, d) = done (ground arith) in (p, e, d)
        | inr (f, p) ↦ absurd (ground arith)
      ]

module _ {D X A : Type 0} where
  pub outcomes :
      (o : Result Error A × World D X)
      → ((a : A) × (v : World D X) × (o ≡ (ok a, v)))
        ⊎ ((e : Error) × (v : World D X) × (o ≡ (err e, v)))
  outcomes (ok a, v) = inl (a, v, refl)
  outcomes (err e, v) = inr (e, v, refl)

module _ {D X : Type 0} where
  -- an action that changes no row
  abbrev pub IsReadOnly : {A : Type 0} → Action D X A → Type 0
  IsReadOnly m = (w : World D X) → (m w).1.db ≡ w.db

  -- an action that changes no row when it fails
  abbrev pub IsAtomic : {A : Type 0} → Action D X A → Type 0
  IsAtomic m = (w w' : World D X) (e : Error) → m w ≡ (err e, w') → w'.db ≡ w.db

module _ {D X A B : Type 0} where
  pub bind-IsAtomic :
      (m : Action D X A) (f : A → Action D X B)
      → IsReadOnly m
      → ((a : A) → IsAtomic (f a))
      → IsAtomic (m >>= f)
  bind-IsAtomic m f still safe w w' e h = elim (outcomes (m w)) [
    | inl (a, v, p) ↦ let same = still w in let kept = safe a v w' e in ground arith
    | inr (e', v, p) ↦ let same = still w in ground arith
  ]

  pub then-IsAtomic : (m : Action D X A) (f : A → B) → IsAtomic m → IsAtomic (m >>= λ a. pure (f a))
  then-IsAtomic m f safe w w' e h = elim (outcomes (m w)) [
    | inl (a, v, p) ↦ absurd (ground arith)
    | inr (e', v, p) ↦ safe w w' e (ground arith)
  ]

module _ {D X A : Type 0} where
  pub on_error-IsAtomic :
      (f : Error → Error) (m : Action D X A) → IsAtomic m → IsAtomic (on_error f m)
  on_error-IsAtomic f m safe w w' e h = elim (outcomes (m w)) [
    | inl (a, v, p) ↦ absurd (ground arith)
    | inr (e', v, p) ↦ let kept = safe w v e' p in ground arith
  ]

  pub within_transaction-IsAtomic :
      (u : UnitOfWork D X) (fn : TxScope D → Action D X A) → IsAtomic (within_transaction u fn)
  within_transaction-IsAtomic u fn w w' e h = within_transaction-rollback u fn w w' e h

  pub if-IsAtomic :
      (b : Bool) (m n : Action D X A) → IsAtomic m → IsAtomic n → IsAtomic (if b then m else n)
  if-IsAtomic true m n safe _ = safe
  if-IsAtomic false m n _ safe = safe

  -- What the steps of a transaction establish of the rows holds of those it commits.
  pub committed {κ} :
      (u : UnitOfWork D X) (f : Error → Error) (fn : TxScope D → Action D X A) (a : A)
      (P : D → D → Type κ)
      → ((v v' : World D X) → fn u.scope v ≡ (ok a, v') → P v.db v'.db)
      → (w w' : World D X) → on_error f (within_transaction u fn) w ≡ (ok a, w')
      → P w.db w'.db
  committed u f fn a P holds w w' h = elim (outcomes (within_transaction u fn w)) [
    | inr (e, v, p) ↦ absurd (ground arith)
    | inl (b, v, p) ↦
        let (_, r, d) = within_transaction-commit u fn w v b p in
        let first : World D X = record w { ext = (begin u w.ext).1 } in
        let last = (fn u.scope first).1 in
        let same : w'.db ≡ last.db = ground arith in rw same (holds first last (ground arith))
  ]

  -- The error of the steps of a transaction is the transaction's error.
  pub within_transaction-err :
      (u : UnitOfWork D X) (fn : TxScope D → Action D X A) (w : World D X) (e : Error)
      → (begin u w.ext).0 ≡ ok tt
      → (fn u.scope (record w { ext = (begin u w.ext).1 })).0 ≡ err e
      → ((within_transaction u fn w).0 ≡ err e) × ((within_transaction u fn w).1.db ≡ w.db)
  unfolding within_transaction finish
  within_transaction-err u fn w e p q = (ground arith, ground arith)
