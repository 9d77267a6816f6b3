-- ===== src/Postgres/Driver.antt =====
-- The executor of internal/adapters/outbound/persistence/postgres: one transaction of the driver.
-- What the stores rely on of the driver and of the server are the fields of `Tx`: which statement
-- fails (a lost connection, a cancelled context, a check or a foreign key that is not met), whose
-- result cannot be read, the rows that another transaction has locked, NOW(), which stands still
-- within a transaction, and what the server keeps of an instant that a statement is given: a TIMESTAMPTZ
-- has whole microseconds, so an instant of the clock is stored rounded. The unique constraints are written out with the statements. A statement that
-- fails has changed nothing.
pub mod Laws
use payrune.Prelude.{Bool, ℕ, if◌then◌else◌, false}
use payrune.Prelude.Int.{ℤ}
use payrune.Result.{Result, ok, err}
use payrune.Time.{Time}
use payrune.Ports.Error.{Error}
use payrune.Postgres.Tables.{Tables}

-- One constructor for each statement of the stores.
pub data Statement : Type 0 where
  insert_tracking claim_trackings save_tracking : Statement
  insert_notification claim_notifications save_sent save_pending save_failed : Statement
  find_issued complete_allocation mark_failed find_failed reopen_failed : Statement
  insert_cursor lock_cursor insert_allocation advance_cursor : Statement
  find_key insert_key complete_key delete_key : Statement
  find_status : Statement

pub record Tx : Type 0 where
  pub fails : Statement → Tables → Bool
  pub unread : Statement → Tables → Bool
  pub locked : Statement → ℤ → Bool
  pub now : Time
  pub stored : Time → Time

-- A transaction whose statements succeed, whose results are read and whose instants are whole
-- microseconds, which are kept as they are.
abbrev pub working : (Statement → ℤ → Bool) → Time → Tx
working locked now = record {
  fails = λ _ _. false;
  unread = λ _ _. false;
  locked = locked;
  now = now;
  stored = λ t. t;
}

abbrev pub Query : Type 0 → Type 0
Query A = Tables → Result Error A × Tables

module _ {A : Type 0} where
  abbrev pub pure : A → Query A
  pure a t = (ok a, t)

  abbrev pub raise : Error → Query A
  raise e t = (err e, t)

  -- ExecContext, QueryContext and QueryRowContext, with the error that the store makes of theirs.
  abbrev pub run : Tx → Statement → Error → Query A → Query A
  run x s e q t = if x.fails s t then (err e, t) else q t

  -- RowsAffected, or Scan and Err of the rows
  abbrev pub read : Tx → Statement → Error → A → Query A
  read x s e a t = if x.unread s t then (err e, t) else (ok a, t)

  -- `if test { return err }` before the rest
  abbrev pub guard : Bool → Error → Query A → Query A
  guard test e q = if test then raise e else q

  abbrev pub lift : Result Error A → Query A
  lift r t = (r, t)

infixl 5 ◌>>=◌ ◌>>◌
abbrev pub ◌>>=◌ : {A B : Type 0} → Query A → (A → Query B) → Query B
◌>>=◌ q f t = let (r, t') = q t in elim r [ ok a ↦ f a t' | err e ↦ (err e, t') ]

abbrev pub ◌>>◌ : {B : Type 0} → Query (Unit {0}) → Query B → Query B
q >> k = q >>= λ _. k
