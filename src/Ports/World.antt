-- ===== src/Ports/World.antt =====
-- The outbound ports as records of operations. `D` is the state of the database, which a
-- transaction rolls back, and `X` that of all the rest (chains, webhooks, clock, driver), which it
-- does not. A use case is an action over both. The context argument of Go is left out: a cancelled
-- context shows as an error of the port that is called.
pub mod Laws
use payrune.Prelude.{Bool, true, false, not, Option, none, some, List, ℕ, if◌then◌else◌, ◌≡◌}
use payrune.Prelude.Int.{ℤ}
use payrune.Text.{Text}
use payrune.Result.{Result, ok, err}
use payrune.Time.{Time, Duration}
use payrune.Ports.Delivery.{DeliveryResult}
use payrune.Ports.Error.{Error, unit_of_work_failed, unit_of_work_db_missing}
use payrune.Ports.Records.{PolicyRecord, AllocationRecord, TrackingRecord, StatusChangedRecord}
use payrune.Ports.Stores.{AllocationStore, IdempotencyStore, TrackingStore, Outbox}

pub record World (D X : Type 0) : Type 0 where
  pub db : D
  pub ext : X

abbrev pub Action : Type 0 → Type 0 → Type 0 → Type 0
Action D X A = World D X → Result Error A × World D X

module _ {D X A : Type 0} where
  abbrev pub pure : A → Action D X A
  pure a w = (ok a, w)

  abbrev pub raise : Error → Action D X A
  raise e w = (err e, w)

  -- `a, err := f()`, with the error as a value.
  abbrev pub attempt : Action D X A → Action D X (Result Error A)
  attempt m w = let (r, w') = m w in (ok r, w')

  -- The error that a caller makes of an error.
  abbrev pub on_error : (Error → Error) → Action D X A → Action D X A
  on_error f m w = let (r, w') = m w in (elim r [ ok a ↦ ok a | err e ↦ err (f e) ], w')

  -- `if x == nil { return err }`
  abbrev pub configured : Option A → Error → Action D X A
  configured o e w = (elim o [ none ↦ err e | some a ↦ ok a ], w)

  abbrev pub on_db : (D → Result Error A × D) → Action D X A
  on_db f w = let (r, d) = f w.db in (r, record w { db = d })

  abbrev pub on_ext : (X → Result Error A × X) → Action D X A
  on_ext f w = let (r, x) = f w.ext in (r, record w { ext = x })

  -- The value of a domain call, whose errors a use case maps as a whole.
  abbrev pub lift : {E : Type 0} → Result E A → (E → Error) → Action D X A
  lift r f w = (elim r [ ok a ↦ ok a | err e ↦ err (f e) ], w)

  -- `if test { return err }` before the rest
  abbrev pub guard : Bool → Error → Action D X A → Action D X A
  guard test e m = if test then raise e else m

infixl 5 ◌>>=◌ ◌>>◌
abbrev pub ◌>>=◌ : {D X A B : Type 0} → Action D X A → (A → Action D X B) → Action D X B
◌>>=◌ m f w = let (r, w') = m w in elim r [ ok a ↦ f a w' | err e ↦ (err e, w') ]

abbrev pub ◌>>◌ : {D X B : Type 0} → Action D X (Unit {0}) → Action D X B → Action D X B
m >> k = m >>= λ _. k

-- TxScope; a nil store is `none`.
pub record TxScope (D : Type 0) : Type 0 where
  pub allocation : Option (AllocationStore D)
  pub idempotency : Option (IdempotencyStore D)
  pub tracking : Option (TrackingStore D)
  pub outbox : Option (Outbox D)

-- UnitOfWork over a database driver: whether BeginTx and Commit succeed is the driver's affair, and
-- a commit that fails has written nothing.
pub record UnitOfWork (D X : Type 0) : Type 0 where
  pub scope : TxScope D
  pub has_db : Bool
  pub begin_tx : X → Bool × X
  pub commit : X → Bool × X

-- The nil test and BeginTx of WithinTransaction.
unfoldable pub begin : {D X : Type 0} → UnitOfWork D X → X → Result Error Unit × X
begin u x =
    if u.has_db
    then (let (started, y) = u.begin_tx x in
        (if started then ok tt else err unit_of_work_failed, y))
    else (err unit_of_work_db_missing, x)

module _ {D X A : Type 0} where
  unfoldable pub finish :
      UnitOfWork D X → D → Result Error A × World D X → Result Error A × World D X
  finish u before (err e, w) = (err e, record w { db = before })
  finish u before (ok a, w) =
      let (committed, x) = u.commit w.ext in
      if committed
      then (ok a, record w { ext = x })
      else (err unit_of_work_failed, record { db = before; ext = x })

  -- UnitOfWork.WithinTransaction of adapters/outbound/persistence/postgres/unit_of_work.go.
  unfoldable pub within_transaction : UnitOfWork D X → (TxScope D → Action D X A) → Action D X A
  within_transaction u fn w =
      let (begun, x) = begin u w.ext in
      elim begun [
        | ok _ ↦ finish u w.db (fn u.scope (record w { ext = x }))
        | err e ↦ (err e, record w { ext = x })
      ]

-- Clock.NowUTC
pub record Clock (X : Type 0) : Type 0 where
  pub now_utc : X → Time × X

abbrev pub now : {D X : Type 0} → Clock X → Action D X Time
now c w = let (t, x) = c.now_utc w.ext in (ok t, record w { ext = x })
