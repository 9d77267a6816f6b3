-- ===== src/UseCases/Polling/Working.antt =====
-- The transactions of internal/application/usecases/run_receipt_polling_cycle_use_case.go where the
-- database does its part.
use payrune.Prelude.{◌≡◌, ◌≢◌, arith, inl, inr, none, some, Option, false, true}
use payrune.Result.{ok, result-cases, err}
use payrune.Time.{Time, is_zero}
use payrune.Domain.Status.{FailureReason, Status, is_zero_reason}
use payrune.Domain.Tracking.{mark_polling_failure, Tracking, status_changed_event}
use payrune.Domain.Tracking.Invariant.{IsValid}
use payrune.Domain.Tracking.Statuses.{status_changed_event_total}
use payrune.Ports.Records.{
  TrackingRecord, StatusChangedRecord, record_from_tracking, record_from_status_changed,
}
use payrune.Ports.Stores.{TrackingStore, Outbox}
use payrune.Domain.StatusChanged.{StatusChanged}
use payrune.Ports.World.{UnitOfWork, World, TxScope, Action, within_transaction, begin, finish}
use payrune.UseCases.Polling.{
  save_and_enqueue, save_polling_failure, save_failure_steps, save_steps, enqueue, Error,
}

-- Transactions begin and commit, and the two stores save what they are given.
pub record IsWorking {D X : Type 0} (u : UnitOfWork D X) : Type 0 where
  pub has_db : u.has_db ≡ true
  pub begins : (x : X) → (u.begin_tx x).0 ≡ true
  pub commits : (x : X) → (u.commit x).0 ≡ true
  pub store : TrackingStore D
  pub tracking : u.scope.tracking ≡ some store
  pub saves : (r : TrackingRecord) (at next : Time) (d : D) → (store.save r at next d).0 ≡ ok tt
  pub events : Outbox D
  pub outbox : u.scope.outbox ≡ some events
  pub enqueues : (e : StatusChangedRecord) (d : D) → (events.enqueue_status_changed e d).0 ≡ ok tt

module _ {D X : Type 0} where
  transaction-returns :
      (u : UnitOfWork D X) (k : IsWorking u) (fn : TxScope D → Action D X Unit) (w : World D X)
      → ((v : World D X) → (fn u.scope v).0 ≡ ok tt)
      → (within_transaction u fn w).0 ≡ ok tt
  unfolding within_transaction begin finish
  transaction-returns u k fn w steps =
      let x = (u.begin_tx w.ext).1 in
      let v = (fn u.scope (record w { ext = x })).1 in
      ground (arith, k.has_db, k.begins w.ext, steps (record w { ext = x }), k.commits v.ext)

  save_failure_steps-returns :
      (u : UnitOfWork D X) (k : IsWorking u) (t : Tracking) (at next : Time) (v : World D X)
      → (save_failure_steps t at next u.scope v).0 ≡ ok tt
  unfolding save_failure_steps
  save_failure_steps-returns u k t at next v =
      ground (arith, k.tracking, k.saves (record_from_tracking t) at next v.db)

  save_steps-returns :
      (u : UnitOfWork D X) (k : IsWorking u) (t : Tracking) (event : Option StatusChanged)
      (at next : Time) (v : World D X)
      → (save_steps t event at next u.scope v).0 ≡ ok tt
  unfolding save_steps enqueue
  save_steps-returns u k t none at next v =
      ground (arith, k.tracking, k.saves (record_from_tracking t) at next v.db)
  save_steps-returns u k t (some event) at next v =
      let d = (k.store.save (record_from_tracking t) at next v.db).1 in
      ground (
        arith,
        k.tracking,
        k.outbox,
        k.saves (record_from_tracking t) at next v.db,
        k.enqueues (record_from_status_changed event) d,
      )

  pub save_polling_failure-error :
      (u : UnitOfWork D X) (k : IsWorking u) (t : Tracking) (reason : FailureReason)
      (at next : Time) (w w' : World D X) (e : Error)
      → is_zero_reason reason ≡ false
      → save_polling_failure u t reason at next w ≡ (err e, w')
      → ⊥
  unfolding save_polling_failure mark_polling_failure
  save_polling_failure-error u k t reason at next w w' e z h =
      let failed = record t { last_failure_reason = reason } in
      let done =
        transaction-returns u k (save_failure_steps failed at next) w
          (save_failure_steps-returns u k failed at next) in
      absurd (ground arith)

  pub save_and_enqueue-error :
      (u : UnitOfWork D X) (k : IsWorking u) (t : Tracking) (previous : Status) (at next : Time)
      (w w' : World D X) (e : Error)
      → IsValid t
      → previous ≢ Status.unset
      → is_zero at ≡ false
      → save_and_enqueue u t previous at next w ≡ (err e, w')
      → ⊥
  unfolding save_and_enqueue
  save_and_enqueue-error u k t previous at next w w' e v p z h =
      elim (result-cases (status_changed_event t previous at)) [
        | inr (f, q) ↦
            let total = status_changed_event_total t previous at v p z in absurd (ground arith)
        | inl (event, q) ↦
            let done =
              transaction-returns u k (save_steps t event at next) w
                (save_steps-returns u k t event at next) in
            absurd (ground arith)
      ]
