-- ===== src/UseCases/Polling/Saved.antt =====
-- The two saves of internal/application/usecases/run_receipt_polling_cycle_use_case.go.
use payrune.Prelude.{sym, ◌≡◌, arith, inl, inr, Option, none, some, Option-cases}
use payrune.Result.{result-cases, ok}
use payrune.Time.{Time}
use payrune.Domain.Status.{Status, FailureReason}
use payrune.Domain.StatusChanged.{StatusChanged}
use payrune.Domain.Tracking.{Tracking, status_changed_event, mark_polling_failure}
use payrune.Domain.Tracking.Invariant.{mark_polling_failure-eq-ok}
use payrune.Ports.Records.{record_from_status_changed, record_from_tracking}
use payrune.Ports.Stores.{Outbox, TrackingStore}
use payrune.Ports.World.{TxScope, World, UnitOfWork}
use payrune.Ports.World.Laws.{committed}
use payrune.UseCases.Polling.{
  enqueue, save_steps, save_and_enqueue, failure_save_error, save_failure_steps, save_error,
  save_polling_failure,
}

module _ {D : Type 0} where
  -- no event, or one that the outbox has accepted between the two states
  unfoldable pub Enqueued : TxScope D → Option StatusChanged → D → D → Type 0
  Enqueued scope none d d' = d' ≡ d
  Enqueued scope (some event) d d' =
      (outbox : Outbox D) × (scope.outbox ≡ some outbox)
      × (outbox.enqueue_status_changed (record_from_status_changed event) d ≡ (ok tt, d'))

  -- The store has saved the tracking, then the event was enqueued, and nothing else was written.
  unfoldable pub Saved : TxScope D → Tracking → Option StatusChanged → Time → Time → D → D → Type 0
  Saved scope t event at next d d' =
      (store : TrackingStore D) × (mid : D) × (scope.tracking ≡ some store)
      × (store.save (record_from_tracking t) at next d ≡ (ok tt, mid))
      × Enqueued scope event mid d'

module _ {D X : Type 0} where
  enqueue-Enqueued :
      (event : Option StatusChanged) (scope : TxScope D) (w w' : World D X)
      → enqueue event scope w ≡ (ok tt, w')
      → Enqueued scope event w.db w'.db
  unfolding enqueue Enqueued
  enqueue-Enqueued none scope w w' h = ground arith
  enqueue-Enqueued (some event) scope w w' h = elim (Option-cases scope.outbox) [
    | inl p ↦ absurd (ground arith)
    | inr (outbox, p) ↦ (outbox, p, ground arith)
  ]

  save_steps-Saved :
      (t : Tracking) (event : Option StatusChanged) (at next : Time) (scope : TxScope D)
      (w w' : World D X)
      → save_steps t event at next scope w ≡ (ok tt, w')
      → Saved scope t event at next w.db w'.db
  unfolding save_steps Saved
  save_steps-Saved t event at next scope w w' h = elim (Option-cases scope.tracking) [
    | inl p ↦ absurd (ground arith)
    | inr (store, p) ↦
        let mid = (store.save (record_from_tracking t) at next w.db).1 in
        let rest = enqueue-Enqueued event scope (record w { db = mid }) w' in
        (store, mid, p, ground arith, rest (ground arith))
  ]

  -- the steps of savePollingFailure are a save without an event
  save_failure_steps-Saved :
      (t : Tracking) (at next : Time) (scope : TxScope D) (w w' : World D X)
      → save_failure_steps t at next scope w ≡ (ok tt, w')
      → Saved scope t none at next w.db w'.db
  unfolding save_failure_steps Saved Enqueued
  save_failure_steps-Saved t at next scope w w' h = elim (Option-cases scope.tracking) [
    | inl p ↦ absurd (ground arith)
    | inr (store, p) ↦
        let mid = (store.save (record_from_tracking t) at next w.db).1 in
        (store, mid, p, ground arith, ground arith)
  ]

  pub save_and_enqueue-Saved :
      (u : UnitOfWork D X) (t : Tracking) (previous : Status) (at next : Time) (w w' : World D X)
      → save_and_enqueue u t previous at next w ≡ (ok tt, w')
      → (event : Option StatusChanged) × (status_changed_event t previous at ≡ ok event)
        × Saved u.scope t event at next w.db w'.db
  unfolding save_and_enqueue
  save_and_enqueue-Saved u t previous at next w w' h =
      elim (result-cases (status_changed_event t previous at)) [
        | inr (e, p) ↦ absurd (ground arith)
        | inl (event, p) ↦ (
          event,
          p,
          committed u save_error (save_steps t event at next) tt (Saved u.scope t event at next)
              (save_steps-Saved t event at next u.scope) w w' (ground arith),
        )
      ]

  pub save_polling_failure-Saved :
      (u : UnitOfWork D X) (t : Tracking) (reason : FailureReason) (at next : Time)
      (w w' : World D X)
      → save_polling_failure u t reason at next w ≡ (ok tt, w')
      → Saved u.scope (record t { last_failure_reason = reason }) none at next w.db w'.db
  unfolding save_polling_failure
  save_polling_failure-Saved u t reason at next w w' h =
      elim (result-cases (mark_polling_failure t reason)) [
        | inr (e, p) ↦ absurd (ground arith)
        | inl (failed, p) ↦
            let same : record t { last_failure_reason = reason } ≡ failed =
              sym (mark_polling_failure-eq-ok t reason p) in
            rw same (
              committed u failure_save_error (save_failure_steps failed at next) tt
                (Saved u.scope failed none at next)
                (save_failure_steps-Saved failed at next u.scope) w w' (ground arith))
      ]
