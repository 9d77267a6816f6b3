-- ===== src/UseCases/Polling/Atomic.antt =====
-- What a failed step of internal/application/usecases/run_receipt_polling_cycle_use_case.go leaves in
-- the database.
use payrune.Prelude.{◌≡◌, refl, arith, inl, inr}
use payrune.Prelude.Int.{ℤ}
use payrune.Result.{Result, err, result-cases, ok}
use payrune.Time.{Time, is_zero}
use payrune.Domain.Status.{
  FailureReason, Status, latest_block_height_unavailable, observation_failed, tracking_invalid,
  tracking_update_failed,
}
use payrune.Domain.Tracking.{Tracking, apply_observation}
use payrune.Ports.Outside.{Observer, ObserveOutput}
use payrune.Ports.World.{UnitOfWork, World, attempt, on_ext}
use payrune.Ports.World.Laws.{
  IsAtomic, bind-IsAtomic, then-IsAtomic, on_error-IsAtomic, within_transaction-IsAtomic,
  if-IsAtomic,
}
use payrune.UseCases.Polling.{
  fetch_latest, save_and_enqueue, save_polling_failure, Caches, Error, observation_of,
  observe_input,
}
use payrune.UseCases.Polling.Cycle.{
  fail_tracking, observe_and_settle, process_tracking, settle, settle_observed,
}

module _ {D X : Type 0} where
  save_polling_failure-IsAtomic :
      (u : UnitOfWork D X) (t : Tracking) (reason : FailureReason) (at next : Time)
      → IsAtomic (save_polling_failure u t reason at next)
  unfolding save_polling_failure
  save_polling_failure-IsAtomic u t reason at next =
      bind-IsAtomic _ _ (λ w. refl)
        λ failed. on_error-IsAtomic _ _ (within_transaction-IsAtomic u _)

  save_and_enqueue-IsAtomic :
      (u : UnitOfWork D X) (t : Tracking) (previous : Status) (at next : Time)
      → IsAtomic (save_and_enqueue u t previous at next)
  unfolding save_and_enqueue
  save_and_enqueue-IsAtomic u t previous at next =
      bind-IsAtomic _ _ (λ w. refl) λ event. on_error-IsAtomic _ _ (within_transaction-IsAtomic u _)

  fail_tracking-IsAtomic :
      (u : UnitOfWork D X) (t : Tracking) (reason : FailureReason) (at next : Time)
      → IsAtomic (fail_tracking u t reason at next)
  unfolding fail_tracking
  fail_tracking-IsAtomic u t reason at next =
      then-IsAtomic _ _ (save_polling_failure-IsAtomic u t reason at next)

  settle-IsAtomic :
      (u : UnitOfWork D X) (t new : Tracking) (at next : Time) → IsAtomic (settle u t new at next)
  unfolding settle
  settle-IsAtomic u t new at next =
      bind-IsAtomic _ _ (λ w. refl)
        (λ (final, expired).
          if-IsAtomic expired _ _
            (then-IsAtomic _ _ (save_and_enqueue-IsAtomic u final t.status at next))
            (then-IsAtomic _ _ (save_and_enqueue-IsAtomic u new t.status at next)))

  pub fetch_latest-IsReadOnly :
      (o : Observer X) (t : Tracking) (c : Caches) (w : World D X)
      → (fetch_latest o t c w).1.db ≡ w.db
  unfolding fetch_latest
  fetch_latest-IsReadOnly o t c w = ground arith

  settle_observed-IsAtomic :
      (u : UnitOfWork D X) (t : Tracking) (r : Result Error ObserveOutput) (at next : Time)
      → IsAtomic (settle_observed u t r at next)
  unfolding settle_observed
  settle_observed-IsAtomic u t (err _) at next w w' e h =
      fail_tracking-IsAtomic u t observation_failed at next w w' e h
  settle_observed-IsAtomic u t (ok output) at next w w' e h =
      elim (result-cases (apply_observation t (observation_of output) at)) [
        | inl (new, p) ↦ settle-IsAtomic u t new at next w w' e (ground arith)
        | inr (f, p) ↦
            fail_tracking-IsAtomic u t tracking_update_failed at next w w' e (ground arith)
      ]

  observe_and_settle-IsAtomic :
      (u : UnitOfWork D X) (o : Observer X) (t : Tracking) (r : Result Error ℤ) (at next : Time)
      → IsAtomic (observe_and_settle u o t r at next)
  unfolding observe_and_settle
  observe_and_settle-IsAtomic u o t (err _) at next =
      fail_tracking-IsAtomic u t latest_block_height_unavailable at next
  observe_and_settle-IsAtomic u o t (ok height) at next =
      bind-IsAtomic (attempt (on_ext (o.observe_address (observe_input t height)))) _ (λ w. refl)
        (λ r. settle_observed-IsAtomic u t r at next)

  -- A step that returns an error leaves every row as it was.
  pub process_tracking-IsAtomic :
      (u : UnitOfWork D X) (o : Observer X) (t : Tracking) (at next : Time) (c : Caches)
      (w w' : World D X) (e : Error)
      → process_tracking u o t at next c w ≡ (err e, w')
      → w'.db ≡ w.db
  unfolding process_tracking
  process_tracking-IsAtomic u o t at next c =
      if-IsAtomic (is_zero t.issued_at) _ _
        (then-IsAtomic _ _ (fail_tracking-IsAtomic u t tracking_invalid at next))
        (bind-IsAtomic _ _ (fetch_latest-IsReadOnly o t c)
          (λ (height, c'). then-IsAtomic _ _ (observe_and_settle-IsAtomic u o t height at next)))
