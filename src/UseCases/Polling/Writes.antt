-- ===== src/UseCases/Polling/Writes.antt =====
-- What a step of internal/application/usecases/run_receipt_polling_cycle_use_case.go that returns
-- no error has written.
use payrune.Prelude.{
  ◌≡◌, refl, arith, inl, inr, Option, Option-cases, none, some, Bool-cases, true, false,
}
use payrune.Prelude.Int.{ℤ, ◌≤ℤ◌}
use payrune.Result.{result-cases, Result, err, ok}
use payrune.Time.{Time, is_zero}
use payrune.Domain.Observation.{Observation}
use payrune.Domain.Status.{
  FailureReason, failed_expired, payment_window_expired, latest_block_height_unavailable,
  observation_failed, tracking_invalid, tracking_update_failed,
}
use payrune.Domain.StatusChanged.{StatusChanged}
use payrune.Domain.Tracking.{
  expire_if_due, is_expired, can_expire, mark_expired, observed, Tracking, status_changed_event,
  apply_observation,
}
use payrune.Domain.Tracking.Invariant.{apply_observation-eq-ok}
use payrune.Domain.Tracking.Statuses.{expire_if_due-cases}
use payrune.Ports.Outside.{Observer, ObserveInput, ObserveOutput}
use payrune.Ports.World.{TxScope, World, UnitOfWork}
use payrune.Ports.World.Laws.{outcomes}
use payrune.UseCases.Polling.{
  processing_error, Outcome, Caches, Error, observe_input, fetch_latest, observation_of,
}
use payrune.UseCases.Polling.Atomic.{fetch_latest-IsReadOnly}
use payrune.UseCases.Polling.Cycle.{
  fail_tracking, settle, observe_and_settle, process_tracking, settle_observed,
}
use payrune.UseCases.Polling.Saved.{Saved, save_and_enqueue-Saved, save_polling_failure-Saved}

-- What the observer is asked about a tracking.
abbrev asked : Tracking → ℤ → ObserveInput
asked t height = record {
  asset_reference = t.asset_reference;
  chain = t.chain;
  network = t.network;
  address = t.address;
  issued_at = t.issued_at;
  observed_total = t.observed_total;
  confirmed_total = t.confirmed_total;
  unconfirmed_total = t.unconfirmed_total;
  required_confirmations = t.required_confirmations;
  latest_block_height = height;
  since_block_height = t.last_observed_block_height;
}

observe_input-eq : (t : Tracking) (height : ℤ) → observe_input t height ≡ asked t height
unfolding observe_input
observe_input-eq t height = refl

-- The observation is the observer's answer about the tracking.
abbrev pub IsAnswer : {X : Type 0} → Observer X → Tracking → Observation → Type 0
IsAnswer {X = X} ob t o =
    (height : ℤ) × (x : X) × (out : ObserveOutput) × ((ob.observe_address (asked t height) x).0
      ≡ ok out)
    × (o.observed_total ≡ out.observed_total)
    × (o.confirmed_total ≡ out.confirmed_total)
    × (o.unconfirmed_total ≡ out.unconfirmed_total)
    × (o.latest_block_height ≡ out.latest_block_height)

-- The payment window has closed on a tracking that was never paid.
abbrev pub IsDue : Tracking → Time → Type 0
IsDue t at =
    (t.paid_at ≡ none)
    × (is_zero at ≡ false)
    × (expires_at : Time) × (t.expires_at ≡ some expires_at)
    × (expires_at ≤ℤ at)

expired-IsDue :
    (t : Tracking) (at : Time) {final : Tracking}
    → expire_if_due t at ≡ ok (final, true)
    → IsDue t at
unfolding expire_if_due is_expired can_expire
expired-IsDue t at h = elim (Option-cases t.expires_at) [
  | inl e ↦ absurd (ground arith)
  | inr (expires, e) ↦ (ground arith, ground arith, expires, e, ground arith)
]

kept-not-IsDue : (t : Tracking) (at : Time) → expire_if_due t at ≡ ok (t, false) → ¬ IsDue t at
unfolding expire_if_due is_expired can_expire mark_expired
kept-not-IsDue t at h (unpaid, set, expires, e, past) = absurd (ground arith)

-- What each outcome of processTracking says of the tracking that was saved and of its event.
pub Reports :
    {X : Type 0} → Observer X → Outcome → Tracking → Tracking → Option StatusChanged → Time → Type 0
Reports ob processing_error t saved event at =
    (reason : FailureReason) × (saved ≡ record t { last_failure_reason = reason }) × (event ≡ none)
Reports ob Outcome.updated t saved event at =
    (o : Observation) × IsAnswer ob t o
    × (saved ≡ observed t o at)
    × ¬ IsDue saved at
    × (status_changed_event saved t.status at ≡ ok event)
Reports ob Outcome.terminal_failed t saved event at =
    (o : Observation) × IsAnswer ob t o
    × IsDue (observed t o at) at
    × (saved ≡ record (observed t o at) {
      status = failed_expired;
      last_failure_reason = payment_window_expired;
    })
    × (status_changed_event saved t.status at ≡ ok event)

-- a saved tracking with its event, as the outcome says
abbrev pub Recorded :
    {D X : Type 0} → Observer X → TxScope D → Outcome → Tracking → Time → Time → D → D → Type 0
Recorded ob scope outcome t at next d d' =
    (saved : Tracking) × (event : Option StatusChanged) × Reports ob outcome t saved event at
    × Saved scope saved event at next d d'

module _ {D X : Type 0} where
  fail_tracking-Recorded :
      (ob : Observer X) (u : UnitOfWork D X) (t : Tracking) (reason : FailureReason)
      (at next : Time) (w w' : World D X) (outcome : Outcome)
      → fail_tracking u t reason at next w ≡ (ok outcome, w')
      → Recorded ob u.scope outcome t at next w.db w'.db
  unfolding fail_tracking Reports
  fail_tracking-Recorded ob u t reason at next w w' processing_error h = (
    record t { last_failure_reason = reason },
    none,
    (reason, refl, refl),
    save_polling_failure-Saved u t reason at next w w' (ground arith),
  )
  fail_tracking-Recorded ob u t reason at next w w' Outcome.updated h = absurd (ground arith)
  fail_tracking-Recorded ob u t reason at next w w' Outcome.terminal_failed h =
      absurd (ground arith)

  settle-Recorded :
      (ob : Observer X) (u : UnitOfWork D X) (t : Tracking) (o : Observation) (at next : Time)
      (w w' : World D X) (outcome : Outcome)
      → IsAnswer ob t o
      → settle u t (observed t o at) at next w ≡ (ok outcome, w')
      → Recorded ob u.scope outcome t at next w.db w'.db
  unfolding settle Reports
  settle-Recorded ob u t o at next w w' processing_error answer h = absurd (ground arith)
  settle-Recorded ob u t o at next w w' Outcome.updated answer h =
      let new = observed t o at in
      elim (expire_if_due-cases new at) [
        | inl same ↦
            let (event, e, saved) =
              save_and_enqueue-Saved u new t.status at next w w' (ground arith) in
            (new, event, (o, answer, refl, kept-not-IsDue new at same, e), saved)
        | inr due ↦ absurd (ground arith)
      ]
  settle-Recorded ob u t o at next w w' Outcome.terminal_failed answer h =
      let new = observed t o at in
      elim (expire_if_due-cases new at) [
        | inl same ↦ absurd (ground arith)
        | inr due ↦
            let final : Tracking = record new {
              status = failed_expired;
              last_failure_reason = payment_window_expired;
            } in
            let (event, e, saved) =
              save_and_enqueue-Saved u final t.status at next w w' (ground arith) in
            (final, event, (o, answer, expired-IsDue new at due, refl, e), saved)
      ]

  settle_observed-Recorded :
      (ob : Observer X) (u : UnitOfWork D X) (t : Tracking) (r : Result Error ObserveOutput)
      (at next : Time) (w w' : World D X) (outcome : Outcome)
      → ((out : ObserveOutput) → r ≡ ok out → IsAnswer ob t (observation_of out))
      → settle_observed u t r at next w ≡ (ok outcome, w')
      → Recorded ob u.scope outcome t at next w.db w'.db
  unfolding settle_observed
  settle_observed-Recorded ob u t (err _) at next w w' outcome answer h =
      fail_tracking-Recorded ob u t observation_failed at next w w' outcome h
  settle_observed-Recorded ob u t (ok output) at next w w' outcome answer h =
      elim (result-cases (apply_observation t (observation_of output) at)) [
        | inl (new, p) ↦
            let (_, _, e) = apply_observation-eq-ok t (observation_of output) at p in
            settle-Recorded ob u t (observation_of output) at next w w' outcome (answer output refl)
              (ground arith)
        | inr (f, p) ↦
            fail_tracking-Recorded ob u t tracking_update_failed at next w w' outcome (ground arith)
      ]

  observe_and_settle-Recorded :
      (u : UnitOfWork D X) (ob : Observer X) (t : Tracking) (r : Result Error ℤ) (at next : Time)
      (w w' : World D X) (outcome : Outcome)
      → observe_and_settle u ob t r at next w ≡ (ok outcome, w')
      → Recorded ob u.scope outcome t at next w.db w'.db
  unfolding observe_and_settle
  observe_and_settle-Recorded u ob t (err _) at next w w' outcome h =
      fail_tracking-Recorded ob u t latest_block_height_unavailable at next w w' outcome h
  observe_and_settle-Recorded u ob t (ok height) at next w w' outcome h =
      let (r, x) = ob.observe_address (observe_input t height) w.ext in
      settle_observed-Recorded ob u t r at next (record w { ext = x }) w' outcome
        (λ out e. (height, w.ext, out, rw (← observe_input-eq t height) e, refl, refl, refl, refl))
        h

  pub process_tracking-Recorded :
      (u : UnitOfWork D X) (ob : Observer X) (t : Tracking) (at next : Time) (c c' : Caches)
      (w w' : World D X) (outcome : Outcome)
      → process_tracking u ob t at next c w ≡ (ok (outcome, c'), w')
      → Recorded ob u.scope outcome t at next w.db w'.db
  unfolding process_tracking
  process_tracking-Recorded u ob t at next c c' w w' outcome h =
      elim (Bool-cases (is_zero t.issued_at)) [
        | inl zero ↦
            fail_tracking-Recorded ob u t tracking_invalid at next w w' outcome (ground arith)
        | inr set ↦ elim (outcomes (fetch_latest ob t c w)) [
          | inr (e, v, p) ↦ absurd (ground arith)
          | inl ((r, c2), v, p) ↦
              let kept = fetch_latest-IsReadOnly ob t c w in
              let same : w.db ≡ v.db = ground arith in
              let done = observe_and_settle-Recorded u ob t r at next v w' outcome (ground arith) in
              rw same done
        ]
      ]
