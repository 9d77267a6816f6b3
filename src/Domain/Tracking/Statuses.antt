-- ===== src/Domain/Tracking/Statuses.antt =====
-- Expiry, sticky milestones and the status-changed event of
-- internal/domain/entities/payment_receipt_tracking.go.
use payrune.Prelude.{
  Bool, true, false, none, some, ◌≡◌, ◌≢◌, ◌↔◌, ◌⊎◌, inl, inr, refl, arith, if◌then◌else◌,
  Option-cases, Option,
}
use payrune.Prelude.Int.{◌≤ℤ◌}
use payrune.Result.{ok}
use payrune.Time.{Time, is_zero}
use payrune.Domain.Observation.{Observation}
use payrune.Domain.Status.{Status, ◌==ˢ◌, failed_expired, payment_window_expired}
use payrune.Domain.Tracking.{
  Tracking, observed, apply_observation, expire_if_due, status_changed_event, mark_at,
}
use payrune.Domain.Tracking.Invariant.{IsValid, apply_observation-eq-ok}

expired_of_due :
    (t : Tracking) (now : Time) (t' : Tracking)
    → expire_if_due t now ≡ ok (t', true)
    → (e : Time) × (t.paid_at ≡ none)
      × (t.expires_at ≡ some e)
      × (e ≤ℤ now)
      × (is_zero now ≡ false)
      × (t' ≡ record t { status = failed_expired; last_failure_reason = payment_window_expired })
unfolding expire_if_due
expired_of_due t now t' h = elim (Option-cases t.expires_at) [
  | inl never ↦ absurd (ground arith)
  | inr (e, x) ↦ (e, ground arith, x, ground arith, ground arith, ground arith)
]

due_of_expired :
    (t : Tracking) (now : Time) (t' : Tracking) (e : Time)
    → t.paid_at ≡ none
    → t.expires_at ≡ some e
    → e ≤ℤ now
    → is_zero now ≡ false
    → t' ≡ record t { status = failed_expired; last_failure_reason = payment_window_expired }
    → expire_if_due t now ≡ ok (t', true)
unfolding expire_if_due
due_of_expired t now t' e p x le z eq = ground arith

-- ExpireIfDue expires a tracking exactly when it was never paid and its expiry time has come, and
-- then it changes the status and the failure reason, and nothing else.
pub expire_if_due_iff :
    (t : Tracking) (now : Time) (t' : Tracking)
    → (expire_if_due t now ≡ ok (t', true)) ↔ (
        (e : Time) × (t.paid_at ≡ none)
        × (t.expires_at ≡ some e)
        × (e ≤ℤ now)
        × (is_zero now ≡ false)
        × (t' ≡ record t { status = failed_expired; last_failure_reason = payment_window_expired }))
expire_if_due_iff t now t' =
    (expired_of_due t now t', λ (e, p, x, le, z, eq). due_of_expired t now t' e p x le z eq)

pub expire_if_due-cases :
    (t : Tracking) (now : Time)
    → (expire_if_due t now ≡ ok (t, false))
      ⊎ (expire_if_due t now
          ≡ ok (
            record t { status = failed_expired; last_failure_reason = payment_window_expired },
            true,
          ))
unfolding expire_if_due
expire_if_due-cases t now = ground arith

-- ExpireIfDue never fails, and where it does not expire it returns the tracking as it was.
pub expire_if_due_total :
    (t : Tracking) (now : Time)
    → (t' : Tracking) × (expired : Bool) × (expire_if_due t now ≡ ok (t', expired))
      × (expired ≡ false → t' ≡ t)
expire_if_due_total t now = elim (expire_if_due-cases t now) [
  | inl same ↦ (t, false, same, λ _. refl)
  | inr due ↦ (
    record t { status = failed_expired; last_failure_reason = payment_window_expired },
    true,
    due,
    λ e. cc,
  )
]

mark_at_cases :
    (b : Bool) (at : Time) (o : Option Time)
    → (mark_at b at o ≡ o) ⊎ ((o ≡ none) × (mark_at b at o ≡ some at))
unfolding mark_at
mark_at_cases true at none = inr (refl, refl)
mark_at_cases true at (some x) = inl refl
mark_at_cases false at o = inl refl

-- An accepted observation keeps each milestone, or sets one that was not set yet to the time of the
-- observation.
pub apply_observation_sticky :
    (t : Tracking) (o : Observation) (at : Time) {t' : Tracking}
    → apply_observation t o at ≡ ok t'
    → ((t'.first_observed_at ≡ t.first_observed_at)
        ⊎ ((t.first_observed_at ≡ none) × (t'.first_observed_at ≡ some at)))
      × ((t'.paid_at ≡ t.paid_at) ⊎ ((t.paid_at ≡ none) × (t'.paid_at ≡ some at)))
      × ((t'.confirmed_at ≡ t.confirmed_at)
          ⊎ ((t.confirmed_at ≡ none) × (t'.confirmed_at ≡ some at)))
unfolding observed
apply_observation_sticky t o at h =
    let (_, _, e) = apply_observation-eq-ok t o at h in
    rw e (mark_at_cases _ at _, mark_at_cases _ at _, mark_at_cases _ at _)

-- On a valid tracking StatusChangedEvent never fails: there is no event where the status is the
-- previous one, and otherwise the event carries both statuses, the totals and the time.
pub status_changed_event_total :
    (t : Tracking) (previous : Status) (at : Time)
    → IsValid t
    → previous ≢ Status.unset
    → is_zero at ≡ false
    → status_changed_event t previous at ≡ (
        if previous ==ˢ t.status
        then ok none
        else ok (
            some (record {
              payment_address_id = t.payment_address_id;
              previous_status = previous;
              current_status = t.status;
              observed_total = t.observed_total;
              confirmed_total = t.confirmed_total;
              unconfirmed_total = t.unconfirmed_total;
              status_changed_at = at;
            })))
unfolding status_changed_event
status_changed_event_total t previous at v p z = ground arith
