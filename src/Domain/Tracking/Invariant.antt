-- ===== src/Domain/Tracking/Invariant.antt =====
-- What holds of a receipt tracking between two operations of
-- internal/domain/entities/payment_receipt_tracking.go.
use payrune.Prelude.{Bool, true, false, not, ◌&&◌, none, is_some, ◌≡◌, arith, Bool-cases, inl, inr}
use payrune.Prelude.Int.{ℤ, pos, ◌≤ℤ◌, ◌<ℤ◌, leb_ℤ, ◌+ℤ◌}
use payrune.Text.{Text, is_empty, trim_space}
use payrune.Result.{ok, is_ok, >>=-eq-ok}
use payrune.Time.{Time, is_zero}
use payrune.Domain.Observation.{Observation, IsSound, validate, IsInRange, validate-IsSound}
use payrune.Domain.Status.{
  Status, watching, partially_paid, paid_unconfirmed, paid_unconfirmed_reverted, paid_confirmed,
  failed_expired, FailureReason,
}
use payrune.Domain.Tracking.{
  Tracking, new_tracking, observed, apply_observation, mark_polling_failure, expire_if_due,
}
use payrune.Domain.Values.{parse_chain_id, parse_network_id, normalize_policy_id, is_zero_policy_id}

-- The status agrees with the milestones.
abbrev pub StatusFits : Status → Tracking → Type 0
StatusFits watching t = (is_some t.paid_at ≡ false) × (t.observed_total ≡ pos 0)
StatusFits partially_paid t = (is_some t.paid_at ≡ false) × (pos 0 <ℤ t.observed_total)
StatusFits paid_unconfirmed t = (is_some t.paid_at ≡ true) × (t.expected_amount ≤ℤ t.observed_total)
StatusFits paid_unconfirmed_reverted t =
    (is_some t.paid_at ≡ true) × (t.observed_total <ℤ t.expected_amount)
StatusFits paid_confirmed t =
    (is_some t.confirmed_at ≡ true) × (t.expected_amount ≤ℤ t.confirmed_total)
StatusFits failed_expired t = is_some t.paid_at ≡ false
StatusFits Status.unset t = ⊥

pub record IsValid (t : Tracking) : Type 0 where
  pub expected : pos 0 <ℤ t.expected_amount
  pub address_id : pos 0 <ℤ t.payment_address_id
  pub observed : pos 0 ≤ℤ t.observed_total
  pub confirmed : pos 0 ≤ℤ t.confirmed_total
  pub unconfirmed : pos 0 ≤ℤ t.unconfirmed_total
  pub sum : t.confirmed_total +ℤ t.unconfirmed_total ≡ t.observed_total
  pub paid_after_first : is_some t.paid_at ≡ true → is_some t.first_observed_at ≡ true
  pub confirmed_after_paid : is_some t.confirmed_at ≡ true → is_some t.paid_at ≡ true
  pub status_fits : StatusFits t.status t

-- NewPaymentReceiptTracking returns a tracking that satisfies the invariant, is watching, and has
-- no milestone and no expiry.
pub new_tracking-IsValid :
    (id : ℤ) (policy_id chain network address asset : Text) (issued_at : Time) (amount n : ℤ)
    (t : Tracking)
    → new_tracking id policy_id chain network address asset issued_at amount n ≡ ok t
    → IsValid t × (t.status ≡ watching) × (t.first_observed_at ≡ none) × (t.expires_at ≡ none)
unfolding new_tracking ◌+ℤ◌
new_tracking-IsValid id policy_id chain network address asset issued_at amount n t h = ground arith

-- NewPaymentReceiptTracking succeeds exactly when every one of its arguments passes its test.
pub new_tracking-is_ok :
    (id : ℤ) (policy_id chain network address asset : Text) (issued_at : Time) (amount n : ℤ)
    → is_ok (new_tracking id policy_id chain network address asset issued_at amount n) ≡ (
        not (leb_ℤ id (pos 0))
        && not (is_zero_policy_id (normalize_policy_id policy_id))
        && is_some (parse_chain_id chain)
        && is_some (parse_network_id network)
        && not (is_empty (trim_space address))
        && not (is_zero issued_at)
        && not (leb_ℤ amount (pos 0))
        && not (leb_ℤ n (pos 0)))
unfolding new_tracking
new_tracking-is_ok id policy_id chain network address asset issued_at amount n = ground arith

-- What an accepted observation is, and what it makes of the tracking.
pub apply_observation-eq-ok :
    (t : Tracking) (o : Observation) (at : Time) {t' : Tracking}
    → apply_observation t o at ≡ ok t'
    → (validate o ≡ ok tt) × (is_zero at ≡ false) × (t' ≡ observed t o at)
unfolding apply_observation
apply_observation-eq-ok t o at h =
    let (_, valid, rest) = >>=-eq-ok (validate o) _ h in
    elim (Bool-cases (is_zero at)) [ inl zero ↦ cc | inr set ↦ (valid, set, ground arith) ]

module _ (t : Tracking) (o : Observation) (at : Time) (v : IsValid t) (s : IsSound o) where
  observed-StatusFits : StatusFits (observed t o at).status (observed t o at)
  unfolding observed
  observed-StatusFits = ground arith

  observed_milestones :
      let t' = observed t o at in
      (is_some t'.paid_at ≡ true → is_some t'.first_observed_at ≡ true)
      × (is_some t'.confirmed_at ≡ true → is_some t'.paid_at ≡ true)
  unfolding observed ◌+ℤ◌
  observed_milestones = (λ h. ground arith, λ h. ground arith)

  observed-IsValid : IsValid (observed t o at)
  unfolding observed
  observed-IsValid = record {
    expected = v.expected;
    address_id = v.address_id;
    observed = s.observed;
    confirmed = s.confirmed;
    unconfirmed = s.unconfirmed;
    sum = s.sum;
    paid_after_first = observed_milestones.0;
    confirmed_after_paid = observed_milestones.1;
    status_fits = observed-StatusFits;
  }

-- An accepted observation keeps the invariant.
pub apply_observation-IsValid :
    (t : Tracking) (o : Observation) (at : Time) {t' : Tracking}
    → IsValid t
    → IsInRange o
    → apply_observation t o at ≡ ok t'
    → IsValid t'
apply_observation-IsValid t o at v r h =
    let (valid, _, e) = apply_observation-eq-ok t o at h in
    rw e (observed-IsValid t o at v (validate-IsSound o r valid))

-- So does a polling failure, and the expiry of a tracking.
mark_polling_failure-IsValid :
    (t : Tracking) (reason : FailureReason) {t' : Tracking}
    → IsValid t
    → mark_polling_failure t reason ≡ ok t'
    → IsValid t'
unfolding mark_polling_failure
mark_polling_failure-IsValid t reason v h = ground arith

pub expire_if_due-IsValid :
    (t : Tracking) (now : Time) {t' : Tracking} {expired : Bool}
    → IsValid t
    → expire_if_due t now ≡ ok (t', expired)
    → IsValid t'
unfolding expire_if_due
expire_if_due-IsValid t now v h = ground arith

pub mark_polling_failure-eq-ok :
    (t : Tracking) (reason : FailureReason) {t' : Tracking}
    → mark_polling_failure t reason ≡ ok t'
    → t' ≡ record t { last_failure_reason = reason }
unfolding mark_polling_failure
mark_polling_failure-eq-ok t reason h = ground arith
