-- ===== src/Domain/Tracking.antt =====
-- internal/domain/entities/payment_receipt_tracking.go. A *time.Time is an `Option Time`, and a
-- method that returns an updated copy returns the new record.
pub mod Invariant
pub mod Statuses
pub mod History
use payrune.Prelude.{
  Bool, true, false, not, ◌&&◌, ◌||◌, Option, none, some, is_some, is_none, if◌then◌else◌,
}
use payrune.Prelude.Int.{ℤ, pos, leb_ℤ, ltb_ℤ, eqb_ℤ}
use payrune.Text.{Text, is_empty, trim_space}
use payrune.Result.{Result, ok, err, ◌>>=◌, ◌>>◌, reject_if, require}
use payrune.Time.{Time, is_zero, after}
use payrune.Domain.Error.{
  Error, payment_address_id_invalid, address_policy_id_required, chain_invalid, network_invalid,
  address_required, issued_at_required, expected_amount_minor_invalid,
  required_confirmations_invalid, observed_at_required, receipt_failure_reason_required,
}
use payrune.Domain.Observation.{Observation, validate}
use payrune.Domain.Status.{
  Status, watching, partially_paid, paid_unconfirmed, paid_unconfirmed_reverted, paid_confirmed,
  failed_expired, ◌==ˢ◌, FailureReason, payment_window_expired, is_zero_reason,
}
use payrune.Domain.StatusChanged.{StatusChanged, new_status_changed}
use payrune.Domain.Values.{parse_chain_id, parse_network_id, normalize_policy_id, is_zero_policy_id}

-- PaymentReceiptTracking
pub record Tracking : Type 0 where
  pub tracking_id : ℤ
  pub payment_address_id : ℤ
  pub address_policy_id : Text
  pub chain : Text
  pub network : Text
  pub address : Text
  pub asset_reference : Text
  pub issued_at : Time
  pub expected_amount : ℤ
  pub required_confirmations : ℤ
  pub status : Status
  pub observed_total : ℤ
  pub confirmed_total : ℤ
  pub unconfirmed_total : ℤ
  pub last_observed_block_height : ℤ
  pub first_observed_at : Option Time
  pub paid_at : Option Time
  pub confirmed_at : Option Time
  pub expires_at : Option Time
  pub last_failure_reason : FailureReason

-- NewPaymentReceiptTracking
unfoldable pub new_tracking :
    ℤ → Text → Text → Text → Text → Text → Time → ℤ → ℤ → Result Error Tracking
unfolding normalize_policy_id is_zero_policy_id
new_tracking payment_address_id policy_id chain network address asset_reference issued_at amount
      confirmations =
    do
      let normalized_policy_id = normalize_policy_id policy_id
      let normalized_address = trim_space address
      reject_if (leb_ℤ payment_address_id (pos 0)) payment_address_id_invalid
      reject_if (is_zero_policy_id normalized_policy_id) address_policy_id_required
      normalized_chain ← require (parse_chain_id chain) chain_invalid
      normalized_network ← require (parse_network_id network) network_invalid
      reject_if (is_empty normalized_address) address_required
      reject_if (is_zero issued_at) issued_at_required
      reject_if (leb_ℤ amount (pos 0)) expected_amount_minor_invalid
      reject_if (leb_ℤ confirmations (pos 0)) required_confirmations_invalid
      ok (record {
        tracking_id = pos 0;
        payment_address_id = payment_address_id;
        address_policy_id = normalized_policy_id;
        chain = normalized_chain;
        network = normalized_network;
        address = normalized_address;
        asset_reference = trim_space asset_reference;
        issued_at = issued_at;
        expected_amount = amount;
        required_confirmations = confirmations;
        status = watching;
        observed_total = pos 0;
        confirmed_total = pos 0;
        unconfirmed_total = pos 0;
        last_observed_block_height = pos 0;
        first_observed_at = none;
        paid_at = none;
        confirmed_at = none;
        expires_at = none;
        last_failure_reason = FailureReason.unset;
      })

-- decidePaymentReceiptStatus
unfoldable pub decide_status : Tracking → Observation → Status
decide_status tracking o =
    if leb_ℤ tracking.expected_amount o.confirmed_total
    then paid_confirmed
    else if leb_ℤ tracking.expected_amount o.observed_total
    then paid_unconfirmed
    else if is_some tracking.paid_at
    then paid_unconfirmed_reverted
    else if eqb_ℤ o.observed_total (pos 0)
    then watching
    else partially_paid

-- A milestone of ApplyObservation: the time is kept once it is set.
unfoldable pub mark_at : Bool → Time → Option Time → Option Time
mark_at reached observed_at previous =
    if reached && is_none previous then some observed_at else previous

-- The updated copy of ApplyObservation.
unfoldable pub observed : Tracking → Observation → Time → Tracking
unfolding mark_at decide_status
observed t o observed_at =
    let updated = record t {
      observed_total = o.observed_total;
      confirmed_total = o.confirmed_total;
      unconfirmed_total = o.unconfirmed_total;
      last_observed_block_height = o.latest_block_height;
      last_failure_reason = FailureReason.unset;
      first_observed_at = mark_at (ltb_ℤ (pos 0) o.observed_total) observed_at t.first_observed_at;
      paid_at = mark_at (leb_ℤ t.expected_amount o.observed_total) observed_at t.paid_at;
      confirmed_at = mark_at (leb_ℤ t.expected_amount o.confirmed_total) observed_at t.confirmed_at;
    } in
    record updated { status = decide_status updated o }

-- PaymentReceiptTracking.ApplyObservation
unfoldable pub apply_observation : Tracking → Observation → Time → Result Error Tracking
apply_observation t o observed_at = do
  validate o
  reject_if (is_zero observed_at) observed_at_required
  ok (observed t o observed_at)

-- PaymentReceiptTracking.MarkPollingFailure
unfoldable pub mark_polling_failure : Tracking → FailureReason → Result Error Tracking
unfolding is_zero_reason
mark_polling_failure t reason = do
  reject_if (is_zero_reason reason) receipt_failure_reason_required
  ok (record t { last_failure_reason = reason })

-- PaymentReceiptTracking.IsExpired
unfoldable pub is_expired : Tracking → Time → Bool
is_expired t now = elim t.expires_at [
  | none ↦ false
  | some expires_at ↦ if is_zero now then false else not (after expires_at now)
]

-- PaymentReceiptTracking.CanExpireByPaymentWindow
unfoldable pub can_expire : Tracking → Bool
can_expire t = is_none t.paid_at

-- PaymentReceiptTracking.MarkExpired
unfoldable pub mark_expired : Tracking → FailureReason → Result Error Tracking
unfolding is_zero_reason
mark_expired t reason = do
  reject_if (is_zero_reason reason) receipt_failure_reason_required
  ok (record t { status = failed_expired; last_failure_reason = reason })

-- PaymentReceiptTracking.ExpireIfDue
unfoldable pub expire_if_due : Tracking → Time → Result Error (Tracking × Bool)
unfolding is_expired can_expire mark_expired
expire_if_due t now =
    if not (can_expire t)
    then ok (t, false)
    else if not (is_expired t now)
    then ok (t, false)
    else (do expired ← mark_expired t payment_window_expired; ok (expired, true))

-- PaymentReceiptTracking.StatusChangedEvent: `none` where there is no change.
unfoldable pub status_changed_event : Tracking → Status → Time → Result Error (Option StatusChanged)
unfolding new_status_changed
status_changed_event t previous changed_at = if previous ==ˢ t.status then ok none else (do
  event ←
      new_status_changed t.payment_address_id previous t.status t.observed_total t.confirmed_total
        t.unconfirmed_total changed_at
  ok (some event))
