-- ===== src/Domain/Status.antt =====
-- internal/domain/valueobjects: payment_receipt_status.go, the two failure reasons, and
-- policies/payment_receipt_tracking_polling.go.
use payrune.Prelude.{Bool, Option, none, some, List, [], ◌∷◌, if◌then◌else◌}
use payrune.Text.{Text, codes, ◌==ᵗ◌, is_empty, trim_space, to_lower, trim_left, is_space}
use payrune.Domain.Values.{lookup}

-- PaymentReceiptStatus; `unset` is the zero value "".
pub data Status : Type 0 where
  watching partially_paid paid_unconfirmed paid_unconfirmed_reverted : Status
  paid_confirmed failed_expired unset : Status

-- string(status)
abbrev pub status_text : Status → Text
status_text watching = codes "watching"
status_text partially_paid = codes "partially_paid"
status_text paid_unconfirmed = codes "paid_unconfirmed"
status_text paid_unconfirmed_reverted = codes "paid_unconfirmed_reverted"
status_text paid_confirmed = codes "paid_confirmed"
status_text failed_expired = codes "failed_expired"
status_text unset = []

infix 50 ◌==ˢ◌
unfoldable pub ◌==ˢ◌ : Status → Status → Bool
a ==ˢ b = status_text a ==ᵗ status_text b

unfoldable pub payment_receipt_statuses : List (Text × Status)
payment_receipt_statuses =
    (codes "watching", watching)
    ∷ (codes "partially_paid", partially_paid)
    ∷ (codes "paid_unconfirmed", paid_unconfirmed)
    ∷ (codes "paid_unconfirmed_reverted", paid_unconfirmed_reverted)
    ∷ (codes "paid_confirmed", paid_confirmed)
    ∷ (codes "failed_expired", failed_expired)
    ∷ []

-- ParsePaymentReceiptStatus
unfoldable pub parse_status : Text → Option Status
unfolding payment_receipt_statuses
parse_status raw = lookup payment_receipt_statuses (to_lower (trim_space raw))

-- PollablePaymentReceiptStatuses
unfoldable pub pollable_statuses : List Status
pollable_statuses = watching ∷ partially_paid ∷ paid_unconfirmed ∷ paid_unconfirmed_reverted ∷ []

-- PaymentReceiptTrackingFailureReason; `unset` is "".
pub data FailureReason : Type 0 where
  tracking_invalid latest_block_height_unavailable observation_failed : FailureReason
  tracking_update_failed payment_window_expired processing_failed unset : FailureReason

abbrev pub reason_text : FailureReason → Text
reason_text tracking_invalid = codes "tracking_invalid"
reason_text latest_block_height_unavailable = codes "latest_block_height_unavailable"
reason_text observation_failed = codes "observation_failed"
reason_text tracking_update_failed = codes "tracking_update_failed"
reason_text payment_window_expired = codes "payment_window_expired"
reason_text processing_failed = codes "processing_failed"
reason_text FailureReason.unset = []

unfoldable pub tracking_failure_reasons : List (Text × FailureReason)
tracking_failure_reasons =
    (codes "tracking_invalid", tracking_invalid)
    ∷ (codes "latest_block_height_unavailable", latest_block_height_unavailable)
    ∷ (codes "observation_failed", observation_failed)
    ∷ (codes "tracking_update_failed", tracking_update_failed)
    ∷ (codes "payment_window_expired", payment_window_expired)
    ∷ (codes "processing_failed", processing_failed)
    ∷ []

-- ParsePaymentReceiptTrackingFailureReason
unfoldable pub parse_failure_reason : Text → Option FailureReason
unfolding tracking_failure_reasons
parse_failure_reason raw =
    let normalized = to_lower (trim_space raw) in
    if is_empty normalized then none else lookup tracking_failure_reasons normalized

-- PaymentReceiptTrackingFailureReason.IsZero
unfoldable pub is_zero_reason : FailureReason → Bool
unfolding trim_space trim_left is_space
is_zero_reason r = is_empty (trim_space (reason_text r))

-- PaymentReceiptTrackingFailureReason.Message
unfoldable pub reason_message : FailureReason → Text
reason_message tracking_invalid = codes "receipt tracking is invalid"
reason_message latest_block_height_unavailable = codes "latest block height unavailable"
reason_message observation_failed = codes "receipt observation failed"
reason_message tracking_update_failed = codes "receipt tracking update failed"
reason_message payment_window_expired = codes "payment window expired"
reason_message processing_failed = codes "receipt processing failed"
reason_message FailureReason.unset = []

-- The one constant of PaymentAddressAllocationDerivationFailureReason.
abbrev pub derivation_failed : Text
derivation_failed = codes "derivation_failed"

-- ParsePaymentAddressAllocationDerivationFailureReason
unfoldable pub parse_derivation_failure_reason : Text → Option Text
parse_derivation_failure_reason raw =
    let normalized = to_lower (trim_space raw) in
    if is_empty normalized
    then none
    else if normalized ==ᵗ derivation_failed
    then some derivation_failed
    else none
