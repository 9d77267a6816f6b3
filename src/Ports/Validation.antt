-- ===== src/Ports/Validation.antt =====
-- internal/application/ports/outbound/validation.go, the normalisers. A Go function that returns
-- a text and a flag is an `Option Text` where the text is "" without the flag, and a pair else.
pub mod Agree
use payrune.Prelude.{
  Bool, true, false, ◌&&◌, ◌||◌, Option, none, some, List, [], ◌∷◌, if◌then◌else◌,
}
use payrune.Text.{Text, codes, ◌==ᵗ◌, is_empty, trim_space, to_lower}
use payrune.Text.Id.{is_portable_id}
use payrune.Domain.Values.{lookup, bitcoin, ethereum}

-- NormalizeAddressPolicyID, NormalizeChainID and NormalizeNetworkID have one body.
unfoldable pub normalize_id : Text → Text × Bool
normalize_id raw =
    let normalized = to_lower (trim_space raw) in (normalized, is_portable_id normalized)

-- NormalizeSupportedChain
unfoldable pub normalize_supported_chain : Text → Option Text
unfolding normalize_id
normalize_supported_chain raw =
    let (chain, ok) = normalize_id raw in
    if ok && (chain ==ᵗ bitcoin || chain ==ᵗ ethereum) then some chain else none

unfoldable pub address_schemes : List (Text × Text)
address_schemes =
    (codes "legacy", codes "legacy")
    ∷ (codes "segwit", codes "segwit")
    ∷ (codes "nativesegwit", codes "nativeSegwit")
    ∷ (codes "taproot", codes "taproot")
    ∷ (codes "create2", codes "create2")
    ∷ []

-- NormalizeAddressScheme
unfoldable pub normalize_address_scheme : Text → Option Text
unfolding address_schemes
normalize_address_scheme raw = lookup address_schemes (to_lower (trim_space raw))

-- The map from each of the texts to itself.
abbrev pub identity_map : List Text → List (Text × Text)
identity_map [] = []
identity_map (t ∷ ts) = (t, t) ∷ identity_map ts

unfoldable pub issuance_ref_kinds : List Text
issuance_ref_kinds = codes "hd_path_absolute" ∷ codes "create2_salt" ∷ []

-- NormalizeIssuanceRefKind
unfoldable pub normalize_issuance_ref_kind : Text → Option Text
unfolding issuance_ref_kinds
normalize_issuance_ref_kind raw =
    lookup (identity_map issuance_ref_kinds) (to_lower (trim_space raw))

unfoldable pub payment_receipt_statuses : List Text
payment_receipt_statuses =
    codes "watching"
    ∷ codes "partially_paid"
    ∷ codes "paid_unconfirmed"
    ∷ codes "paid_unconfirmed_reverted"
    ∷ codes "paid_confirmed"
    ∷ codes "failed_expired"
    ∷ []

-- NormalizePaymentReceiptStatus
unfoldable pub normalize_receipt_status : Text → Option Text
unfolding payment_receipt_statuses
normalize_receipt_status raw =
    lookup (identity_map payment_receipt_statuses) (to_lower (trim_space raw))

unfoldable pub tracking_failure_reasons : List Text
tracking_failure_reasons =
    codes "tracking_invalid"
    ∷ codes "latest_block_height_unavailable"
    ∷ codes "observation_failed"
    ∷ codes "tracking_update_failed"
    ∷ codes "payment_window_expired"
    ∷ codes "processing_failed"
    ∷ []

-- NormalizePaymentReceiptTrackingFailureReason
unfoldable pub normalize_failure_reason : Text → Option Text
unfolding tracking_failure_reasons
normalize_failure_reason raw =
    let normalized = to_lower (trim_space raw) in
    if is_empty normalized then none else lookup (identity_map tracking_failure_reasons) normalized

-- NormalizePaymentAddressAllocationDerivationFailureReason
unfoldable pub normalize_derivation_failure_reason : Text → Option Text
normalize_derivation_failure_reason raw =
    let normalized = to_lower (trim_space raw) in
    if is_empty normalized
    then none
    else if normalized ==ᵗ codes "derivation_failed"
    then some normalized
    else none

abbrev pub pending : Text
pending = codes "pending"

abbrev pub sent : Text
sent = codes "sent"

abbrev pub failed : Text
failed = codes "failed"

abbrev pub delivery_failed : Text
delivery_failed = codes "delivery_failed"

-- NormalizePaymentReceiptNotificationDeliveryStatus
unfoldable pub normalize_delivery_status : Text → Option Text
normalize_delivery_status raw =
    lookup (identity_map (pending ∷ sent ∷ failed ∷ [])) (to_lower (trim_space raw))

-- NormalizePaymentReceiptNotificationDeliveryFailureReason
unfoldable pub normalize_delivery_failure_reason : Text → Option Text
normalize_delivery_failure_reason raw =
    let normalized = to_lower (trim_space raw) in
    if is_empty normalized then none else lookup (identity_map (delivery_failed ∷ [])) normalized

-- PaymentReceiptTrackingFailureReasonMessage
unfoldable pub failure_reason_message : Text → Text
failure_reason_message raw =
    let r = to_lower (trim_space raw) in
    if codes "tracking_invalid" ==ᵗ r
    then codes "receipt tracking is invalid"
    else if codes "latest_block_height_unavailable" ==ᵗ r
    then codes "latest block height unavailable"
    else if codes "observation_failed" ==ᵗ r
    then codes "receipt observation failed"
    else if codes "tracking_update_failed" ==ᵗ r
    then codes "receipt tracking update failed"
    else if codes "payment_window_expired" ==ᵗ r
    then codes "payment window expired"
    else if codes "processing_failed" ==ᵗ r
    then codes "receipt processing failed"
    else []
