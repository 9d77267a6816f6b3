-- ===== src/Postgres/Reasons.antt =====
-- failure_reason_normalizer.go of internal/adapters/outbound/persistence/postgres: stored reasons,
-- older messages included, as the reasons of the ports.
use payrune.Prelude.{Bool, none, some, List, [], ◌∷◌, any, if◌then◌else◌}
use payrune.Text.{Text, codes, ◌==ᵗ◌, is_empty, trim_space, to_lower}
use payrune.Ports.Validation.{
  normalize_failure_reason, normalize_delivery_failure_reason, normalize_derivation_failure_reason,
  delivery_failed,
}

-- `case a, b:`
abbrev pub is_one_of : Text → List Text → Bool
is_one_of s texts = any (λ t. s ==ᵗ t) texts

-- normalizePaymentReceiptTrackingFailureReason
unfoldable pub stored_tracking_reason : Text → Text
stored_tracking_reason raw =
    let normalized = to_lower (trim_space raw) in
    if is_empty normalized then [] else elim (normalize_failure_reason normalized) [
      | some reason ↦ reason
      | none ↦
          if is_one_of normalized
            (codes "receipt tracking is invalid" ∷ codes "issued at is required" ∷ [])
          then codes "tracking_invalid"
          else if is_one_of normalized
              (codes "latest block height unavailable" ∷ codes "tip height timeout" ∷ [])
          then codes "latest_block_height_unavailable"
          else if is_one_of normalized
              (codes "receipt observation failed" ∷ codes "rpc timeout" ∷ [])
          then codes "observation_failed"
          else if is_one_of normalized (codes "receipt tracking update failed" ∷ [])
          then codes "tracking_update_failed"
          else if is_one_of normalized (codes "payment window expired" ∷ [])
          then codes "payment_window_expired"
          else codes "processing_failed"
    ]

-- normalizePaymentReceiptNotificationDeliveryFailureReason; each case of its switch is the default.
unfoldable pub stored_delivery_reason : Text → Text
stored_delivery_reason raw =
    let normalized = to_lower (trim_space raw) in
    if is_empty normalized then [] else elim (normalize_delivery_failure_reason normalized) [
      | some reason ↦ reason
      | none ↦ delivery_failed
    ]

-- normalizePaymentAddressAllocationDerivationFailureReason; each case of its switch is the default.
unfoldable pub stored_derivation_reason : Text → Text
stored_derivation_reason raw =
    let normalized = to_lower (trim_space raw) in
    if is_empty normalized then [] else elim (normalize_derivation_failure_reason normalized) [
      | some reason ↦ reason
      | none ↦ codes "derivation_failed"
    ]
