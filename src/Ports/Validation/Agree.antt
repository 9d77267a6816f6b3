-- ===== src/Ports/Validation/Agree.antt =====
-- The outbound normalisers of application/ports/outbound/validation.go and the Parse functions of
-- domain/valueobjects are two implementations of the same rules.
use payrune.Prelude.{
  Bool, true, false, none, some, ◌≡◌, refl, arith, if◌then◌else◌, inl, inr, Bool-cases, [], ◌∷◌,
}
use payrune.Text.{Text, codes, ◌==ᵗ◌, trim_space, to_lower, is_empty}
use payrune.Text.Laws.{==ᵗ_iff}
use payrune.Text.Id.{parse_id-portable}
use payrune.Domain.Status.{
  tracking_invalid, latest_block_height_unavailable, observation_failed, tracking_update_failed,
  payment_window_expired, processing_failed, Status, FailureReason, status_text, reason_text,
  reason_message, parse_status, parse_failure_reason,
}
use payrune.Domain.Values.{
  parse_chain_id, parse_network_id, parse_address_policy_id, parse_supported_chain,
  parse_address_scheme, lookup, bitcoin, ethereum,
}
use payrune.Domain.Values.Laws.{lookup-map_values}
use payrune.Ports.Validation.{
  normalize_id, normalize_supported_chain, normalize_address_scheme, normalize_receipt_status,
  normalize_failure_reason, failure_reason_message,
}
use payrune.Domain.Values as DomainValues
use payrune.Domain.Status as DomainStatus
use mathlib.Core.Option

-- The normaliser of ids accepts what the domain parses as a chain id, with the same result, and the
-- domain parses network ids and policy ids as it does chain ids.
pub normalize_id-eq-parse :
    (raw : Text)
    → let (normalized, accepted) = normalize_id raw in
      ((if accepted then some normalized else none) ≡ parse_chain_id raw)
      × (parse_network_id raw ≡ parse_chain_id raw)
      × (parse_address_policy_id raw ≡ parse_chain_id raw)
unfolding normalize_id parse_chain_id parse_network_id parse_address_policy_id
normalize_id-eq-parse raw = (rw (parse_id-portable raw), refl, refl)

-- The normaliser of supported chains is the domain's parser, accepting the same texts.
pub normalize_supported_chain-eq-parse :
    (raw : Text) → normalize_supported_chain raw ≡ parse_supported_chain raw
unfolding normalize_supported_chain parse_supported_chain
normalize_supported_chain-eq-parse raw = ground (
  arith,
  parse_id-portable raw,
  ==ᵗ_iff (to_lower (trim_space raw)) bitcoin,
  ==ᵗ_iff (to_lower (trim_space raw)) ethereum,
)

normalize_address_scheme-eq-parse :
    (raw : Text) → normalize_address_scheme raw ≡ parse_address_scheme raw
unfolding normalize_address_scheme parse_address_scheme DomainValues.address_schemes
normalize_address_scheme-eq-parse raw = refl

-- A receipt status is normalised to the text of the status that the domain parses, and is refused
-- where the domain parses none.
pub normalize_receipt_status-eq-parse :
    (raw : Text) → normalize_receipt_status raw ≡ Option.map status_text (parse_status raw)
unfolding normalize_receipt_status parse_status
normalize_receipt_status-eq-parse raw =
    lookup-map_values status_text DomainStatus.payment_receipt_statuses (to_lower (trim_space raw))

normalize_failure_reason-eq-parse :
    (raw : Text) → normalize_failure_reason raw ≡ Option.map reason_text (parse_failure_reason raw)
unfolding normalize_failure_reason parse_failure_reason
normalize_failure_reason-eq-parse raw = elim (Bool-cases (is_empty (to_lower (trim_space raw)))) [
  | inl empty ↦ rw empty
  | inr full ↦ rw full (
      lookup-map_values reason_text DomainStatus.tracking_failure_reasons
        (to_lower (trim_space raw)))
]

-- The message of a reason found by six tests, made by the tests or read off the reason.
message_by_tests :
    (a b c d e f : Bool)
    → (if a
        then codes "receipt tracking is invalid"
        else if b
        then codes "latest block height unavailable"
        else if c
        then codes "receipt observation failed"
        else if d
        then codes "receipt tracking update failed"
        else if e
        then codes "payment window expired"
        else if f
        then codes "receipt processing failed"
        else [])
      ≡ (elim (if a
          then some tracking_invalid
          else if b
          then some latest_block_height_unavailable
          else if c
          then some observation_failed
          else if d
          then some tracking_update_failed
          else if e
          then some payment_window_expired
          else if f
          then some processing_failed
          else none) [ none ↦ [] | some r ↦ reason_message r ])
unfolding reason_message
message_by_tests true b c d e f = refl
message_by_tests false true c d e f = refl
message_by_tests false false true d e f = refl
message_by_tests false false false true e f = refl
message_by_tests false false false false true f = refl
message_by_tests false false false false false true = refl
message_by_tests false false false false false false = refl

is_empty-eq : (s : Text) → is_empty s ≡ true → s ≡ []
is_empty-eq [] h = refl
is_empty-eq (c ∷ s) h = cc

-- The message that the status API shows for a raw reason is the domain's message for what it parses
-- to, and no message where it parses to nothing.
pub failure_reason_message-eq-parse :
    (raw : Text)
    → failure_reason_message raw
      ≡ (elim (parse_failure_reason raw) [ none ↦ [] | some r ↦ reason_message r ])
unfolding failure_reason_message parse_failure_reason
failure_reason_message-eq-parse raw =
    let k = to_lower (trim_space raw) in
    elim (Bool-cases (is_empty k)) [
      | inl empty ↦ rw (is_empty-eq k empty)
      | inr full ↦ rw full (
          message_by_tests (codes "tracking_invalid" ==ᵗ k)
            (codes "latest_block_height_unavailable" ==ᵗ k) (codes "observation_failed" ==ᵗ k)
            (codes "tracking_update_failed" ==ᵗ k) (codes "payment_window_expired" ==ᵗ k)
            (codes "processing_failed" ==ᵗ k))
    ]
