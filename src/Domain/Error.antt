-- ===== src/Domain/Error.antt =====
-- The error values of internal/domain: valueobjects, entities, events and policies, in this order.
-- Where two packages have one name, the word for the package comes first.
pub data Error : Type 0 where
  address_policy_id_invalid : Error
  observation_observed_total_invalid : Error
  observation_confirmed_total_invalid : Error
  observation_unconfirmed_total_invalid : Error
  observation_latest_block_height_invalid : Error
  observation_total_mismatch : Error
  observation_confirmed_exceeds_observed : Error
  observation_unconfirmed_exceeds_observed : Error
  payment_address_id_invalid : Error
  address_policy_id_required : Error
  expected_amount_minor_invalid : Error
  chain_invalid : Error
  network_invalid : Error
  address_required : Error
  issued_at_required : Error
  required_confirmations_invalid : Error
  observed_at_required : Error
  receipt_failure_reason_required : Error
  address_policy_mismatch : Error
  derivation_failure_reason_required : Error
  allocation_not_issued : Error
  expires_at_required : Error
  event_payment_address_id_invalid : Error
  previous_status_required : Error
  current_status_required : Error
  status_change_required : Error
  event_observed_total_invalid : Error
  event_confirmed_total_invalid : Error
  event_unconfirmed_total_invalid : Error
  status_changed_at_required : Error
  allocation_issued_at_required : Error
  policy_address_policy_id_required : Error
  policy_chain_mismatch : Error
  policy_not_enabled : Error
  policy_expected_amount_invalid : Error
  port_record_invalid : Error
