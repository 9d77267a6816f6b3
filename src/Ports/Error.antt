-- ===== src/Ports/Error.antt =====
-- The error values of application/ports/inbound/errors.go and, behind them, those of
-- application/ports/outbound that the code under verification makes or tells apart.
pub data Error : Type 0 where
  chain_not_supported : Error
  invalid_address_policy_id : Error
  address_policy_not_found : Error
  address_policy_not_enabled : Error
  address_pool_exhausted : Error
  invalid_expected_amount : Error
  idempotency_key_conflict : Error
  payment_address_not_found : Error
  dependency_failure : Error
  internal_failure : Error
  unit_of_work_not_configured : Error
  deriver_not_configured : Error
  policy_reader_not_configured : Error
  clock_not_configured : Error
  status_finder_not_configured : Error
  observer_not_configured : Error
  notifier_not_configured : Error
  allocation_store_not_configured : Error
  idempotency_store_not_configured : Error
  tracking_store_not_configured : Error
  outbox_not_configured : Error
  batch_size_invalid : Error
  max_attempts_invalid : Error
  retry_delay_invalid : Error
  poll_chain_required : Error
  payment_address_policy_not_configured : Error
  payment_address_id_invalid : Error
  idempotency_record_incomplete : Error
  idempotency_record_missing_allocation : Error
  idempotency_claim_conflict : Error
  reservation_attempt_invalid : Error
  reservation_attempts_required : Error
  unit_of_work_failed : Error
  unit_of_work_db_missing : Error
  address_index_exhausted : Error
  idempotency_key_exists : Error
  notification_outbox_failed : Error
  notification_delivered_at_required : Error
  status_incomplete : Error
  status_persisted_policy_id_invalid : Error
  status_persisted_chain_invalid : Error
  status_persisted_network_invalid : Error
  status_persisted_receipt_status_invalid : Error
  driver_failed : Error
  tracking_next_poll_at_required : Error
  tracking_store_failed : Error
  tracking_already_exists : Error
  tracking_claim_now_required : Error
  tracking_claim_until_required : Error
  tracking_claim_limit_invalid : Error
  tracking_claim_statuses_required : Error
  tracking_claim_status_required : Error
  tracking_polled_at_required : Error
  tracking_not_found : Error
  tracking_persisted_chain_invalid : Error
  tracking_persisted_policy_id_invalid : Error
  tracking_persisted_network_invalid : Error
  tracking_persisted_status_invalid : Error
  notification_not_found : Error
  notification_claim_now_required : Error
  notification_claim_until_required : Error
  notification_claim_limit_invalid : Error
  notification_next_attempt_required : Error
  notification_delivery_status_invalid : Error
  notification_persisted_policy_id_invalid : Error
  notification_persisted_previous_status_invalid : Error
  notification_persisted_current_status_invalid : Error
  notification_persisted_delivery_status_invalid : Error
  allocation_store_failed : Error
  allocation_persisted_chain_invalid : Error
  allocation_persisted_policy_id_invalid : Error
  allocation_persisted_network_invalid : Error
  allocation_issued_at_required : Error
  allocation_not_reserved : Error
  idempotency_store_failed : Error
  idempotency_persisted_chain_invalid : Error
  idempotency_persisted_policy_id_invalid : Error
  idempotency_chain_required : Error
  idempotency_key_required : Error
  idempotency_policy_id_required : Error
  idempotency_expected_amount_invalid : Error
  idempotency_payment_address_id_invalid : Error
  idempotency_claim_not_found : Error
  status_find_failed : Error
  chain_observer_not_configured : Error
  chain_observer_input_invalid : Error
  chain_observer_failed : Error
