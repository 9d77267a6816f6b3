-- ===== src/Domain/Allocation/Examples.antt =====
-- Tests and examples of the allocations on concrete ones.
use payrune.Prelude.{◌≡◌, refl, some, [], none}
use payrune.Prelude.Int.{pos}
use payrune.Text.{codes, trim_space, trim_left, is_space, lower, to_lower, byte_len}
use payrune.Text.Id.{is_id_char, parse_id}
use payrune.Result.{ok}
use payrune.Domain.Allocation.{
  Allocation, reserved, mark_issued, mark_derivation_failed, issue_receipt_tracking, issued,
}
use payrune.Domain.Status.{watching, FailureReason}
use payrune.Domain.Tracking.{Tracking, new_tracking}
use payrune.Domain.Values.{
  parse_chain_id, parse_network_id, parse_address_scheme, bitcoin, mainnet, normalize_policy_id,
  is_zero_policy_id, normalize_scheme, parse_address_policy_id,
}

abbrev slot : Allocation
slot = record {
  payment_address_id = pos 7;
  address_policy_id = codes "btc";
  slot_index = pos 4;
  expected_amount = pos 1000;
  customer_reference = [];
  status = reserved;
  chain = [];
  network = [];
  scheme = [];
  asset_reference = [];
  address = [];
  derivation_failure_reason = [];
}

abbrev issued_slot : Allocation
issued_slot = record slot {
  status = issued;
  chain = bitcoin;
  network = mainnet;
  scheme = codes "taproot";
  address = codes "bc1q";
}

slot_issued :
    mark_issued slot (codes "btc") bitcoin mainnet (codes "taproot") [] (codes " bc1q ")
    ≡ ok issued_slot
unfolding parse_address_scheme mark_issued normalize_policy_id is_zero_policy_id normalize_scheme
    parse_address_policy_id parse_id trim_space trim_left is_space to_lower lower byte_len
    is_id_char
slot_issued = refl

abbrev issued_tracking : Tracking
issued_tracking = record {
  tracking_id = pos 0;
  payment_address_id = pos 7;
  address_policy_id = codes "btc";
  chain = bitcoin;
  network = mainnet;
  address = codes "bc1q";
  asset_reference = [];
  issued_at = pos 10;
  expected_amount = pos 1000;
  required_confirmations = pos 2;
  status = watching;
  observed_total = pos 0;
  confirmed_total = pos 0;
  unconfirmed_total = pos 0;
  last_observed_block_height = pos 0;
  first_observed_at = none;
  paid_at = none;
  confirmed_at = none;
  expires_at = some (pos 100);
  last_failure_reason = FailureReason.unset;
}

slot_tracking : issue_receipt_tracking issued_slot (pos 10) (pos 2) (pos 100) ≡ ok issued_tracking
unfolding issue_receipt_tracking new_tracking normalize_policy_id is_zero_policy_id parse_chain_id
    parse_network_id parse_id trim_space trim_left is_space to_lower lower byte_len is_id_char
slot_tracking = refl

abbrev failed_slot : Allocation
failed_slot = record slot {
  status = codes "derivation_failed";
  derivation_failure_reason = codes "derivation_failed";
}

slot_failed : mark_derivation_failed slot (codes "derivation_failed") ≡ ok failed_slot
unfolding mark_derivation_failed trim_space trim_left is_space
slot_failed = refl
