-- ===== src/Domain/Allocation.antt =====
-- internal/domain/entities/payment_address_allocation.go. The status is a text, as in the source:
-- the records of the store bring any text into it.
pub mod Lifecycle
mod Examples
use payrune.Prelude.{Bool, not, ◌&&◌, Option, none, some, List, []}
use payrune.Prelude.Int.{ℤ, pos, leb_ℤ}
use payrune.Text.{Text, codes, ◌==ᵗ◌, is_empty, trim_space}
use payrune.Result.{Result, ok, err, ◌>>=◌, ◌>>◌, reject_if, require}
use payrune.Time.{Time, is_zero}
use payrune.Domain.Error.{
  Error, payment_address_id_invalid, address_policy_id_required, expected_amount_minor_invalid,
  address_policy_mismatch, address_required, derivation_failure_reason_required,
  allocation_not_issued, expires_at_required, chain_invalid, network_invalid,
}
use payrune.Domain.Tracking.{Tracking, new_tracking}
use payrune.Domain.Values.{
  normalize_policy_id, is_zero_policy_id, normalize_scheme, parse_chain_id, parse_network_id,
}

abbrev pub reserved : Text
reserved = codes "reserved"

abbrev pub issued : Text
issued = codes "issued"

abbrev pub derivation_failed : Text
derivation_failed = codes "derivation_failed"

-- PaymentAddressAllocation
pub record Allocation : Type 0 where
  pub payment_address_id : ℤ
  pub address_policy_id : Text
  pub slot_index : ℤ
  pub expected_amount : ℤ
  pub customer_reference : Text
  pub status : Text
  pub chain : Text
  pub network : Text
  pub scheme : Text
  pub asset_reference : Text
  pub address : Text
  pub derivation_failure_reason : Text

-- NewPaymentAddressAllocation
unfoldable pub new_allocation : ℤ → Text → ℤ → ℤ → Text → Result Error Allocation
new_allocation payment_address_id policy_id slot_index amount customer_reference = do
  let normalized_policy_id = normalize_policy_id policy_id
  reject_if (leb_ℤ payment_address_id (pos 0)) payment_address_id_invalid
  reject_if (is_zero_policy_id normalized_policy_id) address_policy_id_required
  reject_if (leb_ℤ amount (pos 0)) expected_amount_minor_invalid
  ok (record {
    payment_address_id = payment_address_id;
    address_policy_id = normalized_policy_id;
    slot_index = slot_index;
    expected_amount = amount;
    customer_reference = trim_space customer_reference;
    status = reserved;
    chain = [];
    network = [];
    scheme = [];
    asset_reference = [];
    address = [];
    derivation_failure_reason = [];
  })

-- PaymentAddressAllocation.MarkIssued
unfoldable pub mark_issued :
    Allocation → Text → Text → Text → Text → Text → Text → Result Error Allocation
mark_issued a policy_id chain network scheme asset_reference address = do
  let normalized_policy_id = normalize_policy_id policy_id
  reject_if (is_zero_policy_id normalized_policy_id) address_policy_id_required
  reject_if (not (normalized_policy_id ==ᵗ a.address_policy_id)) address_policy_mismatch
  let normalized_address = trim_space address
  reject_if (is_empty normalized_address) address_required
  ok (record a {
    status = issued;
    chain = chain;
    network = network;
    scheme = normalize_scheme scheme;
    asset_reference = trim_space asset_reference;
    address = normalized_address;
    derivation_failure_reason = [];
  })

-- PaymentAddressAllocation.MarkDerivationFailed; the test is the reason's IsZero.
unfoldable pub mark_derivation_failed : Allocation → Text → Result Error Allocation
mark_derivation_failed a reason = do
  reject_if (is_empty (trim_space reason)) derivation_failure_reason_required
  ok (record a {
    status = derivation_failed;
    derivation_failure_reason = reason;
    chain = [];
    network = [];
    scheme = [];
    asset_reference = [];
    address = [];
  })

-- PaymentAddressAllocation.IssueReceiptTracking
unfoldable pub issue_receipt_tracking : Allocation → Time → ℤ → Time → Result Error Tracking
issue_receipt_tracking a issued_at required_confirmations expires_at = do
  reject_if (not (a.status ==ᵗ issued)) allocation_not_issued
  reject_if (is_zero expires_at) expires_at_required
  chain_id ← require (parse_chain_id a.chain) chain_invalid
  network_id ← require (parse_network_id a.network) network_invalid
  tracking ←
      new_tracking a.payment_address_id a.address_policy_id chain_id network_id a.address
        a.asset_reference issued_at a.expected_amount required_confirmations
  ok (record tracking { expires_at = some expires_at })
