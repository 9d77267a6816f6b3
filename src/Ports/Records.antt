-- ===== src/Ports/Records.antt =====
-- The records that cross the outbound ports, and their conversions from and to the domain, of
-- application/usecases/port_record_conversions.go.
pub mod RoundTrip
use payrune.Prelude.{Bool, Option, none, some, [], ◌≡◌, if◌then◌else◌}
use payrune.Prelude.Int.{ℤ}
use payrune.Text.{Text, is_empty}
use payrune.Result.{Result, ok, err, ◌>>=◌, require}
use payrune.Time.{Time}
use payrune.Domain.Allocation.{Allocation}
use payrune.Domain.Error.{Error, port_record_invalid}
use payrune.Domain.Policy.{AddressIssuancePolicy, normalize}
use payrune.Domain.Status.{
  Status, FailureReason, parse_status, status_text, parse_failure_reason, reason_text,
  parse_derivation_failure_reason,
}
use payrune.Domain.StatusChanged.{StatusChanged}
use payrune.Domain.Tracking.{Tracking}
use payrune.Domain.Values.{
  new_address_policy_id, parse_chain_id, parse_network_id, parse_supported_chain,
  parse_address_scheme, AddressIssuanceConfig,
}

-- AddressIssuancePolicyRecord
pub record PolicyRecord : Type 0 where
  pub address_policy_id : Text
  pub chain : Text
  pub network : Text
  pub scheme : Text
  pub asset_reference : Text
  pub decimals : ℤ
  pub enabled : Bool
  pub address_space_ref : Text
  pub issuance_ref_prefix : Text

-- PaymentAddressAllocationRecord
pub record AllocationRecord : Type 0 where
  pub payment_address_id : ℤ
  pub address_policy_id : Text
  pub slot_index : ℤ
  pub expected_amount : ℤ
  pub customer_reference : Text
  pub status : Text
  pub chain : Text
  pub network : Text
  pub scheme : Text
  pub asset_reference : Text
  pub address : Text
  pub derivation_failure_reason : Text

-- PaymentReceiptTrackingRecord
pub record TrackingRecord : Type 0 where
  pub tracking_id : ℤ
  pub payment_address_id : ℤ
  pub address_policy_id : Text
  pub chain : Text
  pub network : Text
  pub address : Text
  pub asset_reference : Text
  pub issued_at : Time
  pub expected_amount : ℤ
  pub required_confirmations : ℤ
  pub status : Text
  pub observed_total : ℤ
  pub confirmed_total : ℤ
  pub unconfirmed_total : ℤ
  pub last_observed_block_height : ℤ
  pub first_observed_at : Option Time
  pub paid_at : Option Time
  pub confirmed_at : Option Time
  pub expires_at : Option Time
  pub last_failure_reason : Text

-- PaymentReceiptStatusChangedRecord
pub record StatusChangedRecord : Type 0 where
  pub payment_address_id : ℤ
  pub previous_status : Text
  pub current_status : Text
  pub observed_total : ℤ
  pub confirmed_total : ℤ
  pub unconfirmed_total : ℤ
  pub status_changed_at : Time

-- addressIssuancePolicyFromRecord
unfoldable pub policy_from_record : PolicyRecord → Result Error AddressIssuancePolicy
policy_from_record r = do
  address_policy_id ← new_address_policy_id r.address_policy_id
  chain ← require (parse_supported_chain r.chain) port_record_invalid
  network ← require (parse_network_id r.network) port_record_invalid
  scheme ← require (parse_address_scheme r.scheme) port_record_invalid
  ok (
      normalize (record {
        address_policy_id = address_policy_id;
        chain = chain;
        network = network;
        scheme = scheme;
        asset_reference = r.asset_reference;
        decimals = r.decimals;
        enabled = r.enabled;
        issuance_config = record {
          address_space_ref = r.address_space_ref;
          issuance_ref_prefix = r.issuance_ref_prefix;
        };
      }))

-- addressIssuancePolicyRecordFromDomain
unfoldable pub record_from_policy : AddressIssuancePolicy → PolicyRecord
record_from_policy policy =
    let normalized = normalize policy in
    record {
      address_policy_id = normalized.address_policy_id;
      chain = normalized.chain;
      network = normalized.network;
      scheme = normalized.scheme;
      asset_reference = normalized.asset_reference;
      decimals = normalized.decimals;
      enabled = normalized.enabled;
      address_space_ref = normalized.issuance_config.address_space_ref;
      issuance_ref_prefix = normalized.issuance_config.issuance_ref_prefix;
    }

-- `if raw != "" { value, ok := parse(raw); if !ok { return err } }`
unfoldable pub parse_if_set : {A : Type 0} → Text → (Text → Option A) → A → Result Error A
parse_if_set raw parse zero_value =
    if is_empty raw then ok zero_value else require (parse raw) port_record_invalid

-- paymentAddressAllocationFromRecord
unfoldable pub allocation_from_record : AllocationRecord → Result Error Allocation
allocation_from_record r = do
  address_policy_id ← new_address_policy_id r.address_policy_id
  chain ← parse_if_set r.chain parse_supported_chain []
  network ← parse_if_set r.network parse_network_id []
  scheme ← parse_if_set r.scheme parse_address_scheme []
  reason ← parse_if_set r.derivation_failure_reason parse_derivation_failure_reason []
  ok (record {
    payment_address_id = r.payment_address_id;
    address_policy_id = address_policy_id;
    slot_index = r.slot_index;
    expected_amount = r.expected_amount;
    customer_reference = r.customer_reference;
    status = r.status;
    chain = chain;
    network = network;
    scheme = scheme;
    asset_reference = r.asset_reference;
    address = r.address;
    derivation_failure_reason = reason;
  })

-- paymentAddressAllocationRecordFromDomain
unfoldable pub record_from_allocation : Allocation → AllocationRecord
record_from_allocation a = record {
  payment_address_id = a.payment_address_id;
  address_policy_id = a.address_policy_id;
  slot_index = a.slot_index;
  expected_amount = a.expected_amount;
  customer_reference = a.customer_reference;
  status = a.status;
  chain = a.chain;
  network = a.network;
  scheme = a.scheme;
  asset_reference = a.asset_reference;
  address = a.address;
  derivation_failure_reason = a.derivation_failure_reason;
}

-- paymentReceiptTrackingFromRecord
unfoldable pub tracking_from_record : TrackingRecord → Result Error Tracking
tracking_from_record r = do
  address_policy_id ← new_address_policy_id r.address_policy_id
  chain ← require (parse_chain_id r.chain) port_record_invalid
  network ← require (parse_network_id r.network) port_record_invalid
  status ← require (parse_status r.status) port_record_invalid
  reason ← parse_if_set r.last_failure_reason parse_failure_reason FailureReason.unset
  ok (record {
    tracking_id = r.tracking_id;
    payment_address_id = r.payment_address_id;
    address_policy_id = address_policy_id;
    chain = chain;
    network = network;
    address = r.address;
    asset_reference = r.asset_reference;
    issued_at = r.issued_at;
    expected_amount = r.expected_amount;
    required_confirmations = r.required_confirmations;
    status = status;
    observed_total = r.observed_total;
    confirmed_total = r.confirmed_total;
    unconfirmed_total = r.unconfirmed_total;
    last_observed_block_height = r.last_observed_block_height;
    first_observed_at = r.first_observed_at;
    paid_at = r.paid_at;
    confirmed_at = r.confirmed_at;
    expires_at = r.expires_at;
    last_failure_reason = reason;
  })

-- paymentReceiptTrackingRecordFromDomain
unfoldable pub record_from_tracking : Tracking → TrackingRecord
record_from_tracking t = record {
  tracking_id = t.tracking_id;
  payment_address_id = t.payment_address_id;
  address_policy_id = t.address_policy_id;
  chain = t.chain;
  network = t.network;
  address = t.address;
  asset_reference = t.asset_reference;
  issued_at = t.issued_at;
  expected_amount = t.expected_amount;
  required_confirmations = t.required_confirmations;
  status = status_text t.status;
  observed_total = t.observed_total;
  confirmed_total = t.confirmed_total;
  unconfirmed_total = t.unconfirmed_total;
  last_observed_block_height = t.last_observed_block_height;
  first_observed_at = t.first_observed_at;
  paid_at = t.paid_at;
  confirmed_at = t.confirmed_at;
  expires_at = t.expires_at;
  last_failure_reason = reason_text t.last_failure_reason;
}

-- paymentReceiptStatusChangedRecordFromDomain
unfoldable pub record_from_status_changed : StatusChanged → StatusChangedRecord
record_from_status_changed e = record {
  payment_address_id = e.payment_address_id;
  previous_status = status_text e.previous_status;
  current_status = status_text e.current_status;
  observed_total = e.observed_total;
  confirmed_total = e.confirmed_total;
  unconfirmed_total = e.unconfirmed_total;
  status_changed_at = e.status_changed_at;
}
