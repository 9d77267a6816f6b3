-- ===== src/UseCases/Status.antt =====
-- internal/application/usecases/get_payment_address_status_use_case.go.
pub mod Answers
mod Examples
use payrune.Prelude.{not, Option, none, some, if◌then◌else◌}
use payrune.Prelude.Int.{ℤ}
use payrune.Text.{Text, ◌==ᵗ◌, trim_space}
use payrune.Time.{Time}
use payrune.Domain.Values.{parse_supported_chain}
use payrune.Ports.Error.{
  Error, chain_not_supported, dependency_failure, internal_failure, payment_address_not_found,
  payment_address_policy_not_configured, policy_reader_not_configured, status_finder_not_configured,
  status_incomplete, status_persisted_chain_invalid, status_persisted_network_invalid,
  status_persisted_receipt_status_invalid,
}
use payrune.Ports.Outside.{PolicyReader}
use payrune.Ports.Records.{PolicyRecord}
use payrune.Ports.Stores.{StatusRecord, StatusFinder}
use payrune.Ports.Validation.{failure_reason_message}
use payrune.Ports.World.{
  World, Action, pure, raise, on_error, configured, on_db, on_ext, guard, ◌>>=◌,
}
use payrune.UseCases.Allocate.{format_int}

-- getPaymentAddressStatusUseCase; a nil port is `none`.
pub record UseCase (D X : Type 0) : Type 0 where
  pub finder : Option (StatusFinder D)
  pub policy_reader : Option (PolicyReader X)

-- GetPaymentAddressStatusInput
pub record Input : Type 0 where
  pub chain : Text
  pub payment_address_id : ℤ

-- GetPaymentAddressStatusResponse
pub record Response : Type 0 where
  pub payment_address_id : Text
  pub address_policy_id : Text
  pub expected_amount : ℤ
  pub chain : Text
  pub network : Text
  pub scheme : Text
  pub asset_reference : Text
  pub decimals : ℤ
  pub address : Text
  pub customer_reference : Text
  pub payment_status : Text
  pub observed_total : ℤ
  pub confirmed_total : ℤ
  pub unconfirmed_total : ℤ
  pub required_confirmations : ℤ
  pub last_observed_block_height : ℤ
  pub issued_at : Time
  pub first_observed_at : Option Time
  pub paid_at : Option Time
  pub confirmed_at : Option Time
  pub expires_at : Option Time
  pub last_error : Text

-- the `switch` on the error of FindByID
unfoldable pub find_error : Error → Error
find_error status_incomplete = internal_failure
find_error status_persisted_chain_invalid = internal_failure
find_error status_persisted_network_invalid = internal_failure
find_error status_persisted_receipt_status_invalid = internal_failure
find_error _ = dependency_failure

unfoldable pub response_of : StatusRecord → PolicyRecord → Response
response_of r policy = record {
  payment_address_id = format_int r.payment_address_id;
  address_policy_id = r.address_policy_id;
  expected_amount = r.expected_amount;
  chain = r.chain;
  network = r.network;
  scheme = r.scheme;
  asset_reference = trim_space policy.asset_reference;
  decimals = policy.decimals;
  address = r.address;
  customer_reference = r.customer_reference;
  payment_status = r.payment_status;
  observed_total = r.observed_total;
  confirmed_total = r.confirmed_total;
  unconfirmed_total = r.unconfirmed_total;
  required_confirmations = r.required_confirmations;
  last_observed_block_height = r.last_observed_block_height;
  issued_at = r.issued_at;
  first_observed_at = r.first_observed_at;
  paid_at = r.paid_at;
  confirmed_at = r.confirmed_at;
  expires_at = r.expires_at;
  last_error = failure_reason_message r.last_failure_reason;
}

module _ {D X : Type 0} where
  -- Execute from the record on
  unfoldable pub answer : PolicyReader X → Text → StatusRecord → Action D X Response
  answer reader chain r = do
    found ←
        on_error (λ _. dependency_failure) (on_ext (reader.find_issuance_by_id r.address_policy_id))
    policy ← configured found payment_address_policy_not_configured
    guard (not (policy.chain ==ᵗ chain)) payment_address_policy_not_configured
        (pure (response_of r policy))

  unfoldable pub execute : UseCase D X → Input → Action D X Response
  execute uc input = do
    finder ← configured uc.finder status_finder_not_configured
    reader ← configured uc.policy_reader policy_reader_not_configured
    chain ← configured (parse_supported_chain input.chain) chain_not_supported
    found ← on_error find_error (on_db (finder.find_by_id chain input.payment_address_id))
    r ← configured found payment_address_not_found
    answer reader chain r
