-- ===== src/Ports/Outside.antt =====
-- The ports to the rest, whose state is `X`, of internal/application/ports/outbound: the chains, the
-- policies, the webhook and the derivation of addresses.
use payrune.Prelude.{Bool, Option, List}
use payrune.Prelude.Int.{ℤ}
use payrune.Text.{Text}
use payrune.Result.{Result}
use payrune.Time.{Time}
use payrune.Ports.Error.{Error}
use payrune.Ports.Records.{PolicyRecord, AllocationRecord}

-- ObserveChainPaymentAddressInput
pub record ObserveInput : Type 0 where
  pub asset_reference : Text
  pub chain : Text
  pub network : Text
  pub address : Text
  pub issued_at : Time
  pub observed_total : ℤ
  pub confirmed_total : ℤ
  pub unconfirmed_total : ℤ
  pub required_confirmations : ℤ
  pub latest_block_height : ℤ
  pub since_block_height : ℤ

-- ObservePaymentAddressOutput
pub record ObserveOutput : Type 0 where
  pub observed_total : ℤ
  pub confirmed_total : ℤ
  pub unconfirmed_total : ℤ
  pub latest_block_height : ℤ

-- BlockchainReceiptObserver
pub record Observer (X : Type 0) : Type 0 where
  pub fetch_latest_block_height : Text → Text → X → Result Error ℤ × X
  pub observe_address : ObserveInput → X → Result Error ObserveOutput × X

-- AddressPolicyRecord
pub record ListedPolicy : Type 0 where
  pub address_policy_id : Text
  pub chain : Text
  pub network : Text
  pub scheme : Text
  pub asset_reference : Text
  pub decimals : ℤ
  pub enabled : Bool

-- AddressPolicyReader
pub record PolicyReader (X : Type 0) : Type 0 where
  pub list_by_chain : Text → X → Result Error (List ListedPolicy) × X
  pub find_issuance_by_id : Text → X → Result Error (Option PolicyRecord) × X

-- NotifyPaymentReceiptStatusChangedInput
pub record NotifyInput : Type 0 where
  pub notification_id : ℤ
  pub payment_address_id : ℤ
  pub customer_reference : Text
  pub asset_reference : Text
  pub previous_status : Text
  pub current_status : Text
  pub observed_total : ℤ
  pub confirmed_total : ℤ
  pub unconfirmed_total : ℤ
  pub status_changed_at : Time

-- PaymentReceiptStatusNotifier
pub record Notifier (X : Type 0) : Type 0 where
  pub notify_status_changed : NotifyInput → X → Result Error (Unit {0}) × X

-- DeriveIssuedPaymentAddressOutput, the part that the use case reads.
pub record Derived : Type 0 where
  pub address : Text
  pub sweep_material : Text

-- IssuedPaymentAddressDeriver
pub record Deriver (X : Type 0) : Type 0 where
  pub supports_chain : Text → Bool
  pub derive_issued_address : PolicyRecord → AllocationRecord → X → Result Error Derived × X
