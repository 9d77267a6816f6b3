-- ===== src/Ports/Stores.antt =====
-- The ports to the database, whose state is `D`, of internal/application/ports/outbound: each store is
-- a record of its operations.
use payrune.Prelude.{Option, List}
use payrune.Prelude.Int.{ℤ}
use payrune.Text.{Text}
use payrune.Result.{Result}
use payrune.Time.{Time}
use payrune.Ports.Delivery.{DeliveryResult}
use payrune.Ports.Error.{Error}
use payrune.Ports.Records.{PolicyRecord, AllocationRecord, TrackingRecord, StatusChangedRecord}

-- ClaimPaymentReceiptTrackingsInput
pub record ClaimTrackings : Type 0 where
  pub now : Time
  pub limit : ℤ
  pub claim_until : Time
  pub chain : Text
  pub network : Text
  pub statuses : List Text

-- PaymentReceiptTrackingStore
pub record TrackingStore (D : Type 0) : Type 0 where
  pub create : TrackingRecord → Time → D → Result Error (Unit {0}) × D
  pub claim_due : ClaimTrackings → D → Result Error (List TrackingRecord) × D
  pub save : TrackingRecord → Time → Time → D → Result Error (Unit {0}) × D

-- PaymentReceiptStatusNotificationOutboxMessage
pub record OutboxMessage : Type 0 where
  pub notification_id : ℤ
  pub payment_address_id : ℤ
  pub address_policy_id : Text
  pub customer_reference : Text
  pub previous_status : Text
  pub current_status : Text
  pub observed_total : ℤ
  pub confirmed_total : ℤ
  pub unconfirmed_total : ℤ
  pub status_changed_at : Time
  pub delivery_status : Text
  pub delivery_attempts : ℤ
  pub next_attempt_at : Time
  pub last_failure_reason : Text
  pub delivered_at : Option Time

-- ClaimPaymentReceiptStatusNotificationsInput
pub record ClaimNotifications : Type 0 where
  pub now : Time
  pub limit : ℤ
  pub claim_until : Time

-- PaymentReceiptStatusNotificationOutbox
pub record Outbox (D : Type 0) : Type 0 where
  pub enqueue_status_changed : StatusChangedRecord → D → Result Error (Unit {0}) × D
  pub claim_pending : ClaimNotifications → D → Result Error (List OutboxMessage) × D
  pub save_delivery_result : DeliveryResult → D → Result Error (Unit {0}) × D

-- ReservePaymentAddressAllocationInput
pub record ReserveAllocation : Type 0 where
  pub issuance_policy : PolicyRecord
  pub expected_amount : ℤ
  pub customer_reference : Text

-- CompletePaymentAddressAllocationInput
pub record CompleteAllocation : Type 0 where
  pub allocation : AllocationRecord
  pub sweep_material : Text
  pub issued_at : Time

-- PaymentAddressAllocationStore; a record with a found flag is an `Option`.
pub record AllocationStore (D : Type 0) : Type 0 where
  pub find_issued_by_id : ℤ → D → Result Error (Option AllocationRecord) × D
  pub reopen_failed_reservation : ReserveAllocation → D → Result Error (Option AllocationRecord) × D
  pub reserve_fresh : ReserveAllocation → D → Result Error AllocationRecord × D
  pub complete : CompleteAllocation → D → Result Error (Unit {0}) × D
  pub mark_derivation_failed : AllocationRecord → D → Result Error (Unit {0}) × D

-- PaymentAddressIdempotencyRecord
pub record IdempotencyRecord : Type 0 where
  pub chain : Text
  pub idempotency_key : Text
  pub address_policy_id : Text
  pub expected_amount : ℤ
  pub customer_reference : Text
  pub payment_address_id : ℤ

-- ClaimPaymentAddressIdempotencyInput
pub record ClaimIdempotency : Type 0 where
  pub chain : Text
  pub idempotency_key : Text
  pub address_policy_id : Text
  pub expected_amount : ℤ
  pub customer_reference : Text

-- PaymentAddressIdempotencyStore; chain and key come as two arguments.
pub record IdempotencyStore (D : Type 0) : Type 0 where
  pub find_by_key : Text → Text → D → Result Error (Option IdempotencyRecord) × D
  pub claim : ClaimIdempotency → D → Result Error IdempotencyRecord × D
  pub complete : Text → Text → ℤ → D → Result Error (Unit {0}) × D
  pub release : Text → Text → D → Result Error (Unit {0}) × D

-- PaymentAddressStatusRecord
pub record StatusRecord : Type 0 where
  pub payment_address_id : ℤ
  pub address_policy_id : Text
  pub expected_amount : ℤ
  pub customer_reference : Text
  pub chain : Text
  pub network : Text
  pub scheme : Text
  pub address : Text
  pub payment_status : Text
  pub observed_total : ℤ
  pub confirmed_total : ℤ
  pub unconfirmed_total : ℤ
  pub required_confirmations : ℤ
  pub last_observed_block_height : ℤ
  pub issued_at : Time
  pub first_observed_at : Option Time
  pub paid_at : Option Time
  pub confirmed_at : Option Time
  pub expires_at : Option Time
  pub last_failure_reason : Text

-- PaymentAddressStatusFinder; the chain and the id come as two arguments.
pub record StatusFinder (D : Type 0) : Type 0 where
  pub find_by_id : Text → ℤ → D → Result Error (Option StatusRecord) × D
