-- ===== src/Postgres/Tables.antt =====
-- The tables of the database as lists of rows, with the columns that the migrations of
-- deployments/postgresql/migrations leave. A nullable column is an `Option`. The columns created_at
-- and updated_at, which no statement reads, are left out. A BIGSERIAL has its next value here.
use payrune.Prelude.{Option, none, some, List, [], if◌then◌else◌}
use payrune.Prelude.Int.{ℤ}
use payrune.Text.{Text, is_empty, trim_space}
use payrune.Time.{Time}

-- address_policy_allocations
pub record AllocationRow : Type 0 where
  pub id : ℤ
  pub address_policy_id : Text
  pub address_space_ref : Text
  pub slot_index : ℤ
  pub expected_amount : ℤ
  pub customer_reference : Option Text
  pub chain : Option Text
  pub network : Option Text
  pub scheme : Option Text
  pub asset_reference : Option Text
  pub address : Option Text
  pub sweep_material : Option Text
  pub failure_reason : Option Text
  pub allocation_status : Text
  pub reserved_at : Time
  pub issued_at : Option Time

-- address_policy_cursors
pub record CursorRow : Type 0 where
  pub address_policy_id : Text
  pub address_space_ref : Text
  pub next_index : ℤ

-- payment_address_idempotency_keys
pub record KeyRow : Type 0 where
  pub chain : Text
  pub idempotency_key : Text
  pub address_policy_id : Text
  pub expected_amount : ℤ
  pub customer_reference : Option Text
  pub payment_address_id : Option ℤ

-- payment_receipt_trackings
pub record TrackingRow : Type 0 where
  pub id : ℤ
  pub payment_address_id : ℤ
  pub address_policy_id : Text
  pub chain : Text
  pub network : Text
  pub address : Text
  pub asset_reference : Option Text
  pub issued_at : Option Time
  pub expires_at : Option Time
  pub expected_amount : ℤ
  pub required_confirmations : ℤ
  pub receipt_status : Text
  pub observed_total : ℤ
  pub confirmed_total : ℤ
  pub unconfirmed_total : ℤ
  pub last_observed_block_height : ℤ
  pub first_observed_at : Option Time
  pub paid_at : Option Time
  pub confirmed_at : Option Time
  pub last_error : Option Text
  pub last_polled_at : Option Time
  pub next_poll_at : Time
  pub lease_until : Option Time

-- payment_receipt_status_notifications
pub record NotificationRow : Type 0 where
  pub id : ℤ
  pub payment_address_id : ℤ
  pub customer_reference : Option Text
  pub previous_status : Text
  pub current_status : Text
  pub observed_total : ℤ
  pub confirmed_total : ℤ
  pub unconfirmed_total : ℤ
  pub status_changed_at : Time
  pub delivery_status : Text
  pub delivery_attempts : ℤ
  pub next_attempt_at : Time
  pub lease_until : Option Time
  pub last_error : Option Text
  pub delivered_at : Option Time

pub record Tables : Type 0 where
  pub allocations : List AllocationRow
  pub cursors : List CursorRow
  pub keys : List KeyRow
  pub trackings : List TrackingRow
  pub notifications : List NotificationRow
  pub next_allocation_id : ℤ
  pub next_tracking_id : ℤ
  pub next_notification_id : ℤ

-- COALESCE(x, '')
abbrev pub coalesce : Option Text → Text
coalesce none = []
coalesce (some s) = s

-- nullIfEmpty
unfoldable pub null_if_empty : Text → Option Text
null_if_empty value = if is_empty (trim_space value) then none else some (trim_space value)
