-- ===== src/Postgres/Outbox/Examples.antt =====
-- The outbox on small tables, and the theorems about it at these tables.
use payrune.Prelude.{arith, ◌≡◌, ◌≢◌, refl, none, some, [], ◌∷◌, ◌++◌, All, first}
use payrune.Prelude.Int.{pos, ◌+ℤ◌}
use payrune.Text.{codes, trim_space, trim_left, to_lower, lower, is_space, byte_len}
use payrune.Text.Id.{is_portable_id, is_id_char}
use payrune.Result.{ok}
use payrune.Domain.Status.{Status}
use payrune.Domain.StatusChanged.{StatusChanged}
use payrune.Ports.Delivery.{DeliveryResult}
use payrune.Ports.Records.{record_from_status_changed}
use payrune.Ports.Stores.{ClaimNotifications, OutboxMessage}
use payrune.Ports.Validation.{
  pending, sent, normalize_id, normalize_receipt_status, normalize_delivery_status,
}
use payrune.Postgres.Outbox.{enqueue_status_changed, insert_row, scan, claim_pending, claim_rows}
use payrune.Postgres.Outbox.Claims.{claim_pending-exclusive}
use payrune.Postgres.Outbox.Enqueued.{enqueue-read, message_of}
use payrune.Postgres.Reasons.{stored_delivery_reason}
use payrune.Postgres.Samples.{no_tables, tx}
use payrune.Postgres.Tables.{Tables, AllocationRow, NotificationRow}

abbrev allocation : AllocationRow
allocation = record {
  id = pos 1;
  address_policy_id = codes "btc";
  address_space_ref = codes "xpub";
  slot_index = pos 0;
  expected_amount = pos 1000;
  customer_reference = some (codes "alice");
  chain = some (codes "bitcoin");
  network = some (codes "mainnet");
  scheme = some (codes "taproot");
  asset_reference = none;
  address = some (codes "bc1q");
  sweep_material = some (codes "{}");
  failure_reason = none;
  allocation_status = codes "issued";
  reserved_at = pos 10;
  issued_at = some (pos 10);
}

abbrev event : StatusChanged
event = record {
  payment_address_id = pos 1;
  previous_status = Status.watching;
  current_status = Status.paid_confirmed;
  observed_total = pos 1000;
  confirmed_total = pos 1000;
  unconfirmed_total = pos 0;
  status_changed_at = pos 40;
}

abbrev start : Tables
start = record no_tables { allocations = allocation ∷ [] }

abbrev notification : NotificationRow
notification = record {
  id = pos 1;
  payment_address_id = pos 1;
  customer_reference = some (codes "alice");
  previous_status = codes "watching";
  current_status = codes "paid_confirmed";
  observed_total = pos 1000;
  confirmed_total = pos 1000;
  unconfirmed_total = pos 0;
  status_changed_at = pos 40;
  delivery_status = pending;
  delivery_attempts = pos 0;
  next_attempt_at = pos 50;
  lease_until = none;
  last_error = none;
  delivered_at = none;
}

abbrev enqueued : Tables
enqueued = record start { notifications = notification ∷ []; next_notification_id = pos 2 }

outbox_filled :
    enqueue_status_changed tx (record_from_status_changed event) start ≡ (ok tt, enqueued)
unfolding enqueue_status_changed insert_row record_from_status_changed ◌+ℤ◌
outbox_filled = refl

enqueue-read_example :
    (n : NotificationRow) × (enqueued.notifications ≡ [] ++ (n ∷ []))
    × (scan (n, allocation) ≡ ok (message_of (λ at. at) (pos 1) (pos 50) event allocation))
    × (n.lease_until ≡ none)
    × (n.next_attempt_at ≡ pos 50)
unfolding first is_portable_id byte_len is_id_char
enqueue-read_example = enqueue-read tx event start refl refl (λ e. cc) (λ e. cc) outbox_filled

abbrev delivered : DeliveryResult
delivered = record {
  notification_id = pos 1;
  status = sent;
  attempts = pos 0;
  last_failure_reason = [];
  next_attempt_at = none;
  delivered_at = some (pos 60);
}

-- A second notification, which is still pending.
abbrev later : NotificationRow
later = record notification { id = pos 2 }

abbrev two : Tables
two = record enqueued { notifications = notification ∷ later ∷ []; next_notification_id = pos 3 }

abbrev one_sent : Tables
one_sent = record two {
  notifications =
      record notification { delivery_status = sent; delivered_at = some (pos 60) } ∷ later ∷ [];
}

abbrev claim : ClaimNotifications
claim = record { now = pos 70; limit = pos 10; claim_until = pos 90 }

abbrev later_claimed : Tables
later_claimed = record two {
  notifications =
      record notification { delivery_status = sent; delivered_at = some (pos 60) }
      ∷ record later { lease_until = some (pos 90) }
      ∷ [];
}

later_claim :
    claim_pending tx claim one_sent
    ≡ (ok (message_of (λ at. at) (pos 2) (pos 50) event allocation ∷ []), later_claimed)
unfolding claim_pending claim_rows scan normalize_id normalize_receipt_status
    normalize_delivery_status trim_space trim_left is_space to_lower lower is_portable_id byte_len
    is_id_char stored_delivery_reason
later_claim = refl

-- Another worker's claim while the lease of the first one runs.
abbrev second_claim : ClaimNotifications
second_claim = record { now = pos 80; limit = pos 10; claim_until = pos 100 }

nothing_left : claim_pending tx second_claim later_claimed ≡ (ok [], later_claimed)
unfolding claim_pending claim_rows
nothing_left = refl

claim_pending-exclusive_example :
    All {A = OutboxMessage}
      (λ a. All {A = OutboxMessage} (λ b. a.notification_id ≢ b.notification_id) [])
      (message_of (λ at. at) (pos 2) (pos 50) event allocation ∷ [])
claim_pending-exclusive_example =
    claim_pending-exclusive tx tx claim second_claim one_sent (refl, (refl, tt)) (omega arith)
      later_claim nothing_left
