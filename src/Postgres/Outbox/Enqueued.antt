-- ===== src/Postgres/Outbox/Enqueued.antt =====
-- What EnqueueStatusChanged of payment_receipt_status_notification_outbox_store.go enqueues is what
-- ClaimPending reads.
use payrune.Prelude.{◌≡◌, ◌≢◌, refl, true, none, some, [], ◌∷◌, ◌++◌, first, arith}
use payrune.Prelude.Int.{ℤ, pos, eqb_ℤ}
use payrune.Text.{trim_space, trim_left, is_space, to_lower, lower}
use payrune.Text.Id.{is_portable_id}
use payrune.Result.{ok}
use payrune.Domain.Status.{Status, status_text}
use payrune.Domain.StatusChanged.{StatusChanged}
use payrune.Ports.Error.{notification_outbox_failed, notification_not_found, driver_failed}
use payrune.Ports.Records.{record_from_status_changed, StatusChangedRecord}
use payrune.Ports.Stores.{OutboxMessage}
use payrune.Ports.Validation.{normalize_delivery_status, normalize_delivery_failure_reason, pending}
use payrune.Postgres.Driver.{Tx, insert_notification}
use payrune.Postgres.Driver.Laws.{exec-eq-ok}
use payrune.Postgres.Outbox.{enqueue_status_changed, insert_row, row_of, scan}
use payrune.Postgres.Reasons.{stored_delivery_reason}
use payrune.Postgres.Tables.{AllocationRow, NotificationRow, Tables, coalesce}
use payrune.Postgres.Trackings.Stored.{normalize_id_self, stored_status_self}

-- The message of an event that was not delivered yet.
abbrev pub message_of : (ℤ → ℤ) → ℤ → ℤ → StatusChanged → AllocationRow → OutboxMessage
message_of keep id now e a = record {
  notification_id = id;
  payment_address_id = a.id;
  address_policy_id = a.address_policy_id;
  customer_reference = coalesce a.customer_reference;
  previous_status = status_text e.previous_status;
  current_status = status_text e.current_status;
  observed_total = e.observed_total;
  confirmed_total = e.confirmed_total;
  unconfirmed_total = e.unconfirmed_total;
  status_changed_at = keep e.status_changed_at;
  delivery_status = pending;
  delivery_attempts = pos 0;
  next_attempt_at = now;
  last_failure_reason = [];
  delivered_at = none;
}

pending_self : normalize_delivery_status pending ≡ some pending
unfolding normalize_delivery_status to_lower lower trim_space trim_left is_space
pending_self = refl

no_reason : stored_delivery_reason [] ≡ []
unfolding stored_delivery_reason normalize_delivery_failure_reason to_lower trim_space trim_left
no_reason = refl

scan-row_of :
    (keep : ℤ → ℤ) (id now : ℤ) (e : StatusChanged) (a : AllocationRow)
    → is_portable_id a.address_policy_id ≡ true
    → e.previous_status ≢ Status.unset
    → e.current_status ≢ Status.unset
    → scan (row_of keep id now (record_from_status_changed e) a, a)
      ≡ ok (message_of keep id now e a)
unfolding scan row_of record_from_status_changed
scan-row_of keep id now e a policy previous current = ground (
  arith,
  normalize_id_self a.address_policy_id policy,
  stored_status_self e.previous_status previous,
  stored_status_self e.current_status current,
  pending_self,
  no_reason,
)

row_facts :
    (keep : ℤ → ℤ) (id now : ℤ) (e : StatusChangedRecord) (a : AllocationRow)
    → ((row_of keep id now e a).lease_until ≡ none)
      × ((row_of keep id now e a).next_attempt_at ≡ now)
unfolding row_of
row_facts keep id now e a = (refl, refl)

-- Where EnqueueStatusChanged returns, one notification of the allocation was added, due at once and
-- free to be claimed, and it is read as the event, with what the server keeps of its time and with the
-- reference of its customer, pending and never attempted.
pub enqueue-read :
    (x : Tx) (e : StatusChanged) (t : Tables) {t' : Tables} {a : AllocationRow}
    → first (λ b. eqb_ℤ b.id e.payment_address_id) t.allocations ≡ some a
    → is_portable_id a.address_policy_id ≡ true
    → e.previous_status ≢ Status.unset
    → e.current_status ≢ Status.unset
    → enqueue_status_changed x (record_from_status_changed e) t ≡ (ok tt, t')
    → (n : NotificationRow) × (t'.notifications ≡ t.notifications ++ (n ∷ []))
      × (scan (n, a) ≡ ok (message_of x.stored t.next_notification_id x.now e a))
      × (n.lease_until ≡ none)
      × (n.next_attempt_at ≡ x.now)
unfolding enqueue_status_changed insert_row record_from_status_changed
enqueue-read x e t {t'} {a} here policy previous current h =
    let made =
      exec-eq-ok x insert_notification notification_outbox_failed driver_failed
        notification_not_found (insert_row x (record_from_status_changed e)) t h in
    (
      row_of x.stored t.next_notification_id x.now (record_from_status_changed e) a,
      ground arith,
      scan-row_of x.stored t.next_notification_id x.now e a policy previous current,
      (row_facts x.stored t.next_notification_id x.now (record_from_status_changed e) a).0,
      (row_facts x.stored t.next_notification_id x.now (record_from_status_changed e) a).1,
    )
