-- ===== src/Postgres/Outbox.antt =====
-- payment_receipt_status_notification_outbox_store.go of
-- internal/adapters/outbound/persistence/postgres.
mod Examples
pub mod Claims
pub mod Final
pub mod Enqueued
use payrune.Prelude.{
  Bool, ◌&&◌, not, none, some, List, [], ◌∷◌, ◌++◌, any, update, first, filter, if◌then◌else◌,
  false, true,
}
use payrune.Prelude.Int.{ℤ, pos, eqb_ℤ, leb_ℤ, ◌+ℤ◌}
use payrune.Text.{Text, ◌==ᵗ◌}
use payrune.Result.{Result, ok, err}
use payrune.Time.{Time, is_zero}
use payrune.Ports.Delivery.{DeliveryResult}
use payrune.Ports.Error.{
  Error, notification_outbox_failed, notification_not_found, notification_claim_now_required,
  notification_claim_until_required, notification_claim_limit_invalid,
  notification_delivered_at_required, notification_next_attempt_required,
  notification_delivery_status_invalid, notification_persisted_policy_id_invalid,
  notification_persisted_previous_status_invalid, notification_persisted_current_status_invalid,
  notification_persisted_delivery_status_invalid, driver_failed,
}
use payrune.Ports.Records.{StatusChangedRecord}
use payrune.Ports.Stores.{OutboxMessage, ClaimNotifications}
use payrune.Ports.Validation.{
  normalize_id, normalize_receipt_status, normalize_delivery_status, pending, sent, failed,
}
use payrune.Postgres.Driver.{
  Tx, Query, Statement, pure, raise, run, read, guard, lift, ◌>>=◌, insert_notification,
  claim_notifications, save_sent, save_pending, save_failed,
}
use payrune.Postgres.Due.{has_id, is_free, limit_of, due_ids}
use payrune.Postgres.Reasons.{stored_delivery_reason}
use payrune.Postgres.Scan.{scan_all}
use payrune.Postgres.Tables.{AllocationRow, NotificationRow, coalesce}

-- The SELECT of the INSERT of EnqueueStatusChanged, with the defaults of the other columns.
unfoldable pub row_of :
    (Time → Time) → ℤ → Time → StatusChangedRecord → AllocationRow → NotificationRow
row_of keep id now event a = record {
  id = id;
  payment_address_id = a.id;
  customer_reference = a.customer_reference;
  previous_status = event.previous_status;
  current_status = event.current_status;
  observed_total = event.observed_total;
  confirmed_total = event.confirmed_total;
  unconfirmed_total = event.unconfirmed_total;
  status_changed_at = keep event.status_changed_at;
  delivery_status = pending;
  delivery_attempts = pos 0;
  next_attempt_at = now;
  lease_until = none;
  last_error = none;
  delivered_at = none;
}

-- The id is the primary key of the allocations, so there is one row at most.
unfoldable pub insert_row : Tx → StatusChangedRecord → Query Bool
unfolding row_of first
insert_row x event t = elim (first (λ a. eqb_ℤ a.id event.payment_address_id) t.allocations) [
  | none ↦ (ok false, t)
  | some a ↦ (
    ok true,
    record t {
      notifications =
          t.notifications ++ (row_of x.stored t.next_notification_id x.now event a ∷ []);
      next_notification_id = t.next_notification_id +ℤ pos 1;
    },
  )
]

-- PaymentReceiptStatusNotificationOutboxStore.EnqueueStatusChanged; the error of RowsAffected is
-- passed on as it is.
unfoldable pub enqueue_status_changed : Tx → StatusChangedRecord → Query Unit
unfolding insert_row
enqueue_status_changed x event = do
  inserted ← run x insert_notification notification_outbox_failed (insert_row x event)
  affected ← read x insert_notification driver_failed inserted
  guard (not affected) notification_not_found (pure tt)

-- scanPaymentReceiptStatusNotificationOutboxMessage, of a notification with its allocation
unfoldable pub scan : NotificationRow × AllocationRow → Result Error OutboxMessage
scan (n, a) =
    let (policy_id, policy_id_ok) = normalize_id a.address_policy_id in
    if not policy_id_ok
    then err notification_persisted_policy_id_invalid
    else elim (normalize_receipt_status n.previous_status) [
      | none ↦ err notification_persisted_previous_status_invalid
      | some previous_status ↦ elim (normalize_receipt_status n.current_status) [
        | none ↦ err notification_persisted_current_status_invalid
        | some current_status ↦ elim (normalize_delivery_status n.delivery_status) [
          | none ↦ err notification_persisted_delivery_status_invalid
          | some delivery_status ↦ ok (record {
            notification_id = n.id;
            payment_address_id = n.payment_address_id;
            address_policy_id = policy_id;
            customer_reference = coalesce n.customer_reference;
            previous_status = previous_status;
            current_status = current_status;
            observed_total = n.observed_total;
            confirmed_total = n.confirmed_total;
            unconfirmed_total = n.unconfirmed_total;
            status_changed_at = n.status_changed_at;
            delivery_status = delivery_status;
            delivery_attempts = n.delivery_attempts;
            next_attempt_at = n.next_attempt_at;
            last_failure_reason = stored_delivery_reason (coalesce n.last_error);
            delivered_at = n.delivered_at;
          })
        ]
      ]
    ]

-- The WHERE clause of the claim; a row that another transaction has locked is skipped.
unfoldable pub is_due : Tx → ClaimNotifications → NotificationRow → Bool
is_due x input n =
    n.delivery_status ==ᵗ pending
    && leb_ℤ n.next_attempt_at (x.stored input.now)
    && is_free n.lease_until (x.stored input.now)
    && not (x.locked claim_notifications n.id)

abbrev pub lease : Time → NotificationRow → NotificationRow
lease until n = record n { lease_until = some until }

abbrev pub has_allocation : List AllocationRow → NotificationRow → Bool
has_allocation allocations n = any (λ a. eqb_ℤ a.id n.payment_address_id) allocations

-- The join of RETURNING: each notification with its allocation.
unfoldable pub with_allocations :
    List AllocationRow → List NotificationRow → List (NotificationRow × AllocationRow)
unfolding first
with_allocations allocations [] = []
with_allocations allocations (n ∷ rest) =
    elim (first (λ a. eqb_ℤ a.id n.payment_address_id) allocations) [
      | none ↦ with_allocations allocations rest
      | some a ↦ (n, a) ∷ with_allocations allocations rest
    ]

-- The UPDATE joins the allocations, so a notification without one is not updated.
unfoldable pub claim_rows : Tx → ClaimNotifications → Query (List (NotificationRow × AllocationRow))
unfolding due_ids is_due with_allocations update filter
claim_rows x input t =
    let ids =
      due_ids (λ n. n.id) (λ n. n.next_attempt_at) (is_due x input) (limit_of input.limit)
        t.notifications in
    let is_claimed = λ (n : NotificationRow). has_id ids n.id && has_allocation t.allocations n in
    let rows = update is_claimed (lease (x.stored input.claim_until)) t.notifications in
    (
      ok (with_allocations t.allocations (filter is_claimed rows)),
      record t { notifications = rows },
    )

-- PaymentReceiptStatusNotificationOutboxStore.ClaimPending
unfoldable pub claim_pending : Tx → ClaimNotifications → Query (List OutboxMessage)
unfolding claim_rows scan_all
claim_pending x input = guard (is_zero input.now) notification_claim_now_required (
    guard (is_zero input.claim_until) notification_claim_until_required (
      guard (leb_ℤ input.limit (pos 0)) notification_claim_limit_invalid (do
        claimed ← run x claim_notifications notification_outbox_failed (claim_rows x input)
        rows ← read x claim_notifications notification_outbox_failed claimed
        lift (scan_all scan rows))))

abbrev pub has_row : ℤ → NotificationRow → Bool
has_row id n = eqb_ℤ n.id id

-- An UPDATE of SaveDeliveryResult, with whether it met a row.
unfoldable pub update_notification : ℤ → (NotificationRow → NotificationRow) → Query Bool
unfolding update
update_notification id set t = (
  ok (any (has_row id) t.notifications),
  record t { notifications = update (has_row id) set t.notifications },
)

-- The UPDATE as a statement, and ensureNotificationRowsAffected.
unfoldable pub update_row : Tx → Statement → ℤ → (NotificationRow → NotificationRow) → Query Unit
unfolding update_notification
update_row x statement id set = do
  updated ← run x statement notification_outbox_failed (update_notification id set)
  affected ← read x statement notification_outbox_failed updated
  guard (not affected) notification_not_found (pure tt)

abbrev pub mark_sent : Time → NotificationRow → NotificationRow
mark_sent at n = record n {
  delivery_status = sent;
  delivered_at = some at;
  lease_until = none;
  last_error = none;
}

abbrev pub mark_pending : ℤ → Time → Text → NotificationRow → NotificationRow
mark_pending attempts next_attempt_at reason n = record n {
  delivery_status = pending;
  delivery_attempts = attempts;
  next_attempt_at = next_attempt_at;
  lease_until = none;
  last_error = some reason;
}

abbrev pub mark_failed : ℤ → Text → NotificationRow → NotificationRow
mark_failed attempts reason n = record n {
  delivery_status = failed;
  delivery_attempts = attempts;
  lease_until = none;
  last_error = some reason;
}

-- PaymentReceiptStatusNotificationOutboxStore.SaveDeliveryResult
unfoldable pub save_delivery_result : Tx → DeliveryResult → Query Unit
unfolding update_row
save_delivery_result x r =
    if r.status ==ᵗ sent
    then elim r.delivered_at [
      | none ↦ raise notification_delivered_at_required
      | some at ↦ update_row x save_sent r.notification_id (mark_sent (x.stored at))
    ]
    else if r.status ==ᵗ pending
    then elim r.next_attempt_at [
      | none ↦ raise notification_next_attempt_required
      | some at ↦
          update_row x save_pending r.notification_id
            (mark_pending r.attempts (x.stored at) r.last_failure_reason)
    ]
    else if r.status ==ᵗ failed
    then update_row x save_failed r.notification_id (mark_failed r.attempts r.last_failure_reason)
    else raise notification_delivery_status_invalid
