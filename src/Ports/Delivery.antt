-- ===== src/Ports/Delivery.antt =====
-- application/ports/outbound: the delivery results of a webhook notification, by
-- MarkPaymentReceiptStatusNotificationSent and
-- ResolvePaymentReceiptStatusNotificationDeliveryFailure of validation.go. Attempts are int32.
pub mod Retry
use payrune.Prelude.{Bool, Option, none, some, [], if◌then◌else◌}
use payrune.Prelude.Int.{ℤ, pos, leb_ℤ, ltb_ℤ, add32}
use payrune.Text.{Text}
use payrune.Result.{Result, ok, err, ◌>>=◌, ◌>>◌, reject_if, require}
use payrune.Time.{Time, Duration, is_zero, add}
use payrune.Ports.Error.{Error, notification_outbox_failed, notification_delivered_at_required}
use payrune.Ports.Validation.{normalize_delivery_failure_reason, pending, sent, failed}

-- PaymentReceiptStatusNotificationDeliveryResult
pub record DeliveryResult : Type 0 where
  pub notification_id : ℤ
  pub status : Text
  pub attempts : ℤ
  pub last_failure_reason : Text
  pub next_attempt_at : Option Time
  pub delivered_at : Option Time

-- MarkPaymentReceiptStatusNotificationSent
unfoldable pub mark_sent : ℤ → Time → Result Error DeliveryResult
mark_sent notification_id delivered_at = do
  reject_if (leb_ℤ notification_id (pos 0)) notification_outbox_failed
  reject_if (is_zero delivered_at) notification_delivered_at_required
  ok (record {
    notification_id = notification_id;
    status = sent;
    attempts = pos 0;
    last_failure_reason = [];
    next_attempt_at = none;
    delivered_at = some delivered_at;
  })

-- ResolvePaymentReceiptStatusNotificationDeliveryFailure
unfoldable pub resolve_failure : ℤ → ℤ → ℤ → Time → Duration → Text → Result Error DeliveryResult
resolve_failure notification_id current_attempts max_attempts now retry_delay failure_reason = do
  reject_if (leb_ℤ notification_id (pos 0)) notification_outbox_failed
  reject_if (ltb_ℤ current_attempts (pos 0)) notification_outbox_failed
  reject_if (leb_ℤ max_attempts (pos 0)) notification_outbox_failed
  reject_if (is_zero now) notification_outbox_failed
  reason ← require (normalize_delivery_failure_reason failure_reason) notification_outbox_failed
  let attempts = add32 current_attempts (pos 1)
  if leb_ℤ max_attempts attempts
      then ok (record {
        notification_id = notification_id;
        status = failed;
        attempts = attempts;
        last_failure_reason = reason;
        next_attempt_at = none;
        delivered_at = none;
      })
      else (do
        reject_if (leb_ℤ retry_delay (pos 0)) notification_outbox_failed
        ok (record {
          notification_id = notification_id;
          status = pending;
          attempts = attempts;
          last_failure_reason = reason;
          next_attempt_at = some (add now retry_delay);
          delivered_at = none;
        }))
