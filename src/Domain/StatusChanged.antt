-- ===== src/Domain/StatusChanged.antt =====
-- internal/domain/events/payment_receipt_status_changed.go.
use payrune.Prelude.Int.{ℤ, pos, leb_ℤ, ltb_ℤ}
use payrune.Text.{is_empty}
use payrune.Result.{Result, ok, ◌>>◌, reject_if}
use payrune.Time.{Time, is_zero}
use payrune.Domain.Error.{
  Error, event_payment_address_id_invalid, previous_status_required, current_status_required,
  status_change_required, event_observed_total_invalid, event_confirmed_total_invalid,
  event_unconfirmed_total_invalid, status_changed_at_required,
}
use payrune.Domain.Status.{Status, status_text, ◌==ˢ◌}

-- PaymentReceiptStatusChanged
pub record StatusChanged : Type 0 where
  pub payment_address_id : ℤ
  pub previous_status : Status
  pub current_status : Status
  pub observed_total : ℤ
  pub confirmed_total : ℤ
  pub unconfirmed_total : ℤ
  pub status_changed_at : Time

-- NewPaymentReceiptStatusChanged
unfoldable pub new_status_changed :
    ℤ → Status → Status → ℤ → ℤ → ℤ → Time → Result Error StatusChanged
unfolding ◌==ˢ◌
new_status_changed payment_address_id previous current observed confirmed unconfirmed changed_at =
    do
      reject_if (leb_ℤ payment_address_id (pos 0)) event_payment_address_id_invalid
      reject_if (is_empty (status_text previous)) previous_status_required
      reject_if (is_empty (status_text current)) current_status_required
      reject_if (previous ==ˢ current) status_change_required
      reject_if (ltb_ℤ observed (pos 0)) event_observed_total_invalid
      reject_if (ltb_ℤ confirmed (pos 0)) event_confirmed_total_invalid
      reject_if (ltb_ℤ unconfirmed (pos 0)) event_unconfirmed_total_invalid
      reject_if (is_zero changed_at) status_changed_at_required
      ok (record {
        payment_address_id = payment_address_id;
        previous_status = previous;
        current_status = current;
        observed_total = observed;
        confirmed_total = confirmed;
        unconfirmed_total = unconfirmed;
        status_changed_at = changed_at;
      })
