-- ===== src/Postgres/Trackings.antt =====
-- payment_receipt_tracking_store.go of internal/adapters/outbound/persistence/postgres.
mod Examples
pub mod Claims
pub mod Stored
use mathlib.Core.Option
use payrune.Prelude.{
  Bool, ◌&&◌, ◌||◌, not, none, some, List, [], ◌∷◌, ◌++◌, any, update, length, ◌==◌, if◌then◌else◌,
}
use payrune.Prelude.Int.{ℤ, pos, eqb_ℤ, leb_ℤ, ◌+ℤ◌}
use payrune.Text.{◌==ᵗ◌, is_empty, trim_space, to_lower}
use payrune.Result.{Result, ok, err}
use payrune.Time.{Time, is_zero}
use payrune.Ports.Error.{
  Error, tracking_next_poll_at_required, tracking_store_failed, tracking_already_exists,
  tracking_claim_now_required, tracking_claim_until_required, tracking_claim_limit_invalid,
  tracking_claim_statuses_required, tracking_claim_status_required, tracking_polled_at_required,
  tracking_not_found, tracking_persisted_chain_invalid, tracking_persisted_policy_id_invalid,
  tracking_persisted_network_invalid, tracking_persisted_status_invalid,
}
use payrune.Ports.Records.{TrackingRecord}
use payrune.Ports.Stores.{ClaimTrackings}
use payrune.Ports.Validation.{normalize_id, normalize_receipt_status}
use payrune.Postgres.Driver.{
  Tx, Query, pure, run, read, guard, lift, ◌>>=◌, insert_tracking, claim_trackings, save_tracking,
}
use payrune.Postgres.Due.{is_free, limit_of, due_ids, leased, returned}
use payrune.Postgres.Reasons.{stored_tracking_reason}
use payrune.Postgres.Scan.{scan_all}
use payrune.Postgres.Tables.{TrackingRow, coalesce, null_if_empty}

-- The new row of the INSERT of Create, with what the server keeps of its times, which are UTC already.
unfoldable pub row_of : (Time → Time) → ℤ → TrackingRecord → Time → TrackingRow
unfolding null_if_empty
row_of keep id tracking next_poll_at = record {
  id = id;
  payment_address_id = tracking.payment_address_id;
  address_policy_id = tracking.address_policy_id;
  chain = tracking.chain;
  network = tracking.network;
  address = tracking.address;
  asset_reference = null_if_empty (trim_space tracking.asset_reference);
  issued_at = some (keep tracking.issued_at);
  expires_at = Option.map keep tracking.expires_at;
  expected_amount = tracking.expected_amount;
  required_confirmations = tracking.required_confirmations;
  receipt_status = tracking.status;
  observed_total = tracking.observed_total;
  confirmed_total = tracking.confirmed_total;
  unconfirmed_total = tracking.unconfirmed_total;
  last_observed_block_height = tracking.last_observed_block_height;
  first_observed_at = Option.map keep tracking.first_observed_at;
  paid_at = Option.map keep tracking.paid_at;
  confirmed_at = Option.map keep tracking.confirmed_at;
  last_error = null_if_empty tracking.last_failure_reason;
  last_polled_at = none;
  next_poll_at = keep next_poll_at;
  lease_until = none;
}

-- ON CONFLICT (payment_address_id) DO NOTHING, and the error of UNIQUE (chain, address); the number
-- of rows is that of RowsAffected. BIGSERIAL takes its value in every case.
unfoldable pub insert_row : (Time → Time) → TrackingRecord → Time → Query ℤ
insert_row keep tracking next_poll_at t =
    let counted = record t { next_tracking_id = t.next_tracking_id +ℤ pos 1 } in
    if any (λ r. eqb_ℤ r.payment_address_id tracking.payment_address_id) t.trackings
    then (ok (pos 0), counted)
    else if any (λ r. r.chain ==ᵗ tracking.chain && r.address ==ᵗ tracking.address) t.trackings
    then (err tracking_store_failed, t)
    else (
      ok (pos 1),
      record counted {
        trackings = t.trackings ++ (row_of keep t.next_tracking_id tracking next_poll_at ∷ []);
      },
    )

-- PaymentReceiptTrackingStore.Create
unfoldable pub create : Tx → TrackingRecord → Time → Query Unit
unfolding insert_row
create x tracking next_poll_at = guard (is_zero next_poll_at) tracking_next_poll_at_required (do
  inserted ← run x insert_tracking tracking_store_failed (insert_row x.stored tracking next_poll_at)
  affected ← read x insert_tracking tracking_store_failed inserted
  guard (eqb_ℤ affected (pos 0)) tracking_already_exists (pure tt))

-- scanPaymentReceiptTracking, from the columns of RETURNING on
unfoldable pub scan : TrackingRow → Result Error TrackingRecord
scan r =
    let (chain, chain_ok) = normalize_id r.chain in
    let (policy_id, policy_id_ok) = normalize_id r.address_policy_id in
    let (network, network_ok) = normalize_id r.network in
    if not chain_ok
    then err tracking_persisted_chain_invalid
    else if not policy_id_ok
    then err tracking_persisted_policy_id_invalid
    else if not network_ok
    then err tracking_persisted_network_invalid
    else elim (normalize_receipt_status r.receipt_status) [
      | none ↦ err tracking_persisted_status_invalid
      | some status ↦ ok (record {
        tracking_id = r.id;
        payment_address_id = r.payment_address_id;
        address_policy_id = policy_id;
        chain = chain;
        network = network;
        address = r.address;
        asset_reference = trim_space (coalesce r.asset_reference);
        issued_at = elim r.issued_at [ none ↦ pos 0 | some at ↦ at ];
        expected_amount = r.expected_amount;
        required_confirmations = r.required_confirmations;
        status = status;
        observed_total = r.observed_total;
        confirmed_total = r.confirmed_total;
        unconfirmed_total = r.unconfirmed_total;
        last_observed_block_height = r.last_observed_block_height;
        first_observed_at = r.first_observed_at;
        paid_at = r.paid_at;
        confirmed_at = r.confirmed_at;
        expires_at = r.expires_at;
        last_failure_reason = stored_tracking_reason (coalesce r.last_error);
      })
    ]

-- The WHERE clause of the claim; a row that another transaction has locked is skipped.
unfoldable pub is_due : Tx → ClaimTrackings → TrackingRow → Bool
is_due x input r =
    let chain = to_lower (trim_space input.chain) in
    let network = to_lower (trim_space input.network) in
    leb_ℤ r.next_poll_at (x.stored input.now)
    && is_free r.lease_until (x.stored input.now)
    && any (λ s. r.receipt_status ==ᵗ s) input.statuses
    && (is_empty chain || r.chain ==ᵗ chain)
    && (is_empty network || r.network ==ᵗ network)
    && not (x.locked claim_trackings r.id)

abbrev pub lease : Time → TrackingRow → TrackingRow
lease until r = record r { lease_until = some until }

unfoldable pub claim_rows : Tx → ClaimTrackings → Query (List TrackingRow)
unfolding due_ids leased returned is_due
claim_rows x input t =
    let ids =
      due_ids (λ r. r.id) (λ r. r.next_poll_at) (is_due x input) (limit_of input.limit)
        t.trackings in
    let rows = leased (λ r. r.id) ids (lease (x.stored input.claim_until)) t.trackings in
    (ok (returned (λ r. r.id) ids rows), record t { trackings = rows })

-- PaymentReceiptTrackingStore.ClaimDue
unfoldable pub claim_due : Tx → ClaimTrackings → Query (List TrackingRecord)
unfolding claim_rows scan_all
claim_due x input = guard (is_zero input.now) tracking_claim_now_required (
    guard (is_zero input.claim_until) tracking_claim_until_required (
      guard (leb_ℤ input.limit (pos 0)) tracking_claim_limit_invalid (
        guard (length input.statuses == 0) tracking_claim_statuses_required (
          guard (any is_empty input.statuses) tracking_claim_status_required (do
            claimed ← run x claim_trackings tracking_store_failed (claim_rows x input)
            rows ← read x claim_trackings tracking_store_failed claimed
            lift (scan_all scan rows))))))

-- The SET clause of Save.
unfoldable pub saved : (Time → Time) → TrackingRecord → Time → Time → TrackingRow → TrackingRow
unfolding null_if_empty
saved keep tracking polled_at next_poll_at r = record r {
  receipt_status = tracking.status;
  observed_total = tracking.observed_total;
  confirmed_total = tracking.confirmed_total;
  unconfirmed_total = tracking.unconfirmed_total;
  last_observed_block_height = tracking.last_observed_block_height;
  first_observed_at = Option.map keep tracking.first_observed_at;
  paid_at = Option.map keep tracking.paid_at;
  confirmed_at = Option.map keep tracking.confirmed_at;
  expires_at = Option.map keep tracking.expires_at;
  last_error = null_if_empty tracking.last_failure_reason;
  last_polled_at = some (keep polled_at);
  next_poll_at = keep next_poll_at;
  lease_until = none;
}

abbrev pub is_of : ℤ → TrackingRow → Bool
is_of id r = eqb_ℤ r.payment_address_id id

-- The UPDATE of Save, with whether it met a row.
unfoldable pub save_row : (Time → Time) → TrackingRecord → Time → Time → Query Bool
unfolding update saved
save_row keep tracking polled_at next_poll_at t = (
  ok (any (is_of tracking.payment_address_id) t.trackings),
  record t {
    trackings =
        update (is_of tracking.payment_address_id) (saved keep tracking polled_at next_poll_at)
          t.trackings;
  },
)

-- PaymentReceiptTrackingStore.Save
unfoldable pub save : Tx → TrackingRecord → Time → Time → Query Unit
unfolding save_row
save x tracking polled_at next_poll_at = guard (is_zero polled_at) tracking_polled_at_required (
    guard (is_zero next_poll_at) tracking_next_poll_at_required (do
      updated ←
          run x save_tracking tracking_store_failed
            (save_row x.stored tracking polled_at next_poll_at)
      affected ← read x save_tracking tracking_store_failed updated
      guard (not affected) tracking_not_found (pure tt)))
