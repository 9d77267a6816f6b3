-- ===== src/Postgres/Trackings/Examples.antt =====
-- The tracking store on small tables, and the theorems about it at these tables.
use payrune.Prelude.{
  ◌≡◌, ◌≢◌, refl, true, none, some, List, [], ◌∷◌, ◌++◌, ◌≤◌, ◌&&◌, All, any, first, arith, update,
  length,
}
use payrune.Prelude.Int.{ℤ, pos, ◌+ℤ◌, eqb_ℤ}
use payrune.Text.{codes, trim_space, trim_left, byte_len, to_lower, lower, is_space}
use payrune.Text.Id.{is_portable_id, is_id_char}
use payrune.Result.{ok}
use payrune.Domain.Status.{Status, FailureReason}
use payrune.Domain.Tracking.{Tracking}
use payrune.Domain.Values.{bitcoin, mainnet}
use payrune.Ports.Records.{record_from_tracking, TrackingRecord}
use payrune.Ports.Records.RoundTrip.{IsStorable}
use payrune.Ports.Stores.{ClaimTrackings}
use payrune.Ports.Validation.{normalize_id, normalize_receipt_status}
use payrune.Postgres.Due.{has_id}
use payrune.Postgres.Reasons.{stored_tracking_reason}
use payrune.Postgres.Samples.{no_tables, tx}
use payrune.Postgres.Tables.{Tables, TrackingRow, null_if_empty}
use payrune.Postgres.Trackings.{
  create, insert_row, row_of, scan, is_of, claim_due, claim_rows, is_due, lease, save, save_row,
}
use payrune.Postgres.Trackings.Claims.{claim_due-exclusive, claim_due-IsLease}
use payrune.Postgres.Trackings.Stored.{create-read, save-read, read_after}

abbrev tracking : Tracking
tracking = record {
  tracking_id = pos 0;
  payment_address_id = pos 1;
  address_policy_id = codes "btc";
  chain = bitcoin;
  network = mainnet;
  address = codes "bc1q";
  asset_reference = [];
  issued_at = pos 10;
  expected_amount = pos 1000;
  required_confirmations = pos 2;
  status = Status.watching;
  observed_total = pos 0;
  confirmed_total = pos 0;
  unconfirmed_total = pos 0;
  last_observed_block_height = pos 0;
  first_observed_at = none;
  paid_at = none;
  confirmed_at = none;
  expires_at = some (pos 100);
  last_failure_reason = FailureReason.unset;
}

tracking-IsStorable : IsStorable tracking
unfolding is_portable_id byte_len is_id_char
tracking-IsStorable = record { policy_id = refl; chain = refl; network = refl; status = λ e. cc }

-- Create, and what it leaves.
abbrev tracking_row : TrackingRow
tracking_row = record {
  id = pos 1;
  payment_address_id = pos 1;
  address_policy_id = codes "btc";
  chain = bitcoin;
  network = mainnet;
  address = codes "bc1q";
  asset_reference = none;
  issued_at = some (pos 10);
  expires_at = some (pos 100);
  expected_amount = pos 1000;
  required_confirmations = pos 2;
  receipt_status = codes "watching";
  observed_total = pos 0;
  confirmed_total = pos 0;
  unconfirmed_total = pos 0;
  last_observed_block_height = pos 0;
  first_observed_at = none;
  paid_at = none;
  confirmed_at = none;
  last_error = none;
  last_polled_at = none;
  next_poll_at = pos 20;
  lease_until = none;
}

abbrev tracked : Tables
tracked = record no_tables { trackings = tracking_row ∷ []; next_tracking_id = pos 2 }

tracking_created : create tx (record_from_tracking tracking) (pos 20) no_tables ≡ (ok tt, tracked)
unfolding create insert_row row_of record_from_tracking null_if_empty trim_space trim_left ◌+ℤ◌
tracking_created = refl

create-read_example :
    (r : TrackingRow) × (first (is_of (pos 1)) [] ≡ none)
    × (tracked.trackings ≡ [] ++ (r ∷ []))
    × (first (is_of (pos 1)) tracked.trackings ≡ some r)
    × (scan r ≡ ok (record (record_from_tracking tracking) { tracking_id = pos 1 }))
    × (r.next_poll_at ≡ pos 20)
    × (r.lease_until ≡ none)
unfolding trim_space trim_left record_from_tracking
create-read_example =
    create-read tx tracking (pos 20) no_tables tracking-IsStorable refl tracking_created

-- A claim at 30 with a lease until 60, and another worker's at 40.
abbrev claim_at : ℤ → ClaimTrackings
claim_at now = record {
  now = now;
  limit = pos 1;
  claim_until = pos 60;
  chain = [];
  network = [];
  statuses = codes "watching" ∷ [];
}

abbrev read : TrackingRecord
read = record (record_from_tracking tracking) { tracking_id = pos 1 }

-- A second address, due later.
abbrev other_row : TrackingRow
other_row = record tracking_row {
  id = pos 2;
  payment_address_id = pos 2;
  address = codes "bc1r";
  next_poll_at = pos 25;
}

abbrev two_tracked : Tables
two_tracked = record tracked { trackings = tracking_row ∷ other_row ∷ []; next_tracking_id = pos 3 }

abbrev leased_row : TrackingRow
leased_row = record tracking_row { lease_until = some (pos 60) }

abbrev claimed_tables : Tables
claimed_tables = record two_tracked { trackings = leased_row ∷ other_row ∷ [] }

abbrev both_claimed : Tables
both_claimed = record two_tracked {
  trackings = leased_row ∷ record other_row { lease_until = some (pos 60) } ∷ [];
}

abbrev other_read : TrackingRecord
other_read = record read { tracking_id = pos 2; payment_address_id = pos 2; address = codes "bc1r" }

first_claim : claim_due tx (claim_at (pos 30)) two_tracked ≡ (ok (read ∷ []), claimed_tables)
unfolding claim_due claim_rows scan record_from_tracking normalize_id normalize_receipt_status
    stored_tracking_reason trim_space trim_left is_space to_lower lower is_portable_id byte_len
    is_id_char
first_claim = refl

second_claim :
    claim_due tx (claim_at (pos 40)) claimed_tables ≡ (ok (other_read ∷ []), both_claimed)
unfolding claim_due claim_rows scan record_from_tracking normalize_id normalize_receipt_status
    stored_tracking_reason trim_space trim_left is_space to_lower lower is_portable_id byte_len
    is_id_char
second_claim = refl

claim_due-exclusive_example :
    All {A = TrackingRecord}
      (λ a. All {A = TrackingRecord} (λ b. a.tracking_id ≢ b.tracking_id) (other_read ∷ []))
      (read ∷ [])
claim_due-exclusive_example =
    claim_due-exclusive tx tx (claim_at (pos 30)) (claim_at (pos 40)) two_tracked (omega arith)
      first_claim second_claim

claim_due-IsLease_example :
    (ids : List ℤ) × (claimed_tables ≡ record two_tracked {
      trackings = update (λ r. has_id ids r.id) (lease (pos 60)) two_tracked.trackings;
    })
    × All
        (λ i.
          any (λ r. eqb_ℤ r.id i && is_due tx (claim_at (pos 30)) r) two_tracked.trackings ≡ true)
        ids
    × (length ids ≤ 1)
    × All (λ a. has_id ids a.tracking_id ≡ true) (read ∷ [])
claim_due-IsLease_example = claim_due-IsLease tx (claim_at (pos 30)) two_tracked first_claim

-- The tracking once its payment was seen, saved over the row that was created.
abbrev paid : Tracking
paid = record tracking {
  status = Status.paid_unconfirmed;
  observed_total = pos 1000;
  unconfirmed_total = pos 1000;
  last_observed_block_height = pos 6;
  first_observed_at = some (pos 30);
  paid_at = some (pos 30);
}

abbrev saved_row : TrackingRow
saved_row = record tracking_row {
  receipt_status = codes "paid_unconfirmed";
  observed_total = pos 1000;
  unconfirmed_total = pos 1000;
  last_observed_block_height = pos 6;
  first_observed_at = some (pos 30);
  paid_at = some (pos 30);
  last_polled_at = some (pos 30);
  next_poll_at = pos 90;
}

abbrev saved_tables : Tables
saved_tables = record two_tracked { trackings = saved_row ∷ other_row ∷ [] }

paid_saved :
    save tx (record_from_tracking paid) (pos 30) (pos 90) claimed_tables ≡ (ok tt, saved_tables)
unfolding save save_row record_from_tracking null_if_empty trim_space trim_left
paid_saved = refl

claimed_read : scan leased_row ≡ ok read
unfolding scan record_from_tracking normalize_id normalize_receipt_status stored_tracking_reason
    trim_space trim_left is_space to_lower lower is_portable_id byte_len is_id_char
claimed_read = refl

save-read_example :
    (r' : TrackingRow) × (first (is_of (pos 1)) saved_tables.trackings ≡ some r')
    × (scan r' ≡ ok (read_after (λ at. at) read paid))
    × (r'.lease_until ≡ none)
    × (r'.next_poll_at ≡ pos 90)
unfolding first
save-read_example =
    save-read tx paid (pos 30) (pos 90) claimed_tables (λ e. cc) refl claimed_read paid_saved
