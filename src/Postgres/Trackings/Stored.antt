-- ===== src/Postgres/Trackings/Stored.antt =====
-- What Create and Save of payment_receipt_tracking_store.go store is what ClaimDue reads back.
use mathlib.Core.Option
use payrune.Prelude.{
  ◌≡◌, ◌≢◌, refl, true, false, none, some, [], ◌∷◌, ◌++◌, arith, any, first, update, Bool-cases,
  inl, inr, ◌∙◌,
}
use payrune.Prelude.Int.{ℤ, ◌+ℤ◌, pos}
use payrune.Text.{Text, is_empty, trim_space, trim_left, is_space, to_lower, lower}
use payrune.Text.Id.{is_portable_id, portable_normal}
use payrune.Result.{ok}
use payrune.Time.{Time}
use payrune.Domain.Status.{Status, FailureReason, status_text, reason_text}
use payrune.Domain.Tracking.{Tracking}
use payrune.Ports.Records.{TrackingRecord, record_from_tracking}
use payrune.Ports.Records.RoundTrip.{IsStorable, parse_status_self}
use payrune.Ports.Validation.{normalize_id, normalize_receipt_status, normalize_failure_reason}
use payrune.Ports.Validation.Agree.{normalize_receipt_status-eq-parse}
use payrune.Postgres.Driver.{Tx}
use payrune.Postgres.Reasons.{stored_tracking_reason}
use payrune.Postgres.Tables.{Tables, TrackingRow, coalesce, null_if_empty}
use payrune.Postgres.Trackings.{create, save, insert_row, is_of, save_row, row_of, scan, saved}
use payrune.Prelude.Rows.{first-append, first-update, any-eq-first, All-first, every_one}

is_empty-eq : (s : Text) → is_empty s ≡ true → s ≡ []
is_empty-eq [] h = refl
is_empty-eq (c ∷ s) h = cc

pub coalesce-null_if_empty : (s : Text) → coalesce (null_if_empty s) ≡ trim_space s
unfolding null_if_empty
coalesce-null_if_empty s = elim (Bool-cases (is_empty (trim_space s))) [
  | inl e ↦ rw (is_empty-eq (trim_space s) e)
  | inr e ↦ rw e
]

stored_reason_self : (r : FailureReason) → stored_tracking_reason (reason_text r) ≡ reason_text r
unfolding stored_tracking_reason normalize_failure_reason to_lower lower trim_space trim_left
    is_space
stored_reason_self FailureReason.tracking_invalid = refl
stored_reason_self FailureReason.latest_block_height_unavailable = refl
stored_reason_self FailureReason.observation_failed = refl
stored_reason_self FailureReason.tracking_update_failed = refl
stored_reason_self FailureReason.payment_window_expired = refl
stored_reason_self FailureReason.processing_failed = refl
stored_reason_self FailureReason.unset = refl

trim_reason : (r : FailureReason) → trim_space (reason_text r) ≡ reason_text r
unfolding trim_space trim_left is_space
trim_reason FailureReason.tracking_invalid = refl
trim_reason FailureReason.latest_block_height_unavailable = refl
trim_reason FailureReason.observation_failed = refl
trim_reason FailureReason.tracking_update_failed = refl
trim_reason FailureReason.payment_window_expired = refl
trim_reason FailureReason.processing_failed = refl
trim_reason FailureReason.unset = refl

pub normalize_id_self : (id : Text) → is_portable_id id ≡ true → normalize_id id ≡ (id, true)
unfolding normalize_id
normalize_id_self id h = let normal = portable_normal id h in rw (normal, h)

pub normalize_id-portable :
    (raw : Text) → (normalize_id raw).1 ≡ true → is_portable_id (normalize_id raw).0 ≡ true
unfolding normalize_id
normalize_id-portable raw h = h

pub stored_status_self :
    (s : Status)
    → s ≢ Status.unset
    → normalize_receipt_status (status_text s) ≡ some (status_text s)
stored_status_self s h =
    normalize_receipt_status-eq-parse (status_text s) ∙ rw (parse_status_self s h)

-- A record with what the server keeps of its times.
abbrev pub kept : (Time → Time) → TrackingRecord → TrackingRecord
kept keep k = record k {
  issued_at = keep k.issued_at;
  expires_at = Option.map keep k.expires_at;
  first_observed_at = Option.map keep k.first_observed_at;
  paid_at = Option.map keep k.paid_at;
  confirmed_at = Option.map keep k.confirmed_at;
}

-- A tracking in normal form that Create stores is read back as it was, with the id of its row and
-- what the server keeps of its times.
pub scan-row_of :
    (keep : Time → Time) (t : Tracking) (id : ℤ) (at : Time)
    → IsStorable t
    → trim_space t.asset_reference ≡ t.asset_reference
    → scan (row_of keep id (record_from_tracking t) at)
      ≡ ok (record (kept keep (record_from_tracking t)) { tracking_id = id })
unfolding scan row_of record_from_tracking
scan-row_of keep t id at s asset = ground (
  arith,
  normalize_id_self t.chain s.chain,
  normalize_id_self t.address_policy_id s.policy_id,
  normalize_id_self t.network s.network,
  stored_status_self t.status s.status,
  coalesce-null_if_empty (trim_space t.asset_reference),
  coalesce-null_if_empty (reason_text t.last_failure_reason),
  trim_reason t.last_failure_reason,
  stored_reason_self t.last_failure_reason,
)

create-eq-ok :
    (x : Tx) (tracking : TrackingRecord) (at : Time) (d : Tables) {d' : Tables}
    → create x tracking at d ≡ (ok tt, d')
    → (any (is_of tracking.payment_address_id) d.trackings ≡ false)
      × (d' ≡ record d {
        trackings = d.trackings ++ (row_of x.stored d.next_tracking_id tracking at ∷ []);
        next_tracking_id = d.next_tracking_id +ℤ pos 1;
      })
unfolding create insert_row
create-eq-ok x tracking at d h = ground arith

row_of-id :
    (keep : Time → Time) (id : ℤ) (t : Tracking) (at : Time)
    → let r = row_of keep id (record_from_tracking t) at in
      (r.payment_address_id ≡ t.payment_address_id)
      × (r.next_poll_at ≡ keep at)
      × (r.lease_until ≡ none)
unfolding row_of record_from_tracking
row_of-id keep id t at = (refl, refl, refl)

-- A tracking in normal form that Create accepts is new for its payment address, and is then the one
-- row of this address, free to be claimed from the time on that was asked for, and read back as it was
-- with the id of the row; of every time it has what the server keeps.
pub create-read :
    (x : Tx) (t : Tracking) (at : Time) (d : Tables) {d' : Tables}
    → IsStorable t
    → trim_space t.asset_reference ≡ t.asset_reference
    → create x (record_from_tracking t) at d ≡ (ok tt, d')
    → (r : TrackingRow) × (first (is_of t.payment_address_id) d.trackings ≡ none)
      × (d'.trackings ≡ d.trackings ++ (r ∷ []))
      × (first (is_of t.payment_address_id) d'.trackings ≡ some r)
      × (scan r
          ≡ ok (record (kept x.stored (record_from_tracking t)) {
            tracking_id = d.next_tracking_id;
          }))
      × (r.next_poll_at ≡ x.stored at)
      × (r.lease_until ≡ none)
unfolding record_from_tracking first
create-read x t at d s asset h =
    let (fresh, e) = create-eq-ok x (record_from_tracking t) at d h in
    let r = row_of x.stored d.next_tracking_id (record_from_tracking t) at in
    let missing = any-eq-first (is_of t.payment_address_id) d.trackings fresh in
    (
      r,
      missing,
      ground arith,
      rw e (
          rw (first-append (is_of t.payment_address_id) d.trackings (r ∷ []))
            (rw missing (ground (arith, row_of-id x.stored d.next_tracking_id t at)))),
      scan-row_of x.stored t d.next_tracking_id at s asset,
      (row_of-id x.stored d.next_tracking_id t at).1,
      (row_of-id x.stored d.next_tracking_id t at).2,
    )

-- What a save changes in what is read of a row.
abbrev pub read_after : (Time → Time) → TrackingRecord → Tracking → TrackingRecord
read_after keep k t = record k {
  status = status_text t.status;
  observed_total = t.observed_total;
  confirmed_total = t.confirmed_total;
  unconfirmed_total = t.unconfirmed_total;
  last_observed_block_height = t.last_observed_block_height;
  first_observed_at = Option.map keep t.first_observed_at;
  paid_at = Option.map keep t.paid_at;
  confirmed_at = Option.map keep t.confirmed_at;
  expires_at = Option.map keep t.expires_at;
  last_failure_reason = reason_text t.last_failure_reason;
}

scan-saved :
    (keep : Time → Time) (t : Tracking) (polled_at next_poll_at : Time) (r : TrackingRow)
    (k : TrackingRecord)
    → t.status ≢ Status.unset
    → scan r ≡ ok k
    → scan (saved keep (record_from_tracking t) polled_at next_poll_at r) ≡ ok (read_after keep k t)
unfolding scan saved record_from_tracking
scan-saved keep t polled_at next_poll_at r k s h = ground (
  arith,
  stored_status_self t.status s,
  coalesce-null_if_empty (reason_text t.last_failure_reason),
  trim_reason t.last_failure_reason,
  stored_reason_self t.last_failure_reason,
)

save-eq-ok :
    (x : Tx) (tracking : TrackingRecord) (polled_at next_poll_at : Time) (d : Tables) {d' : Tables}
    → save x tracking polled_at next_poll_at d ≡ (ok tt, d')
    → d' ≡ record d {
      trackings =
          update
            (is_of tracking.payment_address_id)
            (saved x.stored tracking polled_at next_poll_at)
            d.trackings;
    }
unfolding save save_row
save-eq-ok x tracking polled_at next_poll_at d h = ground arith

saved_facts :
    (keep : Time → Time) (t : Tracking) (polled_at next_poll_at : Time) (r : TrackingRow)
    → let r' = saved keep (record_from_tracking t) polled_at next_poll_at r in
      (r'.payment_address_id ≡ r.payment_address_id)
      × (r'.next_poll_at ≡ keep next_poll_at)
      × (r'.lease_until ≡ none)
unfolding saved record_from_tracking
saved_facts keep t polled_at next_poll_at r = (refl, refl, refl)

-- After a save the row of the payment address is read back with the totals, milestones, status and
-- failure reason that were saved, and with all else as before; its lease is given up and it is due
-- again at the time that was asked for. Of the saved times it has what the server keeps.
pub save-read :
    (x : Tx) (t : Tracking) (polled_at next_poll_at : Time) (d : Tables) {d' : Tables}
    {r : TrackingRow} {k : TrackingRecord}
    → t.status ≢ Status.unset
    → first (is_of t.payment_address_id) d.trackings ≡ some r
    → scan r ≡ ok k
    → save x (record_from_tracking t) polled_at next_poll_at d ≡ (ok tt, d')
    → (r' : TrackingRow) × (first (is_of t.payment_address_id) d'.trackings ≡ some r')
      × (scan r' ≡ ok (read_after x.stored k t))
      × (r'.lease_until ≡ none)
      × (r'.next_poll_at ≡ x.stored next_poll_at)
unfolding record_from_tracking
save-read x t polled_at next_poll_at d {r = r} {k = k} s found old h =
    let set = saved x.stored (record_from_tracking t) polled_at next_poll_at in
    let is_target = is_of t.payment_address_id in
    let e = save-eq-ok x (record_from_tracking t) polled_at next_poll_at d h in
    let hit =
      (All-first (λ _. Unit) is_target d.trackings (every_one (λ _. Unit) _ (λ _. tt)) found).1 in
    let facts = saved_facts x.stored t polled_at next_poll_at r in
    (
      set r,
      rw e (
          rw
            (first-update is_target is_target set d.trackings
              (λ q. let same = saved_facts x.stored t polled_at next_poll_at q in ground arith))
            (rw found (rw hit))),
      scan-saved x.stored t polled_at next_poll_at r k s old,
      facts.2,
      facts.1,
    )
