-- ===== src/Postgres/Trackings/Claims.antt =====
-- ClaimDue of payment_receipt_tracking_store.go as a lease: what a claim returns, and that no other
-- claim returns it while the lease runs.
use payrune.Prelude.{◌≡◌, ◌≢◌, refl, ◌&&◌, ◌≤◌, length, update, true, false, List, All, arith, any}
use payrune.Prelude.Int.{ℤ, ◌<ℤ◌, eqb_ℤ}
use payrune.Result.{ok}
use payrune.Ports.Records.{TrackingRecord}
use payrune.Ports.Stores.{ClaimTrackings}
use payrune.Postgres.Driver.{Tx}
use payrune.Postgres.Due.{due_ids, leased, returned, has_id, limit_of}
use payrune.Postgres.Due.Laws.{
  due_ids-is_due, length-due_ids-le, All-due_ids, All-has_id, leased-not_due, returned-has_id,
}
use payrune.Postgres.Scan.{scan_all, scan_all-All}
use payrune.Postgres.Tables.{Tables, TrackingRow}
use payrune.Postgres.Trackings.{claim_due, claim_rows, scan, is_due, lease}
use payrune.Prelude.Rows.{All-mono}

abbrev pub claimed_ids : Tx → ClaimTrackings → Tables → List ℤ
claimed_ids x input t =
    due_ids (λ r. r.id) (λ r. r.next_poll_at) (is_due x input) (limit_of input.limit) t.trackings

abbrev pub claimed_rows : Tx → ClaimTrackings → Tables → List TrackingRow
claimed_rows x input t =
    leased (λ r. r.id) (claimed_ids x input t) (lease (x.stored input.claim_until)) t.trackings

pub claim_due-eq-ok :
    (x : Tx) (input : ClaimTrackings) (t : Tables) {t' : Tables} {claimed : List TrackingRecord}
    → claim_due x input t ≡ (ok claimed, t')
    → (scan_all scan (returned (λ r. r.id) (claimed_ids x input t) (claimed_rows x input t))
        ≡ ok claimed)
      × (t' ≡ record t { trackings = claimed_rows x input t })
unfolding claim_due claim_rows
claim_due-eq-ok x input t h = ground arith

scan-id : (r : TrackingRow) (a : TrackingRecord) → scan r ≡ ok a → a.tracking_id ≡ r.id
unfolding scan
scan-id r a h = ground arith

lease-not_due :
    (x : Tx) (input : ClaimTrackings) (until : ℤ) (r : TrackingRow)
    → x.stored input.now <ℤ until
    → is_due x input (lease until r) ≡ false
unfolding is_due
lease-not_due x input until r h = ground arith

-- The ids of what a claim returns are those that it has leased.
claim_due-has_id :
    (x : Tx) (input : ClaimTrackings) (t : Tables) {t' : Tables} {claimed : List TrackingRecord}
    → claim_due x input t ≡ (ok claimed, t')
    → All (λ a. has_id (claimed_ids x input t) a.tracking_id ≡ true) claimed
claim_due-has_id x input t h =
    let ids = claimed_ids x input t in
    scan_all-All (λ r. has_id ids r.id ≡ true) (λ a. has_id ids a.tracking_id ≡ true) scan _
      (λ r a p q. rw (scan-id r a q) p) (returned-has_id (λ r. r.id) ids (claimed_rows x input t))
      (claim_due-eq-ok x input t h).0

-- What one claim returns, another worker's claim does not return at an instant before the end of the lease, both as the
-- server keeps them.
pub claim_due-exclusive :
    (x y : Tx) (input later : ClaimTrackings) (t : Tables) {t' t'' : Tables}
    {claimed others : List TrackingRecord}
    → y.stored later.now <ℤ x.stored input.claim_until
    → claim_due x input t ≡ (ok claimed, t')
    → claim_due y later t' ≡ (ok others, t'')
    → All (λ a. All (λ b. a.tracking_id ≢ b.tracking_id) others) claimed
claim_due-exclusive x y input later t {t'} early h k =
    let ids = claimed_ids x input t in
    let rows : t'.trackings ≡ claimed_rows x input t =
      ground (arith, claim_due-eq-ok x input t h) in
    let held =
      leased-not_due (λ r. r.id) ids (lease (x.stored input.claim_until)) (is_due y later)
        t.trackings (λ r. refl) (λ r. lease-not_due y later (x.stored input.claim_until) r early) in
    let fresh : All (λ i. has_id ids i ≡ false) (claimed_ids y later t') =
      All-due_ids (λ r. r.id) (λ r. r.next_poll_at) (λ i. has_id ids i ≡ false) (is_due y later)
        (limit_of later.limit) t'.trackings (rw rows held) in
    let others_fresh =
      All-mono (λ b. has_id (claimed_ids y later t') b.tracking_id ≡ true)
        (λ b. has_id ids b.tracking_id ≡ false) _
        (λ b. All-has_id (λ i. has_id ids i ≡ false) (claimed_ids y later t') b.tracking_id fresh)
        (claim_due-has_id y later t' k) in
    All-mono (λ a. has_id ids a.tracking_id ≡ true)
      (λ a. All (λ b. a.tracking_id ≢ b.tracking_id) _) _
      (λ a p.
        All-mono (λ b. has_id ids b.tracking_id ≡ false) (λ b. a.tracking_id ≢ b.tracking_id) _
          (λ b q same. cc) others_fresh)
      (claim_due-has_id x input t h)

-- A claim leases rows that are due, at most as many as its limit, writes nothing else, and returns
-- rows that it has leased.
pub claim_due-IsLease :
    (x : Tx) (input : ClaimTrackings) (t : Tables) {t' : Tables} {claimed : List TrackingRecord}
    → claim_due x input t ≡ (ok claimed, t')
    → (ids : List ℤ) × (t' ≡ record t {
      trackings = update (λ r. has_id ids r.id) (lease (x.stored input.claim_until)) t.trackings;
    })
      × All (λ i. any (λ r. eqb_ℤ r.id i && is_due x input r) t.trackings ≡ true) ids
      × (length ids ≤ limit_of input.limit)
      × All (λ a. has_id ids a.tracking_id ≡ true) claimed
unfolding leased
claim_due-IsLease x input t h = (
  claimed_ids x input t,
  (claim_due-eq-ok x input t h).1,
  due_ids-is_due (λ r. r.id) (λ r. r.next_poll_at) (is_due x input) (limit_of input.limit)
      t.trackings,
  length-due_ids-le (λ r. r.id) (λ r. r.next_poll_at) (is_due x input) (limit_of input.limit)
      t.trackings,
  claim_due-has_id x input t h,
)
