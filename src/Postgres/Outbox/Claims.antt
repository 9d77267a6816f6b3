-- ===== src/Postgres/Outbox/Claims.antt =====
-- ClaimPending of payment_receipt_status_notification_outbox_store.go as a lease.
use payrune.Prelude.{
  ◌≡◌, ◌≢◌, refl, Bool, true, false, ◌&&◌, List, [], ◌∷◌, All, arith, first, filter, update,
  Option-cases, inl, inr,
}
use payrune.Prelude.Int.{ℤ, eqb_ℤ, ◌<ℤ◌}
use payrune.Result.{ok}
use payrune.Time.{Time}
use payrune.Ports.Stores.{OutboxMessage, ClaimNotifications}
use payrune.Postgres.Driver.{Tx}
use payrune.Postgres.Due.{due_ids, has_id, limit_of}
use payrune.Postgres.Due.Laws.{All-due_ids, All-has_id}
use payrune.Postgres.Outbox.{
  claim_pending, claim_rows, scan, is_due, lease, with_allocations, has_allocation,
}
use payrune.Postgres.Scan.{scan_all, scan_all-All}
use payrune.Postgres.Tables.{AllocationRow, NotificationRow, Tables}
use payrune.Prelude.Rows.{All-mono, every_one, All-filter, All-update, All-any}

abbrev pub claimed_ids : Tx → ClaimNotifications → Tables → List ℤ
claimed_ids x input t =
    due_ids (λ n. n.id) (λ n. n.next_attempt_at) (is_due x input) (limit_of input.limit)
      t.notifications

abbrev pub is_claimed : Tx → ClaimNotifications → Tables → NotificationRow → Bool
is_claimed x input t n = has_id (claimed_ids x input t) n.id && has_allocation t.allocations n

abbrev claimed_rows : Tx → ClaimNotifications → Tables → List NotificationRow
claimed_rows x input t =
    update (is_claimed x input t) (lease (x.stored input.claim_until)) t.notifications

pub claim_pending-eq-ok :
    (x : Tx) (input : ClaimNotifications) (t : Tables) {t' : Tables} {claimed : List OutboxMessage}
    → claim_pending x input t ≡ (ok claimed, t')
    → (scan_all scan
          (with_allocations t.allocations (filter (is_claimed x input t) (claimed_rows x input t)))
        ≡ ok claimed)
      × (t' ≡ record t { notifications = claimed_rows x input t })
unfolding claim_pending claim_rows
claim_pending-eq-ok x input t h = (ground arith, ground arith)

All-with_allocations :
    (P : ℤ → Type 0) (allocations : List AllocationRow) (rows : List NotificationRow)
    → All (λ n. P n.id) rows
    → All (λ q. P q.0.id) (with_allocations allocations rows)
unfolding with_allocations
All-with_allocations P allocations [] h = tt
All-with_allocations P allocations (n ∷ rows) h =
    elim (Option-cases (first (λ a. eqb_ℤ a.id n.payment_address_id) allocations)) [
      | inl e ↦ rw (e, All) (All-with_allocations P allocations rows h.1)
      | inr (a, e) ↦ rw (e, All) (h.0, All-with_allocations P allocations rows h.1)
    ]

scan-id :
    (q : NotificationRow × AllocationRow) (m : OutboxMessage)
    → scan q ≡ ok m
    → m.notification_id ≡ q.0.id
unfolding scan
scan-id (n, a) m h = ground arith

-- What every claimed id satisfies, the returned notifications satisfy.
pub claim_pending-All :
    (P : ℤ → Type 0) (x : Tx) (input : ClaimNotifications) (t : Tables) {t' : Tables}
    {claimed : List OutboxMessage}
    → All P (claimed_ids x input t)
    → claim_pending x input t ≡ (ok claimed, t')
    → All (λ m. P m.notification_id) claimed
claim_pending-All P x input t all h =
    let rows = claimed_rows x input t in
    let picked : All (λ n. P n.id) (filter (is_claimed x input t) rows) =
      All-filter (λ n. P n.id) (is_claimed x input t) rows
        (every_one (λ n. is_claimed x input t n ≡ true → P n.id) rows
          (λ n p. All-has_id P (claimed_ids x input t) n.id all (ground arith))) in
    scan_all-All (λ q. P q.0.id) (λ m. P m.notification_id) scan _ (λ q m p e. rw (scan-id q m e) p)
      (All-with_allocations P t.allocations _ picked) (claim_pending-eq-ok x input t h).0

lease-not_due :
    (x : Tx) (input : ClaimNotifications) (until : Time) (n : NotificationRow)
    → x.stored input.now <ℤ until
    → is_due x input (lease until n) ≡ false
unfolding is_due
lease-not_due x input until n h = ground arith

pub eqb_self : (i : ℤ) → eqb_ℤ i i ≡ true
eqb_self i = ground arith

ids_claimed : (ids : List ℤ) → All (λ i. has_id ids i ≡ true) ids
ids_claimed ids =
    All-mono (λ i. true ≡ true → has_id ids i ≡ true) (λ i. has_id ids i ≡ true) ids (λ i h. h refl)
      (All-any (λ _. true) (λ i j. eqb_ℤ i j) ids (λ i _. eqb_self i))

-- What one claim returns, another worker's claim does not return before the lease, as it is stored, has run out, where
-- every notification has its allocation, as the foreign key asks.
pub claim_pending-exclusive :
    (x y : Tx) (input later : ClaimNotifications) (t : Tables) {t' t'' : Tables}
    {claimed others : List OutboxMessage}
    → All (λ n. has_allocation t.allocations n ≡ true) t.notifications
    → y.stored later.now <ℤ x.stored input.claim_until
    → claim_pending x input t ≡ (ok claimed, t')
    → claim_pending y later t' ≡ (ok others, t'')
    → All (λ a. All (λ b. a.notification_id ≢ b.notification_id) others) claimed
claim_pending-exclusive x y input later t {t'} keyed early h k =
    let ids = claimed_ids x input t in
    let rows : t'.notifications ≡ claimed_rows x input t =
      ground (arith, claim_pending-eq-ok x input t h) in
    let held : All (λ n. is_due y later n ≡ true → has_id ids n.id ≡ false)
        (claimed_rows x input t) =
      All-update (λ n. has_allocation t.allocations n ≡ true)
        (λ n. is_due y later n ≡ true → has_id ids n.id ≡ false) (is_claimed x input t)
        (lease (x.stored input.claim_until)) t.notifications
        (λ n _ _ due.
          absurd (ground (arith, lease-not_due y later (x.stored input.claim_until) n early)))
        (λ n has miss _. ground arith) keyed in
    let fresh : All (λ i. has_id ids i ≡ false) (claimed_ids y later t') =
      All-due_ids (λ n. n.id) (λ n. n.next_attempt_at) (λ i. has_id ids i ≡ false) (is_due y later)
        (limit_of later.limit) t'.notifications (rw rows held) in
    let others_fresh = claim_pending-All (λ i. has_id ids i ≡ false) y later t' fresh k in
    All-mono (λ a. has_id ids a.notification_id ≡ true)
      (λ a. All (λ b. a.notification_id ≢ b.notification_id) _) _
      (λ a p.
        All-mono (λ b. has_id ids b.notification_id ≡ false)
          (λ b. a.notification_id ≢ b.notification_id) _ (λ b q same. cc) others_fresh)
      (claim_pending-All (λ i. has_id ids i ≡ true) x input t (ids_claimed ids) h)
