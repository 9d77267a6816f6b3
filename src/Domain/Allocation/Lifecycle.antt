-- ===== src/Domain/Allocation/Lifecycle.antt =====
-- The life of an allocation (internal/domain/entities/payment_address_allocation.go): from the
-- reservation to the tracking of an issued address, or to a failed derivation.
use payrune.Prelude.{true, not, some, ◌≡◌, arith, sym}
use payrune.Prelude.Int.{ℤ, pos, ◌<ℤ◌}
use payrune.Text.{Text, ◌==ᵗ◌, is_empty, trim_space}
use payrune.Text.Laws.{==ᵗ_iff, trim_space_idem}
use payrune.Result.{ok, err, >>=-eq-ok, reject_if, require, ok_injective}
use payrune.Time.{Time, is_zero}
use payrune.Domain.Allocation.{
  Allocation, issued, mark_issued, mark_derivation_failed, issue_receipt_tracking,
}
use payrune.Domain.Error.{
  allocation_not_issued, expires_at_required, chain_invalid, network_invalid,
}
use payrune.Domain.Status.{watching}
use payrune.Domain.Tracking.{Tracking, new_tracking}
use payrune.Domain.Tracking.Invariant.{IsValid, new_tracking-IsValid}
use payrune.Domain.Values.{normalize_policy_id, parse_chain_id, parse_network_id}
use payrune.Domain.Values.Laws.{normalize_policy_id_idem}

-- The tracking of a new address has the fields that it was given, trimmed or normalised.
new_tracking-fields :
    (id : ℤ) (policy_id chain network address asset : Text) (issued_at : Time) (amount n : ℤ)
    (t : Tracking)
    → new_tracking id policy_id chain network address asset issued_at amount n ≡ ok t
    → (t.payment_address_id ≡ id)
      × (t.address_policy_id ≡ normalize_policy_id policy_id)
      × (t.expected_amount ≡ amount)
      × (t.address ≡ trim_space address)
      × (t.asset_reference ≡ trim_space asset)
      × (t.required_confirmations ≡ n)
      × (t.issued_at ≡ issued_at)
      × (t.status ≡ watching)
unfolding new_tracking
new_tracking-fields id policy_id chain network address asset issued_at amount n t h = ground arith

expires-IsValid :
    (u : Tracking) (expires_at : Time)
    → IsValid u
    → IsValid (record u { expires_at = some expires_at })
expires-IsValid u expires_at v = ground arith

module _ (a : Allocation) (issued_at : Time) (n : ℤ) (expires_at : Time) where
  -- A successful IssueReceiptTracking is a new tracking with its expiry set.
  issue_receipt_tracking-eq-ok :
      (t : Tracking)
      → issue_receipt_tracking a issued_at n expires_at ≡ ok t
      → (u : Tracking) × (chain : Text) × (network : Text) × (new_tracking a.payment_address_id
            a.address_policy_id chain network a.address a.asset_reference issued_at
            a.expected_amount n
          ≡ ok u)
        × (t ≡ record u { expires_at = some expires_at })
  unfolding issue_receipt_tracking
  issue_receipt_tracking-eq-ok t h =
      let (_, _, h1) =
        >>=-eq-ok (reject_if (not (a.status ==ᵗ issued)) allocation_not_issued) _ h in
      let (_, _, h2) = >>=-eq-ok (reject_if (is_zero expires_at) expires_at_required) _ h1 in
      let (chain, _, h3) = >>=-eq-ok (require (parse_chain_id a.chain) chain_invalid) _ h2 in
      let (network, _, h4) =
        >>=-eq-ok (require (parse_network_id a.network) network_invalid) _ h3 in
      let (u, made, h5) = >>=-eq-ok (new_tracking _ _ chain network _ _ _ _ _) _ h4 in
      (u, chain, network, made, sym (ok_injective h5))

  issue_receipt_tracking-IsValid :
      (t : Tracking) → issue_receipt_tracking a issued_at n expires_at ≡ ok t → IsValid t
  issue_receipt_tracking-IsValid t h =
      let (u, chain, network, made, e) = issue_receipt_tracking-eq-ok t h in
      rw e (expires-IsValid u expires_at (new_tracking-IsValid _ _ _ _ _ _ _ _ _ u made).0)

mark_issued-fields :
    (a : Allocation) (policy_id chain network scheme asset address : Text) {a' : Allocation}
    → mark_issued a policy_id chain network scheme asset address ≡ ok a'
    → (a'.status ≡ issued)
      × (a'.payment_address_id ≡ a.payment_address_id)
      × (a'.address_policy_id ≡ normalize_policy_id policy_id)
      × (a'.expected_amount ≡ a.expected_amount)
      × (a'.address ≡ trim_space address)
      × (normalize_policy_id policy_id ≡ a.address_policy_id)
unfolding mark_issued
mark_issued-fields a policy_id chain network scheme asset address h =
    ground (arith, ==ᵗ_iff (normalize_policy_id policy_id) a.address_policy_id)

-- Let MarkIssued succeed and IssueReceiptTracking make a tracking of its result. The tracking
-- satisfies the invariant and is the tracking of that allocation: its payment address, policy,
-- amount and trimmed address, watching, with the terms given.
pub issued-receipt_tracking :
    (a : Allocation) (policy_id chain network scheme asset address : Text) {a' : Allocation}
    (issued_at : Time) (confirmations : ℤ) (expires_at : Time) (t : Tracking)
    → mark_issued a policy_id chain network scheme asset address ≡ ok a'
    → issue_receipt_tracking a' issued_at confirmations expires_at ≡ ok t
    → IsValid t
      × (t.payment_address_id ≡ a.payment_address_id)
      × (t.address_policy_id ≡ a.address_policy_id)
      × (t.expected_amount ≡ a.expected_amount)
      × (t.address ≡ trim_space address)
      × (t.required_confirmations ≡ confirmations)
      × (t.expires_at ≡ some expires_at)
      × (t.status ≡ watching)
issued-receipt_tracking a policy_id chain network scheme asset address issued_at n expires_at t h
      k =
    let (made, id, policy, amount, text, same) =
      mark_issued-fields a policy_id chain network scheme asset address h in
    let (u, c, w, new, e) = issue_receipt_tracking-eq-ok _ issued_at n expires_at t k in
    let fields = new_tracking-fields _ _ c w _ _ issued_at _ n u new in
    (
      issue_receipt_tracking-IsValid _ issued_at n expires_at t k,
      cc fields.0,
      cc (fields.1, normalize_policy_id_idem policy_id),
      cc fields.2,
      cc (fields.3, trim_space_idem address),
      cc fields.5,
      cc,
      cc fields.7,
    )

-- No receipt tracking comes of an allocation whose derivation failed, and the failure clears what
-- an issue had set.
pub mark_derivation_failed-not_issued :
    (a : Allocation) (reason : Text) {a' : Allocation} (issued_at : Time) (confirmations : ℤ)
    (expires_at : Time)
    → mark_derivation_failed a reason ≡ ok a'
    → (issue_receipt_tracking a' issued_at confirmations expires_at ≡ err allocation_not_issued)
      × (a'.payment_address_id ≡ a.payment_address_id)
      × (is_empty a'.address ≡ true)
unfolding mark_derivation_failed issue_receipt_tracking
mark_derivation_failed-not_issued a reason issued_at n expires_at h = ground arith

pub issue_receipt_tracking-positive :
    (a : Allocation) (issued_at : Time) (n : ℤ) (expires_at : Time) (t : Tracking)
    → issue_receipt_tracking a issued_at n expires_at ≡ ok t
    → pos 0 <ℤ a.payment_address_id
issue_receipt_tracking-positive a issued_at n expires_at t h =
    let (u, c, w, new, e) = issue_receipt_tracking-eq-ok _ issued_at n expires_at t h in
    let fields = new_tracking-fields _ _ c w _ _ issued_at _ n u new in
    let valid = new_tracking-IsValid _ _ _ _ _ _ _ _ _ u new in
    let id = fields.0 in let positive = valid.0.address_id in ground arith
