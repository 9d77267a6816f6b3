-- ===== src/Domain/Issuance/Laws.antt =====
-- What internal/domain/policies/payment_address_allocation_issuance.go plans.
use payrune.Prelude.{
  true, false, Option, none, some, [], ◌∷◌, Option-cases, inl, inr, ◌≡◌, refl, ap, ◌↔◌, arith,
  if◌then◌else◌,
}
use payrune.Prelude.Int.{ℤ, pos, ◌<ℤ◌, ◌+ℤ◌, leb_ℤ}
use payrune.Text.{Text, ◌==ᵗ◌}
use payrune.Text.Laws.{==ᵗ_iff}
use payrune.Result.{ok}
use payrune.Time.{Time}
use payrune.Domain.Issuance.{
  Plan, Scope, ScopeMap, IssuancePolicy, same_scope, find, put, normalize_scope, put_scoped, scoped,
  new_issuance_policy, configured, plan, default_required_confirmations, default_expires_after,
  reopen_failed, reserve_fresh,
}
use payrune.Domain.Policy.{AddressIssuancePolicy, normalize, validate_for_issuance}
use payrune.Domain.Values.{is_zero_policy_id}

configured-positive :
    (m : ScopeMap) (d : ℤ) (chain network : Text)
    → pos 0 <ℤ d
    → pos 0 <ℤ configured m d chain network
unfolding configured
configured-positive m d chain network h = ground arith

-- A plan is only made for an enabled policy of the requested chain and a positive amount, over the
-- normalised policy, reopening a failed reservation before reserving a fresh one; the receipt terms
-- ask for at least one confirmation and expire after the issue.
pub plan-eq-ok :
    (p : IssuancePolicy) (policy : AddressIssuancePolicy) (chain : Text) (amount : ℤ)
    (customer_reference : Text) (issued_at : Time) {made : Plan}
    → plan p policy chain amount customer_reference issued_at ≡ ok made
    → (made.reservation.issuance_policy ≡ normalize policy)
      × ((normalize policy).chain ==ᵗ chain ≡ true)
      × ((normalize (normalize policy)).enabled ≡ true)
      × (is_zero_policy_id (normalize policy).address_policy_id ≡ false)
      × (pos 0 <ℤ amount)
      × (made.reservation.expected_amount ≡ amount)
      × (made.reservation_attempts ≡ reopen_failed ∷ reserve_fresh ∷ [])
      × (pos 0 <ℤ made.receipt_terms.required_confirmations)
      × (issued_at <ℤ made.receipt_terms.expires_at)
unfolding plan validate_for_issuance ◌+ℤ◌
plan-eq-ok p policy chain amount customer_reference issued_at h = ground (
  arith,
  configured-positive p.confirmations_by_scope default_required_confirmations
      (normalize policy).chain (normalize policy).network,
  configured-positive p.expires_after_by_scope default_expires_after (normalize policy).chain
      (normalize policy).network,
)

-- The value of the last entry that is positive and whose scope normalises to `k`.
abbrev pub last_entry : Scope → ScopeMap → Option ℤ → Option ℤ
last_entry k [] found = found
last_entry k ((scope, value) ∷ rest) found = last_entry k rest (
    if leb_ℤ value (pos 0) then found else elim (normalize_scope scope) [
      | none ↦ found
      | some normalized ↦ if same_scope normalized k then some value else found
    ])

same_scope_refl : (a : Scope) → same_scope a a ≡ true
unfolding same_scope
same_scope_refl a = ground (arith, ==ᵗ_iff a.chain a.chain, ==ᵗ_iff a.network a.network)

same_scope_eq : (a b : Scope) → same_scope a b ≡ true → a ≡ b
unfolding same_scope
same_scope_eq a b h = ground (arith, ==ᵗ_iff a.chain b.chain, ==ᵗ_iff a.network b.network)

same_scope_iff : (a b : Scope) → (same_scope a b ≡ true) ↔ (a ≡ b)
same_scope_iff a b = (same_scope_eq a b, λ e. rw e (same_scope_refl b))

find-put :
    (m : ScopeMap) (j k : Scope) (v : ℤ)
    → find (put m j v) k ≡ (if same_scope j k then some v else find m k)
unfolding find put
find-put [] j k v = refl
find-put ((i, w) ∷ m) j k v =
    ground (arith, find-put m j k v, same_scope_iff i j, same_scope_iff i k, same_scope_iff j k)

find-put_scoped :
    (m : ScopeMap) (scope k : Scope) (value : ℤ)
    → find (put_scoped m scope value) k ≡ (
        if leb_ℤ value (pos 0) then find m k else elim (normalize_scope scope) [
          | none ↦ find m k
          | some normalized ↦ if same_scope normalized k then some value else find m k
        ])
unfolding put_scoped
find-put_scoped m scope k value = elim (Option-cases (normalize_scope scope)) [
  | inl bad ↦ ground arith
  | inr (n, good) ↦ ground (arith, find-put m n k value)
]

find-scoped :
    (m entries : ScopeMap) (k : Scope) → find (scoped m entries) k ≡ last_entry k entries (find m k)
unfolding scoped
find-scoped m [] k = refl
find-scoped m ((scope, value) ∷ rest) k =
    rw (find-scoped (put_scoped m scope value) rest k)
      (ap (last_entry k rest) (find-put_scoped m scope k value))

last_entry-positive :
    (k : Scope) (entries : ScopeMap) (found : Option ℤ) (v : ℤ)
    → ((u : ℤ) → found ≡ some u → pos 0 <ℤ u)
    → last_entry k entries found ≡ some v
    → pos 0 <ℤ v
last_entry-positive k [] found v h e = h v e
last_entry-positive k ((scope, value) ∷ rest) found v h e =
    last_entry-positive k rest _ v (λ u g. ground (arith, h u)) e

-- The confirmations that a built policy asks for in a scope: those of the last positive entry for
-- that scope in the configuration, and one where there is none.
pub configured-new :
    (confirmations expires_after : ScopeMap) (chain network : Text) {k : Scope}
    → normalize_scope (record { chain = chain; network = network }) ≡ some k
    → configured
        (new_issuance_policy confirmations expires_after).confirmations_by_scope
        default_required_confirmations
        chain
        network
      ≡ (elim (last_entry k confirmations none) [
        | none ↦ default_required_confirmations
        | some v ↦ v
      ])
unfolding new_issuance_policy configured find
configured-new confirmations expires_after chain network {k} h =
    elim (Option-cases (last_entry k confirmations none)) [
      | inl nothing ↦ ground (arith, find-scoped [] confirmations k)
      | inr (v, there) ↦ ground (
        arith,
        find-scoped [] confirmations k,
        last_entry-positive k confirmations none v (λ u g. cc) there,
      )
    ]
