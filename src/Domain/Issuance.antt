-- ===== src/Domain/Issuance.antt =====
-- internal/domain/policies/payment_address_allocation_issuance.go. A Go map is an association
-- list whose keys do not repeat; New ranges over the configured map in some order, which the list
-- given to `scoped` stands for, and a later entry replaces an earlier one.
pub mod Laws
mod Examples
use payrune.Prelude.{Bool, ◌&&◌, Option, none, some, List, [], ◌∷◌, if◌then◌else◌, ◌*◌}
use payrune.Prelude.Int.{ℤ, pos, leb_ℤ, ltb_ℤ}
use payrune.Text.{Text, ◌==ᵗ◌, trim_space}
use payrune.Result.{Result, ok, ◌>>=◌, ◌>>◌, reject_if}
use payrune.Time.{Time, Duration, is_zero, add}
use payrune.Domain.Error.{Error, allocation_issued_at_required}
use payrune.Domain.Policy.{AddressIssuancePolicy, validate_for_issuance}
use payrune.Domain.Values.{parse_supported_chain, parse_network_id}

abbrev pub default_required_confirmations : ℤ
default_required_confirmations = pos 1

-- 7 * 24 * time.Hour
abbrev pub default_expires_after : Duration
default_expires_after = pos (7 * 24 * (3600 * 1000000000))

-- PaymentAddressAllocationReservationAttempt; any other text of the type is `unknown`.
pub data Attempt : Type 0 where
  reopen_failed reserve_fresh : Attempt
  unknown : Text → Attempt

-- PaymentAddressAllocationReservation
pub record Reservation : Type 0 where
  pub issuance_policy : AddressIssuancePolicy
  pub expected_amount : ℤ
  pub customer_reference : Text

-- PaymentReceiptIssuanceTerms
pub record ReceiptTerms : Type 0 where
  pub required_confirmations : ℤ
  pub expires_at : Time

-- PaymentAddressAllocationIssuancePlan
pub record Plan : Type 0 where
  pub reservation : Reservation
  pub reservation_attempts : List Attempt
  pub receipt_terms : ReceiptTerms

-- PaymentReceiptTermsScope
pub record Scope : Type 0 where
  pub chain : Text
  pub network : Text

unfoldable pub same_scope : Scope → Scope → Bool
same_scope a b = a.chain ==ᵗ b.chain && a.network ==ᵗ b.network

abbrev pub ScopeMap : Type 0
ScopeMap = List (Scope × ℤ)

unfoldable pub find : ScopeMap → Scope → Option ℤ
find [] k = none
find ((j, v) ∷ m) k = if same_scope j k then some v else find m k

unfoldable pub put : ScopeMap → Scope → ℤ → ScopeMap
put [] k v = (k, v) ∷ []
put ((j, w) ∷ m) k v = if same_scope j k then (j, v) ∷ m else (j, w) ∷ put m k v

-- PaymentAddressAllocationIssuancePolicy
pub record IssuancePolicy : Type 0 where
  pub confirmations_by_scope : ScopeMap
  pub expires_after_by_scope : ScopeMap

-- normalizePaymentReceiptTermsScope
unfoldable pub normalize_scope : Scope → Option Scope
normalize_scope scope = elim (parse_supported_chain scope.chain) [
  | none ↦ none
  | some chain ↦ elim (parse_network_id scope.network) [
    | none ↦ none
    | some network ↦ some (record { chain = chain; network = network })
  ]
]

-- One turn of either loop of NewPaymentAddressAllocationIssuancePolicy.
unfoldable pub put_scoped : ScopeMap → Scope → ℤ → ScopeMap
put_scoped m scope value =
    if leb_ℤ value (pos 0)
    then m
    else elim (normalize_scope scope) [ none ↦ m | some normalized ↦ put m normalized value ]

unfoldable pub scoped : ScopeMap → ScopeMap → ScopeMap
unfolding put_scoped
scoped m [] = m
scoped m ((scope, value) ∷ rest) = scoped (put_scoped m scope value) rest

-- NewPaymentAddressAllocationIssuancePolicy
unfoldable pub new_issuance_policy : ScopeMap → ScopeMap → IssuancePolicy
unfolding scoped
new_issuance_policy confirmations expires_after = record {
  confirmations_by_scope = scoped [] confirmations;
  expires_after_by_scope = scoped [] expires_after;
}

-- requiredConfirmationsForScope and receiptExpiresAfterForScope have one body.
unfoldable pub configured : ScopeMap → ℤ → Text → Text → ℤ
configured m default_value chain network =
    elim (normalize_scope (record { chain = chain; network = network })) [
      | none ↦ default_value
      | some scope ↦ elim (find m scope) [
        | none ↦ default_value
        | some value ↦ if ltb_ℤ (pos 0) value then value else default_value
      ]
    ]

-- PaymentAddressAllocationIssuancePolicy.Plan
unfoldable pub plan :
    IssuancePolicy → AddressIssuancePolicy → Text → ℤ → Text → Time → Result Error Plan
plan p issuance_policy requested_chain amount customer_reference issued_at = do
  reject_if (is_zero issued_at) allocation_issued_at_required
  validated ← validate_for_issuance issuance_policy requested_chain amount
  ok (record {
    reservation = record {
      issuance_policy = validated;
      expected_amount = amount;
      customer_reference = trim_space customer_reference;
    };
    reservation_attempts = reopen_failed ∷ reserve_fresh ∷ [];
    receipt_terms = record {
      required_confirmations =
          configured p.confirmations_by_scope default_required_confirmations validated.chain
            validated.network;
      expires_at = add issued_at (
          configured p.expires_after_by_scope default_expires_after validated.chain
            validated.network);
    };
  })
