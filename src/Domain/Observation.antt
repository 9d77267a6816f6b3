-- ===== src/Domain/Observation.antt =====
-- internal/domain/valueobjects/payment_receipt_observation.go: the amounts are int64.
use payrune.Prelude.{not, ◌≡◌, ◌↔◌, arith}
use payrune.Prelude.Int.{
  ℤ, pos, ◌+ℤ◌, ◌≤ℤ◌, ltb_ℤ, eqb_ℤ, add64, IsInt64, add64_nonneg, add64_exact,
}
use payrune.Result.{Result, ok, err, ◌>>◌, reject_if}
use payrune.Domain.Error.{
  Error, observation_observed_total_invalid, observation_confirmed_total_invalid,
  observation_unconfirmed_total_invalid, observation_latest_block_height_invalid,
  observation_total_mismatch, observation_confirmed_exceeds_observed,
  observation_unconfirmed_exceeds_observed,
}

pub record Observation : Type 0 where
  pub observed_total : ℤ
  pub confirmed_total : ℤ
  pub unconfirmed_total : ℤ
  pub latest_block_height : ℤ

-- PaymentReceiptObservation.Validate
unfoldable pub validate : Observation → Result Error (Unit {0})
validate o = do
  reject_if (ltb_ℤ o.observed_total (pos 0)) observation_observed_total_invalid
  reject_if (ltb_ℤ o.confirmed_total (pos 0)) observation_confirmed_total_invalid
  reject_if (ltb_ℤ o.unconfirmed_total (pos 0)) observation_unconfirmed_total_invalid
  reject_if (ltb_ℤ o.latest_block_height (pos 0)) observation_latest_block_height_invalid
  reject_if (not (eqb_ℤ (add64 o.confirmed_total o.unconfirmed_total) o.observed_total))
      observation_total_mismatch
  reject_if (ltb_ℤ o.observed_total o.confirmed_total) observation_confirmed_exceeds_observed
  reject_if (ltb_ℤ o.observed_total o.unconfirmed_total) observation_unconfirmed_exceeds_observed
  ok tt

-- The fields are what an int64 holds.
pub record IsInRange (o : Observation) : Type 0 where
  pub observed : IsInt64 o.observed_total
  pub confirmed : IsInt64 o.confirmed_total
  pub unconfirmed : IsInt64 o.unconfirmed_total

-- The totals of a sound observation, with no wrap-around.
pub record IsSound (o : Observation) : Type 0 where
  pub observed : pos 0 ≤ℤ o.observed_total
  pub confirmed : pos 0 ≤ℤ o.confirmed_total
  pub unconfirmed : pos 0 ≤ℤ o.unconfirmed_total
  pub height : pos 0 ≤ℤ o.latest_block_height
  pub sum : o.confirmed_total +ℤ o.unconfirmed_total ≡ o.observed_total

pub validate-IsSound : (o : Observation) → IsInRange o → validate o ≡ ok tt → IsSound o
unfolding validate
validate-IsSound o r h = ground (arith, add64_nonneg o.confirmed_total o.unconfirmed_total)

validate_of_IsSound : (o : Observation) → IsInRange o → IsSound o → validate o ≡ ok tt
unfolding validate ◌+ℤ◌
validate_of_IsSound o r h = ground (arith, add64_exact o.confirmed_total o.unconfirmed_total)

-- For int64 amounts Validate accepts an observation exactly when no field is negative and the
-- confirmed and the unconfirmed total add up to the observed one without wrapping.
pub validate_iff_IsSound : (o : Observation) → IsInRange o → (validate o ≡ ok tt) ↔ IsSound o
validate_iff_IsSound o r = (validate-IsSound o r, validate_of_IsSound o r)

-- The two last tests of Validate never fail: the sum test has already rejected the observation.
pub validate_bounds_unreachable :
    (o : Observation)
    → IsInRange o
    → ¬ (validate o ≡ err observation_confirmed_exceeds_observed)
      × ¬ (validate o ≡ err observation_unconfirmed_exceeds_observed)
unfolding validate ◌+ℤ◌
validate_bounds_unreachable o r = (
  λ h. ground (arith, add64_nonneg o.confirmed_total o.unconfirmed_total),
  λ h. ground (arith, add64_nonneg o.confirmed_total o.unconfirmed_total),
)
