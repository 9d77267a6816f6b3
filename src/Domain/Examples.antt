-- ===== src/Domain/Examples.antt =====
-- Tests and examples of the domain on concrete trackings.
use payrune.Prelude.{◌≡◌, refl, arith, none, some, [], ◌∷◌, true, false, is_some}
use payrune.Prelude.Int.{add64, ℤ, pos, ◌+ℤ◌}
use payrune.Text.{codes, trim_space, trim_left, is_space, lower, to_lower, byte_len}
use payrune.Text.Id.{is_id_char, parse_id}
use payrune.Result.{ok}
use payrune.Domain.Observation.{Observation, validate, IsInRange, IsSound}
use payrune.Domain.Status.{
  watching, FailureReason, failed_expired, payment_window_expired, paid_unconfirmed_reverted,
}
use payrune.Domain.Tracking.{apply_observation, expire_if_due, observed, Tracking, new_tracking}
use payrune.Domain.Tracking.History.{
  observe_all_milestones, observe_all, first_time, observe_all_status, paid_never_expires, pays,
}
use payrune.Domain.Tracking.Invariant.{IsValid, apply_observation-IsValid}
use payrune.Domain.Values.{
  normalize_policy_id, is_zero_policy_id, parse_chain_id, parse_address_policy_id, parse_network_id,
}

-- A watched address with an expiry, and sightings of it.
abbrev watched : Tracking
watched = record {
  tracking_id = pos 3;
  payment_address_id = pos 7;
  address_policy_id = codes "btc";
  chain = codes "bitcoin";
  network = codes "mainnet";
  address = codes "bc1q";
  asset_reference = [];
  issued_at = pos 10;
  expected_amount = pos 1000;
  required_confirmations = pos 2;
  status = watching;
  observed_total = pos 0;
  confirmed_total = pos 0;
  unconfirmed_total = pos 0;
  last_observed_block_height = pos 5;
  first_observed_at = none;
  paid_at = none;
  confirmed_at = none;
  expires_at = some (pos 100);
  last_failure_reason = FailureReason.unset;
}

abbrev seen : ℤ → ℤ → ℤ → Observation
seen total confirmed unconfirmed = record {
  observed_total = total;
  confirmed_total = confirmed;
  unconfirmed_total = unconfirmed;
  latest_block_height = pos 6;
}

abbrev full : Observation
full = seen (pos 1000) (pos 400) (pos 600)

abbrev gone : Observation
gone = seen (pos 0) (pos 0) (pos 0)

abbrev paid_then_gone : Tracking
paid_then_gone = observed (observed watched full (pos 20)) gone (pos 30)

watched-IsValid : IsValid watched
unfolding ◌+ℤ◌
watched-IsValid = ground arith

full-IsInRange : IsInRange full
full-IsInRange = ground arith

full-IsSound : IsSound full
unfolding ◌+ℤ◌
full-IsSound = ground arith

first_accepted : apply_observation watched full (pos 20) ≡ ok (observed watched full (pos 20))
unfolding apply_observation validate add64
first_accepted = refl

both_accepted : observe_all watched ((full, pos 20) ∷ (gone, pos 30) ∷ []) ≡ ok paid_then_gone
unfolding observe_all apply_observation validate add64
both_accepted = refl

full_first : is_some (first_time (pays (pos 1000)) ((full, pos 20) ∷ (gone, pos 30) ∷ [])) ≡ true
full_first = refl

paid_never_expires_example : expire_if_due paid_then_gone (pos 500) ≡ ok (paid_then_gone, false)
paid_never_expires_example =
    paid_never_expires watched ((full, pos 20) ∷ (gone, pos 30) ∷ []) (pos 500) both_accepted
      full_first

observe_all_status_example : paid_then_gone.status ≡ paid_unconfirmed_reverted
observe_all_status_example =
    observe_all_status watched ((full, pos 20) ∷ []) gone (pos 30) refl both_accepted

observe_all_milestones_example :
    (paid_then_gone.expected_amount ≡ pos 1000)
    × (paid_then_gone.first_observed_at ≡ some (pos 20))
    × (paid_then_gone.paid_at ≡ some (pos 20))
    × (paid_then_gone.confirmed_at ≡ none)
observe_all_milestones_example =
    observe_all_milestones watched ((full, pos 20) ∷ (gone, pos 30) ∷ []) both_accepted

apply_observation-IsValid_example : IsValid (observed watched full (pos 20))
apply_observation-IsValid_example =
    apply_observation-IsValid watched full (pos 20) watched-IsValid full-IsInRange first_accepted

abbrev expired : Tracking
expired = record watched { status = failed_expired; last_failure_reason = payment_window_expired }

abbrev new_watched : Tracking
new_watched = record watched {
  tracking_id = pos 0;
  last_observed_block_height = pos 0;
  expires_at = none;
}

new_watched_made :
    new_tracking
      (pos 7)
      (codes " BTC ")
      (codes "Bitcoin")
      (codes "mainnet")
      (codes " bc1q ")
      []
      (pos 10)
      (pos 1000)
      (pos 2)
    ≡ ok new_watched
unfolding new_tracking normalize_policy_id is_zero_policy_id parse_chain_id parse_network_id
    parse_address_policy_id parse_id trim_space trim_left is_space to_lower lower byte_len
    is_id_char
new_watched_made = refl
