-- ===== src/Ports/Records/RoundTrip.antt =====
-- What is written to a port record is read back from it.
use payrune.Prelude.{true, some, [], inl, inr, ◌≡◌, ◌≢◌, refl, arith, ◌⊎◌, Option, ◌∷◌}
use payrune.Text.{Text, codes, trim_space, to_lower, lower, trim_left, is_space}
use payrune.Text.Id.{is_portable_id, parse_id_self}
use payrune.Result.{ok}
use payrune.Domain.Allocation.{Allocation}
use payrune.Domain.Status.{
  Status, FailureReason, status_text, reason_text, parse_status, parse_failure_reason,
  parse_derivation_failure_reason,
}
use payrune.Domain.Tracking.{Tracking}
use payrune.Domain.Values.{
  address_schemes, new_address_policy_id, parse_chain_id, parse_network_id, parse_supported_chain,
  bitcoin, ethereum, parse_address_scheme,
}
use payrune.Domain.Values.Laws.{HasValue, parse_address_scheme_self, parse_supported_chain_self}
use payrune.Ports.Records.{
  parse_if_set, tracking_from_record, record_from_tracking, allocation_from_record,
  record_from_allocation,
}

-- The texts of a tracking are in normal form and its status is set.
pub record IsStorable (t : Tracking) : Type 0 where
  pub policy_id : is_portable_id t.address_policy_id ≡ true
  pub chain : is_portable_id t.chain ≡ true
  pub network : is_portable_id t.network ≡ true
  pub status : t.status ≢ Status.unset

pub parse_status_self : (s : Status) → s ≢ Status.unset → parse_status (status_text s) ≡ some s
unfolding parse_status to_lower lower trim_space trim_left is_space
parse_status_self Status.watching h = refl
parse_status_self Status.partially_paid h = refl
parse_status_self Status.paid_unconfirmed h = refl
parse_status_self Status.paid_unconfirmed_reverted h = refl
parse_status_self Status.paid_confirmed h = refl
parse_status_self Status.failed_expired h = refl
parse_status_self Status.unset h = absurd (h refl)

parse_reason_self :
    (r : FailureReason)
    → parse_if_set (reason_text r) parse_failure_reason FailureReason.unset ≡ ok r
unfolding parse_if_set parse_failure_reason to_lower lower trim_space trim_left is_space
parse_reason_self FailureReason.tracking_invalid = refl
parse_reason_self FailureReason.latest_block_height_unavailable = refl
parse_reason_self FailureReason.observation_failed = refl
parse_reason_self FailureReason.tracking_update_failed = refl
parse_reason_self FailureReason.payment_window_expired = refl
parse_reason_self FailureReason.processing_failed = refl
parse_reason_self FailureReason.unset = refl

new_id_self : (id : Text) → is_portable_id id ≡ true → new_address_policy_id id ≡ ok id
unfolding new_address_policy_id
new_id_self id h = ground (arith, parse_id_self id h)

chain_id_self : (id : Text) → is_portable_id id ≡ true → parse_chain_id id ≡ some id
unfolding parse_chain_id
chain_id_self id h = parse_id_self id h

network_id_self : (id : Text) → is_portable_id id ≡ true → parse_network_id id ≡ some id
unfolding parse_network_id
network_id_self id h = parse_id_self id h

-- A tracking whose texts are in normal form comes back from its record as it was.
pub tracking_from_record-record_from_tracking :
    (t : Tracking) → IsStorable t → tracking_from_record (record_from_tracking t) ≡ ok t
unfolding tracking_from_record record_from_tracking
tracking_from_record-record_from_tracking t s = rw (new_id_self t.address_policy_id s.policy_id) (
    rw (chain_id_self t.chain s.chain) (
      rw (network_id_self t.network s.network)
        (rw (parse_status_self t.status s.status) (rw (parse_reason_self t.last_failure_reason)))))

-- The texts of an allocation are empty or in normal form.
pub record IsAllocationStorable (a : Allocation) : Type 0 where
  pub policy_id : is_portable_id a.address_policy_id ≡ true
  pub chain : (a.chain ≡ []) ⊎ (a.chain ≡ bitcoin) ⊎ (a.chain ≡ ethereum)
  pub network : (a.network ≡ []) ⊎ (is_portable_id a.network ≡ true)
  pub scheme : (a.scheme ≡ []) ⊎ HasValue address_schemes a.scheme
  pub reason :
      (a.derivation_failure_reason ≡ []) ⊎ (a.derivation_failure_reason ≡ codes "derivation_failed")

set_or_empty :
    (raw : Text) (parse : Text → Option Text)
    → (raw ≡ []) ⊎ (parse raw ≡ some raw)
    → parse_if_set raw parse [] ≡ ok raw
unfolding parse_if_set
set_or_empty [] parse h = refl
set_or_empty (c ∷ s) parse h = ground arith

reason_self :
    parse_derivation_failure_reason (codes "derivation_failed") ≡ some (codes "derivation_failed")
unfolding parse_derivation_failure_reason to_lower lower trim_space trim_left is_space
reason_self = refl

-- An allocation whose texts are empty or in normal form comes back from its record as it was.
pub allocation_from_record-record_from_allocation :
    (a : Allocation)
    → IsAllocationStorable a
    → allocation_from_record (record_from_allocation a) ≡ ok a
unfolding allocation_from_record record_from_allocation
allocation_from_record-record_from_allocation a s =
    rw (new_id_self a.address_policy_id s.policy_id) (
      rw
        (set_or_empty a.chain parse_supported_chain
          (elim s.chain [ inl e ↦ inl e | inr k ↦ inr (parse_supported_chain_self a.chain k) ]))
        (rw
          (set_or_empty a.network parse_network_id
            (elim s.network [ inl e ↦ inl e | inr k ↦ inr (network_id_self a.network k) ]))
          (rw
            (set_or_empty a.scheme parse_address_scheme (elim s.scheme [
              | inl e ↦ inl e
              | inr k ↦ inr (parse_address_scheme_self a.scheme k)
            ]))
            (rw (
              set_or_empty a.derivation_failure_reason parse_derivation_failure_reason
                (elim s.reason [ inl e ↦ inl e | inr k ↦ inr (rw k reason_self) ]))))))
