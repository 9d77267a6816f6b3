-- ===== src/Domain/Tracking/History.antt =====
-- A tracking over a whole sequence of observations, such as the polling cycles make.
use mathlib.Core.Path.{subst}
use payrune.Prelude.{
  refl, Bool, Option, none, some, List, [], ◌∷◌, ◌≡◌, arith, if◌then◌else◌, All, ◌++◌, is_some,
  true, false,
}
use payrune.Prelude.Int.{ℤ, pos, leb_ℤ, ltb_ℤ, eqb_ℤ}
use payrune.Result.{ok_injective, Result, ok, ◌>>=◌, >>=-eq-ok, err}
use payrune.Time.{Time}
use payrune.Domain.Error.{Error}
use payrune.Domain.Observation.{Observation, IsInRange}
use payrune.Domain.Status.{
  paid_confirmed, paid_unconfirmed, paid_unconfirmed_reverted, watching, partially_paid,
}
use payrune.Domain.Tracking.{Tracking, observed, apply_observation, expire_if_due}
use payrune.Domain.Tracking.Invariant.{IsValid, apply_observation-eq-ok, apply_observation-IsValid}

abbrev pub Sightings : Type 0
Sightings = List (Observation × Time)

-- ApplyObservation for each sighting in turn.
unfoldable pub observe_all : Tracking → Sightings → Result Error Tracking
observe_all t [] = ok t
observe_all t ((o, at) ∷ rest) = apply_observation t o at >>= λ t'. observe_all t' rest

-- The time of the first sighting that passes a test.
abbrev pub first_time : (Observation → Bool) → Sightings → Option Time
first_time p [] = none
first_time p ((o, at) ∷ rest) = if p o then some at else first_time p rest

abbrev pub or_else : Option Time → Option Time → Option Time
or_else none y = y
or_else (some x) y = some x

abbrev pub pays : ℤ → Observation → Bool
pays amount o = leb_ℤ amount o.observed_total

abbrev pub confirms : ℤ → Observation → Bool
confirms amount o = leb_ℤ amount o.confirmed_total

observed_times :
    (t : Tracking) (o : Observation) (at : Time)
    → let t' = observed t o at in
      (t'.expected_amount ≡ t.expected_amount)
      × (t'.first_observed_at
          ≡ or_else t.first_observed_at (if ltb_ℤ (pos 0) o.observed_total then some at else none))
      × (t'.paid_at ≡ or_else t.paid_at (if pays t.expected_amount o then some at else none))
      × (t'.confirmed_at
          ≡ or_else t.confirmed_at (if confirms t.expected_amount o then some at else none))
unfolding observed
observed_times t o at = ground arith

-- The milestones after any sequence of accepted sightings are those of the start, or else the times
-- of the first sighting of any payment, of the full amount, and of the full amount confirmed.
pub observe_all_milestones :
    (t : Tracking) (s : Sightings) {t' : Tracking}
    → observe_all t s ≡ ok t'
    → (t'.expected_amount ≡ t.expected_amount)
      × (t'.first_observed_at
          ≡ or_else t.first_observed_at (first_time (λ o. ltb_ℤ (pos 0) o.observed_total) s))
      × (t'.paid_at ≡ or_else t.paid_at (first_time (pays t.expected_amount) s))
      × (t'.confirmed_at ≡ or_else t.confirmed_at (first_time (confirms t.expected_amount) s))
unfolding observe_all
observe_all_milestones t [] h = ground arith
observe_all_milestones t ((o, at) ∷ rest) h =
    let (t1, first, later) = >>=-eq-ok (apply_observation t o at) _ h in
    let (_, _, e) = apply_observation-eq-ok t o at first in
    ground (arith, observed_times t o at, observe_all_milestones t1 rest later)

observe_all-IsValid :
    (t : Tracking) (s : Sightings) {t' : Tracking}
    → IsValid t
    → All (λ x. IsInRange x.0) s
    → observe_all t s ≡ ok t'
    → IsValid t'
unfolding observe_all
observe_all-IsValid t [] v r h = subst IsValid (ok_injective h) v
observe_all-IsValid t ((o, at) ∷ rest) v r h =
    let (t1, first, later) = >>=-eq-ok (apply_observation t o at) _ h in
    observe_all-IsValid t1 rest (apply_observation-IsValid t o at v r.0 first) r.1 later

-- Once a sighting has shown the full amount, the tracking never expires, whatever came after.
pub paid_never_expires :
    (t : Tracking) (s : Sightings) (now : Time) {t' : Tracking}
    → observe_all t s ≡ ok t'
    → is_some (first_time (pays t.expected_amount) s) ≡ true
    → expire_if_due t' now ≡ ok (t', false)
unfolding expire_if_due
paid_never_expires t s now h paid = ground (arith, observe_all_milestones t s h)

observe_all-append :
    (t : Tracking) (s : Sightings) (o : Observation) (at : Time)
    → observe_all t (s ++ (o, at) ∷ []) ≡ (observe_all t s >>= λ u. apply_observation u o at)
unfolding observe_all
observe_all-append t [] o at = ground arith
observe_all-append t ((p, when) ∷ rest) o at =
    elim (apply_observation t p when)
      as (λ r.
        (r >>= λ u. observe_all u (rest ++ (o, at) ∷ []))
        ≡ ((r >>= λ u. observe_all u rest) >>= λ u. apply_observation u o at)) [
          | ok u ↦ observe_all-append u rest o at
          | err e ↦ refl
        ]

-- The status after the last sighting depends on that sighting alone, and on whether an earlier one
-- showed the full amount.
pub observe_all_status :
    (t : Tracking) (s : Sightings) (o : Observation) (at : Time) {t' : Tracking}
    → t.paid_at ≡ none
    → observe_all t (s ++ (o, at) ∷ []) ≡ ok t'
    → t'.status ≡ (
        if confirms t.expected_amount o
        then paid_confirmed
        else if pays t.expected_amount o
        then paid_unconfirmed
        else if is_some (first_time (pays t.expected_amount) s)
        then paid_unconfirmed_reverted
        else if eqb_ℤ o.observed_total (pos 0)
        then watching
        else partially_paid)
unfolding observed
observe_all_status t s o at unpaid h =
    let (u, before, last) = >>=-eq-ok (observe_all t s) _ (rw (observe_all-append t s o at) at h) in
    let (_, _, e) = apply_observation-eq-ok u o at last in
    ground (arith, observe_all_milestones t s before)
