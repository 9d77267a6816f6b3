-- ===== src/UseCases/Polling.antt =====
-- internal/application/usecases/run_receipt_polling_cycle_use_case.go. The two maps of a cycle are
-- association lists that the cycle passes on. `execute` returns the output also beside an error,
-- as the source does.
pub mod Cycle
pub mod Caching
pub mod Atomic
pub mod Saved
pub mod Writes
pub mod Errors
pub mod Working
pub mod Totals
mod Examples
use payrune.Prelude.{
  ℕ, ◌+◌, not, ◌&&◌, Option, none, some, List, [], ◌∷◌, map, length, if◌then◌else◌,
}
use payrune.Prelude.Int.{ℤ, pos, leb_ℤ}
use payrune.Text.{Text, ◌==ᵗ◌, is_empty}
use payrune.Result.{Result, ok, err, require}
use payrune.Time.{Time, Duration, is_zero, add}
use payrune.Domain.Observation.{Observation}
use payrune.Domain.Status.{
  Status, status_text, pollable_statuses, FailureReason, tracking_invalid,
  latest_block_height_unavailable, observation_failed, tracking_update_failed,
}
use payrune.Domain.StatusChanged.{StatusChanged}
use payrune.Domain.Tracking.{
  Tracking, apply_observation, mark_polling_failure, expire_if_due, status_changed_event,
}
use payrune.Domain.Values.{parse_chain_id, parse_network_id}
use payrune.Ports.Error.{
  Error, chain_not_supported, dependency_failure, internal_failure, unit_of_work_not_configured,
  clock_not_configured, observer_not_configured, tracking_store_not_configured,
  outbox_not_configured, batch_size_invalid, poll_chain_required,
}
use payrune.Ports.Outside.{ObserveInput, ObserveOutput, Observer}
use payrune.Ports.Records.{
  TrackingRecord, tracking_from_record, record_from_tracking, record_from_status_changed,
}
use payrune.Ports.World.{
  guard, World, Action, pure, attempt, on_error, configured, on_db, on_ext, lift, ◌>>=◌, ◌>>◌,
  UnitOfWork, TxScope, within_transaction, Clock, now,
}

-- runReceiptPollingCycleUseCase; a nil port is `none`.
pub record UseCase (D X : Type 0) : Type 0 where
  pub unit_of_work : Option (UnitOfWork D X)
  pub observer : Option (Observer X)
  pub clock : Option (Clock X)

-- RunReceiptPollingCycleInput
pub record Input : Type 0 where
  pub batch_size : ℤ
  pub reschedule_interval : Duration
  pub claim_ttl : Duration
  pub chain : Text
  pub network : Text

-- RunReceiptPollingCycleOutput
pub record Output : Type 0 where
  pub claimed : ℕ
  pub updated : ℕ
  pub terminal_failed : ℕ
  pub processing_errors : ℕ

-- receiptPollingTrackingResult
pub data Outcome : Type 0 where
  updated terminal_failed processing_error : Outcome

-- receiptPollingScopeKey
abbrev pub ScopeKey : Type 0
ScopeKey = Text × Text

-- the maps latestBlockHeights and latestBlockHeightErrs
pub record Caches : Type 0 where
  pub heights : List (ScopeKey × ℤ)
  pub errors : List (ScopeKey × Error)

abbrev pub no_caches : Caches
no_caches = record { heights = []; errors = [] }

unfoldable pub cached : {A : Type 0} → List (ScopeKey × A) → ScopeKey → Option A
cached [] k = none
cached (((chain, network), a) ∷ m) k =
    if chain ==ᵗ k.0 && network ==ᵗ k.1 then some a else cached m k

-- what a call of the observer leaves in the maps
unfoldable pub remember : ScopeKey → Result Error ℤ → Caches → Caches
remember key (err e) c = record c { errors = (key, e) ∷ c.errors }
remember key (ok height) c = record c { heights = (key, height) ∷ c.heights }

-- the `switch` on the error of a transaction that saves a failure
unfoldable pub failure_save_error : Error → Error
failure_save_error tracking_store_not_configured = tracking_store_not_configured
failure_save_error _ = dependency_failure

-- that of a transaction that saves a tracking and its event
unfoldable pub save_error : Error → Error
save_error tracking_store_not_configured = tracking_store_not_configured
save_error outbox_not_configured = outbox_not_configured
save_error _ = dependency_failure

-- that of the transaction that claims
unfoldable pub claim_error : Error → Error
claim_error tracking_store_not_configured = tracking_store_not_configured
claim_error internal_failure = internal_failure
claim_error _ = dependency_failure

-- the loop over the claimed records
unfoldable pub trackings_from_records : List TrackingRecord → Result Error (List Tracking)
trackings_from_records [] = ok []
trackings_from_records (r ∷ rs) = elim (tracking_from_record r) [
  | err _ ↦ err internal_failure
  | ok t ↦ elim (trackings_from_records rs) [ err e ↦ err e | ok ts ↦ ok (t ∷ ts) ]
]

-- the argument of ObserveAddress
unfoldable pub observe_input : Tracking → ℤ → ObserveInput
observe_input t height = record {
  asset_reference = t.asset_reference;
  chain = t.chain;
  network = t.network;
  address = t.address;
  issued_at = t.issued_at;
  observed_total = t.observed_total;
  confirmed_total = t.confirmed_total;
  unconfirmed_total = t.unconfirmed_total;
  required_confirmations = t.required_confirmations;
  latest_block_height = height;
  since_block_height = t.last_observed_block_height;
}

abbrev pub observation_of : ObserveOutput → Observation
observation_of o = record {
  observed_total = o.observed_total;
  confirmed_total = o.confirmed_total;
  unconfirmed_total = o.unconfirmed_total;
  latest_block_height = o.latest_block_height;
}

module _ {D X : Type 0} where
  -- fetchLatestBlockHeightForTracking; the maps after the call come second.
  unfoldable pub fetch_latest :
      Observer X → Tracking → Caches → Action D X (Result Error ℤ × Caches)
  unfolding remember
  fetch_latest o t c w =
      let key : ScopeKey = (t.chain, t.network) in
      elim (cached c.heights key) [
        | some height ↦ (ok (ok height, c), w)
        | none ↦ elim (cached c.errors key) [
          | some e ↦ (ok (err e, c), w)
          | none ↦
              let (r, x) = o.fetch_latest_block_height t.chain t.network w.ext in
              (ok (r, remember key r c), record w { ext = x })
        ]
      ]

  -- the steps of savePollingFailure in its transaction
  unfoldable pub save_failure_steps : Tracking → Time → Time → TxScope D → Action D X Unit
  save_failure_steps t at next_poll_at scope = do
    store ← configured scope.tracking tracking_store_not_configured
    on_error (λ _. dependency_failure) (on_db (store.save (record_from_tracking t) at next_poll_at))

  -- savePollingFailure
  unfoldable pub save_polling_failure :
      UnitOfWork D X → Tracking → FailureReason → Time → Time → Action D X Unit
  save_polling_failure u t reason at next_poll_at = do
    failed ← lift (mark_polling_failure t reason) (λ _. internal_failure)
    on_error failure_save_error (within_transaction u (save_failure_steps failed at next_poll_at))

  unfoldable pub enqueue : Option StatusChanged → TxScope D → Action D X Unit
  enqueue none scope = pure tt
  enqueue (some event) scope = do
    outbox ← configured scope.outbox outbox_not_configured
    on_error (λ _. dependency_failure)
        (on_db (outbox.enqueue_status_changed (record_from_status_changed event)))

  -- the steps of saveTrackingAndMaybeEnqueueStatusChanged in its transaction
  unfoldable pub save_steps :
      Tracking → Option StatusChanged → Time → Time → TxScope D → Action D X Unit
  unfolding enqueue
  save_steps t event at next_poll_at scope = do
    store ← configured scope.tracking tracking_store_not_configured
    on_error (λ _. dependency_failure) (on_db (store.save (record_from_tracking t) at next_poll_at))
    enqueue event scope

  -- saveTrackingAndMaybeEnqueueStatusChanged
  unfoldable pub save_and_enqueue :
      UnitOfWork D X → Tracking → Status → Time → Time → Action D X Unit
  save_and_enqueue u t previous at next_poll_at = do
    event ← lift (status_changed_event t previous at) (λ _. internal_failure)
    on_error save_error (within_transaction u (save_steps t event at next_poll_at))
