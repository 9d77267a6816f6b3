-- ===== src/UseCases/Polling/Cycle.antt =====
-- processTracking and Execute of internal/application/usecases/run_receipt_polling_cycle_use_case.go.
use payrune.Prelude.{
  ℕ, ◌+◌, not, ◌&&◌, Option, none, some, List, [], ◌∷◌, map, length, if◌then◌else◌,
}
use payrune.Prelude.Int.{ℤ, pos, leb_ℤ}
use payrune.Text.{Text, is_empty}
use payrune.Result.{Result, ok, err, require}
use payrune.Time.{Time, is_zero, add}
use payrune.Domain.Status.{
  status_text, pollable_statuses, FailureReason, tracking_invalid, latest_block_height_unavailable,
  observation_failed, tracking_update_failed,
}
use payrune.Domain.Tracking.{Tracking, apply_observation, expire_if_due}
use payrune.Domain.Values.{parse_chain_id, parse_network_id}
use payrune.Ports.Error.{
  Error, chain_not_supported, dependency_failure, internal_failure, unit_of_work_not_configured,
  clock_not_configured, observer_not_configured, tracking_store_not_configured, batch_size_invalid,
  poll_chain_required,
}
use payrune.Ports.Outside.{ObserveOutput, Observer}
use payrune.Ports.World.{
  guard, World, Action, pure, attempt, on_error, configured, on_db, on_ext, lift, ◌>>=◌, ◌>>◌,
  UnitOfWork, TxScope, within_transaction, now,
}
use payrune.UseCases.Polling.{
  Caches, Input, Outcome, Output, UseCase, claim_error, fetch_latest, no_caches, observe_input,
  save_and_enqueue, save_polling_failure, trackings_from_records, observation_of, processing_error,
}

module _ {D X : Type 0} where
  -- The end of processTracking, from the observed tracking on.
  unfoldable pub settle : UnitOfWork D X → Tracking → Tracking → Time → Time → Action D X Outcome
  settle u t new at next_poll_at = do
    (final, expired) ← lift (expire_if_due new at) (λ _. internal_failure)
    if expired
        then (do save_and_enqueue u final t.status at next_poll_at; pure Outcome.terminal_failed)
        else (do save_and_enqueue u new t.status at next_poll_at; pure Outcome.updated)

  -- A branch of processTracking that records why the tracking was not updated.
  unfoldable pub fail_tracking :
      UnitOfWork D X → Tracking → FailureReason → Time → Time → Action D X Outcome
  fail_tracking u t reason at next_poll_at = do
    save_polling_failure u t reason at next_poll_at
    pure processing_error

  -- processTracking after ObserveAddress
  unfoldable pub settle_observed :
      UnitOfWork D X → Tracking → Result Error ObserveOutput → Time → Time → Action D X Outcome
  settle_observed u t (err _) at next_poll_at = fail_tracking u t observation_failed at next_poll_at
  settle_observed u t (ok output) at next_poll_at =
      elim (apply_observation t (observation_of output) at) [
        | err _ ↦ fail_tracking u t tracking_update_failed at next_poll_at
        | ok new ↦ settle u t new at next_poll_at
      ]

  -- processTracking after the fetch of the height
  unfoldable pub observe_and_settle :
      UnitOfWork D X → Observer X → Tracking → Result Error ℤ → Time → Time → Action D X Outcome
  observe_and_settle u o t (err _) at next_poll_at =
      fail_tracking u t latest_block_height_unavailable at next_poll_at
  observe_and_settle u o t (ok height) at next_poll_at = do
    observation ← attempt (on_ext (o.observe_address (observe_input t height)))
    settle_observed u t observation at next_poll_at

  -- processTracking; the maps after the call come second.
  unfoldable pub process_tracking :
      UnitOfWork D X → Observer X → Tracking → Time → Time → Caches → Action D X (Outcome × Caches)
  process_tracking u o t at next_poll_at c =
      if is_zero t.issued_at
      then (do outcome ← fail_tracking u t tracking_invalid at next_poll_at; pure (outcome, c))
      else (do
        (height, c') ← fetch_latest o t c
        outcome ← observe_and_settle u o t height at next_poll_at
        pure (outcome, c'))

  -- the steps of the transaction that claims
  unfoldable pub claim_steps : Input → Time → TxScope D → Action D X (List Tracking)
  claim_steps input at scope = do
    store ← configured scope.tracking tracking_store_not_configured
    records ←
        on_error (λ _. dependency_failure)
          (on_db (
            store.claim_due (record {
              now = at;
              limit = input.batch_size;
              claim_until = add at input.claim_ttl;
              chain = input.chain;
              network = input.network;
              statuses = map status_text pollable_statuses;
            })))
    lift (trackings_from_records records) (λ e. e)

unfoldable pub count : Outcome → Output → Output
count Outcome.updated o = record o { updated = o.updated + 1 }
count Outcome.terminal_failed o = record o { terminal_failed = o.terminal_failed + 1 }
count processing_error o = record o { processing_errors = o.processing_errors + 1 }

-- `input.Chain` or `input.Network` with its parser
unfoldable pub parse_filter : (Text → Option Text) → Text → Result Error Text
parse_filter parse raw = if is_empty raw then ok raw else require (parse raw) chain_not_supported

abbrev pub output_for : ℕ → Output
output_for claimed = record {
  claimed = claimed;
  updated = 0;
  terminal_failed = 0;
  processing_errors = 0;
}

-- What Execute has before its loop.
pub record Job (D X : Type 0) : Type 0 where
  pub unit_of_work : UnitOfWork D X
  pub observer : Observer X
  pub at : Time
  pub trackings : List Tracking

module _ {D X : Type 0} where
  -- Execute before the loop
  unfoldable pub prepare : UseCase D X → Input → Action D X (Job D X)
  unfolding parse_filter
  prepare uc input = do
    u ← configured uc.unit_of_work unit_of_work_not_configured
    o ← configured uc.observer observer_not_configured
    clock ← configured uc.clock clock_not_configured
    guard (leb_ℤ input.batch_size (pos 0)) batch_size_invalid (do
      at ← now clock
      guard (not (is_empty input.network) && is_empty input.chain) poll_chain_required (do
        chain ← lift (parse_filter parse_chain_id input.chain) (λ e. e)
        network ← lift (parse_filter parse_network_id input.network) (λ e. e)
        let parsed = record input { chain = chain; network = network }
        trackings ← on_error claim_error (within_transaction u (claim_steps parsed at))
        pure (record { unit_of_work = u; observer = o; at = at; trackings = trackings })))

  -- The loop of Execute: the output so far comes back beside an error.
  unfoldable pub poll_all :
      UnitOfWork D X
      → Observer X
      → Time
      → Time
      → List Tracking
      → Output
      → Caches
      → World D X
      → (Output × Option Error) × World D X
  poll_all u o at next_poll_at [] output c w = ((output, none), w)
  poll_all u o at next_poll_at (t ∷ ts) output c w =
      let (r, w') = process_tracking u o t at next_poll_at c w in
      elim r [
        | err e ↦ ((output, some e), w')
        | ok (outcome, c') ↦ poll_all u o at next_poll_at ts (count outcome output) c' w'
      ]

  -- Execute
  unfoldable pub execute : UseCase D X → Input → World D X → (Output × Option Error) × World D X
  execute uc input w =
      let (r, w') = prepare uc input w in
      elim r [
        | err e ↦ ((output_for 0, some e), w')
        | ok job ↦
            poll_all job.unit_of_work job.observer job.at (add job.at input.reschedule_interval)
              job.trackings (output_for (length job.trackings)) no_caches w'
      ]
