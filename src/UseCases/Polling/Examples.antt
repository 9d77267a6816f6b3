-- ===== src/UseCases/Polling/Examples.antt =====
-- Tests and examples of the polling cycle on concrete rows.
use payrune.Prelude.{ℕ, ◌≡◌, refl, none, some, [], ◌∷◌, ◌≤◌, Option}
use payrune.Prelude.Int.{pos, ◌+ℤ◌, add64}
use payrune.Text.{codes, trim_space, trim_left, is_space, to_lower, lower, byte_len}
use payrune.Text.Id.{parse_id, is_id_char}
use payrune.Result.{ok, err}
use payrune.Domain.Observation.{validate}
use payrune.Domain.Status.{watching, FailureReason, parse_status, payment_receipt_statuses, ◌==ˢ◌}
use payrune.Domain.StatusChanged.{new_status_changed}
use payrune.Domain.Tracking.{
  Tracking, observed, apply_observation, expire_if_due, status_changed_event, decide_status,
  mark_at, is_expired, can_expire,
}
use payrune.Domain.Values.{
  bitcoin, mainnet, new_address_policy_id, parse_address_policy_id, parse_chain_id,
  parse_network_id,
}
use payrune.Ports.Error.{tracking_store_not_configured}
use payrune.Ports.Records.{
  tracking_from_record, record_from_tracking, record_from_status_changed, parse_if_set,
}
use payrune.Ports.World.{begin, World, within_transaction, finish, UnitOfWork}
use payrune.UseCases.Polling.{
  observe_input, cached, remember, fetch_latest, save_and_enqueue, save_steps, enqueue, save_error,
  trackings_from_records, Caches, Input, Output, UseCase, no_caches, Error,
}
use payrune.UseCases.Polling.Cycle.{
  execute, prepare, claim_steps, parse_filter, poll_all, count, process_tracking,
  observe_and_settle, settle_observed, settle, output_for,
}
use payrune.UseCases.Polling.Totals.{Progress, poll_all-Progress, execute_totals}
use payrune.UseCases.Store.{no_rows, clock, Rows, start, unit_of_work, observer, trackings}

abbrev watched : Tracking
watched = record {
  tracking_id = pos 3;
  payment_address_id = pos 7;
  address_policy_id = codes "btc";
  chain = bitcoin;
  network = mainnet;
  address = codes "bc1q";
  asset_reference = [];
  issued_at = pos 10;
  expected_amount = pos 1000;
  required_confirmations = pos 2;
  status = watching;
  observed_total = pos 0;
  confirmed_total = pos 0;
  unconfirmed_total = pos 0;
  last_observed_block_height = pos 5;
  first_observed_at = none;
  paid_at = none;
  confirmed_at = none;
  expires_at = some (pos 100);
  last_failure_reason = FailureReason.unset;
}

-- the maps and the world after one step
abbrev fetched_caches : Caches
fetched_caches = record { heights = ((bitcoin, mainnet), pos 6) ∷ []; errors = [] }

abbrev stepped : World Rows ℕ
stepped = (process_tracking unit_of_work observer watched (pos 50) (pos 60) no_caches start).1

abbrev polled : World Rows ℕ
polled =
    (poll_all unit_of_work observer (pos 50) (pos 60) (watched ∷ []) (output_for 1) no_caches
      start).1

abbrev one_updated : Output
one_updated = record { claimed = 1; updated = 1; terminal_failed = 0; processing_errors = 0 }

poll_all_one :
    poll_all unit_of_work observer (pos 50) (pos 60) (watched ∷ []) (output_for 1) no_caches start
    ≡ ((one_updated, none), polled)
unfolding poll_all count process_tracking observe_input fetch_latest cached remember
    observe_and_settle settle_observed apply_observation validate add64 observed decide_status
    mark_at settle expire_if_due is_expired can_expire save_and_enqueue status_changed_event
    new_status_changed ◌==ˢ◌ save_steps enqueue within_transaction finish begin
poll_all_one = refl

poll_all-Progress_example :
    Progress observer unit_of_work.scope
      (pos 50)
      (pos 60)
      (watched ∷ [])
      (output_for 1)
      one_updated
      none
      start.db
      polled.db
poll_all-Progress_example =
    poll_all-Progress unit_of_work observer (pos 50) (pos 60) (watched ∷ []) (output_for 1)
      one_updated no_caches start polled none poll_all_one

abbrev use_case : UseCase Rows ℕ
use_case = record { unit_of_work = some unit_of_work; observer = some observer; clock = some clock }

abbrev cycle : Input
cycle = record {
  batch_size = pos 5;
  reschedule_interval = pos 10;
  claim_ttl = pos 10;
  chain = [];
  network = [];
}

abbrev stored : World Rows ℕ
stored = record start { db = record no_rows { trackings = record_from_tracking watched ∷ [] } }

abbrev after_cycle : World Rows ℕ
after_cycle = (execute use_case cycle stored).1

cycle_runs : execute use_case cycle stored ≡ ((one_updated, none), after_cycle)
unfolding execute prepare claim_steps parse_filter trackings_from_records tracking_from_record
    record_from_tracking record_from_status_changed new_address_policy_id parse_address_policy_id
    parse_id parse_chain_id parse_network_id parse_status parse_if_set payment_receipt_statuses
    trim_space trim_left is_space to_lower lower byte_len is_id_char poll_all count ◌+ℤ◌
    process_tracking observe_input fetch_latest cached remember observe_and_settle settle_observed
    apply_observation validate add64 observed decide_status mark_at settle expire_if_due is_expired
    can_expire save_and_enqueue status_changed_event new_status_changed ◌==ˢ◌ save_steps enqueue
    within_transaction finish begin
cycle_runs = refl

execute_totals_example : (1 ≤ 1) × (◌≡◌ {A = Option Error} none none → ◌≡◌ {A = ℕ} 1 1)
execute_totals_example =
    execute_totals use_case cycle stored after_cycle one_updated none cycle_runs

-- a store that fails
abbrev failing : UnitOfWork Rows ℕ
failing = record unit_of_work { scope = record unit_of_work.scope { tracking = none } }

abbrev failed_step : World Rows ℕ
failed_step = (process_tracking failing observer watched (pos 50) (pos 60) no_caches start).1

step_fails :
    process_tracking failing observer watched (pos 50) (pos 60) no_caches start
    ≡ (err tracking_store_not_configured, failed_step)
unfolding process_tracking observe_input fetch_latest cached remember observe_and_settle
    settle_observed apply_observation validate add64 observed decide_status mark_at settle
    expire_if_due is_expired can_expire save_and_enqueue status_changed_event new_status_changed
    ◌==ˢ◌ save_steps enqueue within_transaction finish begin save_error
step_fails = refl

first_fetch :
    fetch_latest observer watched no_caches start ≡ (ok (ok (pos 6), fetched_caches), start)
unfolding fetch_latest cached remember
first_fetch = refl
