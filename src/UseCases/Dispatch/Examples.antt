-- ===== src/UseCases/Dispatch/Examples.antt =====
-- Tests and examples of the dispatch cycle on concrete rows.
use payrune.Prelude.{ℕ, ◌≡◌, refl, none, some, [], ◌∷◌}
use payrune.Prelude.Int.{pos, ◌+ℤ◌}
use payrune.Text.{codes}
use payrune.Result.{ok, err}
use payrune.Ports.Delivery.{DeliveryResult, mark_sent}
use payrune.Ports.Error.{outbox_not_configured}
use payrune.Ports.Records.{PolicyRecord}
use payrune.Ports.Stores.{OutboxMessage}
use payrune.Ports.Validation.{sent, pending}
use payrune.Ports.World.{begin, World, within_transaction, finish, UnitOfWork}
use payrune.UseCases.Dispatch.{
  outbox_error, UseCase, Ports, Input, Output, process_notification, find_policy, deliver,
  delivery_result, save_delivery_result, save_result_steps, execute, prepare, claim_steps,
  dispatch_all, count,
}
use payrune.UseCases.Dispatch.Delivers.{
  ResultSaved, process_notification-ResultSaved, told, result_of,
}
use payrune.UseCases.Store.{Rows, start, unit_of_work, clock, policies, accepting, outbox}

abbrev message : OutboxMessage
message = record {
  notification_id = pos 9;
  payment_address_id = pos 7;
  address_policy_id = codes "btc";
  customer_reference = [];
  previous_status = codes "watching";
  current_status = codes "paid_unconfirmed";
  observed_total = pos 1000;
  confirmed_total = pos 0;
  unconfirmed_total = pos 1000;
  status_changed_at = pos 40;
  delivery_status = pending;
  delivery_attempts = pos 0;
  next_attempt_at = pos 40;
  last_failure_reason = [];
  delivered_at = none;
}

abbrev one_message : UnitOfWork Rows ℕ
one_message = record unit_of_work {
  scope = record unit_of_work.scope {
    outbox = some (record outbox { claim_pending = λ i d. (ok (message ∷ []), d) });
  };
}

abbrev ports : Ports Rows ℕ
ports = record {
  unit_of_work = one_message;
  policy_reader = policies;
  notifier = accepting;
  clock = clock;
}

abbrev cycle : Input
cycle = record {
  batch_size = pos 5;
  dispatch_ttl = pos 10;
  max_attempts = pos 3;
  retry_delay = pos 10;
}

abbrev delivered : World Rows ℕ
delivered = (process_notification ports message cycle start).1

delivery : process_notification ports message cycle start ≡ (ok sent, delivered)
unfolding process_notification find_policy deliver delivery_result mark_sent save_delivery_result
    save_result_steps within_transaction finish begin
delivery = refl

process_notification-ResultSaved_example :
    let (found, x) = policies.find_issuance_by_id message.address_policy_id start.ext in
    (policy : PolicyRecord) × (result : DeliveryResult) × (found ≡ ok (some policy))
    × (result_of cycle message
          (accepting.notify_status_changed (told message policy) x).0
          (clock.now_utc (accepting.notify_status_changed (told message policy) x).1).0
        ≡ ok result)
    × (sent ≡ result.status)
    × ResultSaved one_message.scope result start.db delivered.db
process_notification-ResultSaved_example =
    process_notification-ResultSaved ports message cycle start delivered sent delivery

abbrev no_outbox : Ports Rows ℕ
no_outbox = record ports {
  unit_of_work = record unit_of_work { scope = record unit_of_work.scope { outbox = none } };
}

abbrev undelivered : World Rows ℕ
undelivered = (process_notification no_outbox message cycle start).1

delivery_fails :
    process_notification no_outbox message cycle start ≡ (err outbox_not_configured, undelivered)
unfolding process_notification find_policy deliver delivery_result mark_sent save_delivery_result
    save_result_steps within_transaction finish begin outbox_error
delivery_fails = refl

abbrev use_case : UseCase Rows ℕ
use_case = record {
  unit_of_work = some one_message;
  policy_reader = some policies;
  notifier = some accepting;
  clock = some clock;
}

abbrev one_sent : Output
one_sent = record { claimed = 1; sent_count = 1; retried_count = 0; failed_count = 0 }

abbrev after_cycle : World Rows ℕ
after_cycle = (execute use_case cycle start).1

cycle_runs : execute use_case cycle start ≡ ((one_sent, none), after_cycle)
unfolding execute prepare claim_steps dispatch_all count process_notification find_policy deliver
    delivery_result mark_sent save_delivery_result save_result_steps within_transaction finish begin
    ◌+ℤ◌
cycle_runs = refl
