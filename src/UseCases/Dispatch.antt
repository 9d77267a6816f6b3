-- ===== src/UseCases/Dispatch.antt =====
-- internal/application/usecases/run_receipt_webhook_dispatch_cycle_use_case.go. `execute` returns
-- the output also beside an error, as the source does.
pub mod Delivers
pub mod Totals
mod Examples
use payrune.Prelude.{ℕ, ◌+◌, Bool, Option, none, some, List, [], ◌∷◌, length, if◌then◌else◌}
use payrune.Prelude.Int.{ℤ, pos, leb_ℤ}
use payrune.Text.{Text, ◌==ᵗ◌, trim_space}
use payrune.Result.{Result, ok, err}
use payrune.Time.{Time, Duration, add}
use payrune.Ports.Delivery.{DeliveryResult, mark_sent, resolve_failure}
use payrune.Ports.Error.{
  Error, dependency_failure, internal_failure, unit_of_work_not_configured,
  payment_address_policy_not_configured, outbox_not_configured, batch_size_invalid,
  notifier_not_configured, policy_reader_not_configured, clock_not_configured, max_attempts_invalid,
  retry_delay_invalid,
}
use payrune.Ports.Outside.{PolicyReader, NotifyInput, Notifier}
use payrune.Ports.Records.{PolicyRecord}
use payrune.Ports.Stores.{OutboxMessage, Outbox}
use payrune.Ports.Validation.{pending, sent, failed, delivery_failed}
use payrune.Ports.World.{
  World, Action, pure, raise, attempt, on_error, configured, on_db, on_ext, lift, guard, ◌>>=◌,
  ◌>>◌, UnitOfWork, TxScope, within_transaction, Clock, now,
}

-- runReceiptWebhookDispatchCycleUseCase; a nil port is `none`.
pub record UseCase (D X : Type 0) : Type 0 where
  pub unit_of_work : Option (UnitOfWork D X)
  pub policy_reader : Option (PolicyReader X)
  pub notifier : Option (Notifier X)
  pub clock : Option (Clock X)

-- its ports, once they are known to be there
pub record Ports (D X : Type 0) : Type 0 where
  pub unit_of_work : UnitOfWork D X
  pub policy_reader : PolicyReader X
  pub notifier : Notifier X
  pub clock : Clock X

-- RunReceiptWebhookDispatchCycleInput
pub record Input : Type 0 where
  pub batch_size : ℤ
  pub dispatch_ttl : Duration
  pub max_attempts : ℤ
  pub retry_delay : Duration

-- RunReceiptWebhookDispatchCycleOutput
pub record Output : Type 0 where
  pub claimed : ℕ
  pub sent_count : ℕ
  pub retried_count : ℕ
  pub failed_count : ℕ

-- the `switch` on the error of a transaction
unfoldable pub outbox_error : Error → Error
outbox_error outbox_not_configured = outbox_not_configured
outbox_error _ = dependency_failure

-- the argument of NotifyStatusChanged
unfoldable pub notify_input : OutboxMessage → PolicyRecord → NotifyInput
notify_input n policy = record {
  notification_id = n.notification_id;
  payment_address_id = n.payment_address_id;
  customer_reference = n.customer_reference;
  asset_reference = trim_space policy.asset_reference;
  previous_status = n.previous_status;
  current_status = n.current_status;
  observed_total = n.observed_total;
  confirmed_total = n.confirmed_total;
  unconfirmed_total = n.unconfirmed_total;
  status_changed_at = n.status_changed_at;
}

-- The delivery result that processNotification makes of the answer of the notifier.
unfoldable pub delivery_result :
    Input → OutboxMessage → Result Error Unit → Time → Result Error DeliveryResult
delivery_result input n (err _) at =
    resolve_failure n.notification_id n.delivery_attempts input.max_attempts at input.retry_delay
      delivery_failed
delivery_result input n (ok _) at = mark_sent n.notification_id at

module _ {D X : Type 0} where
  unfoldable pub save_result_steps : DeliveryResult → TxScope D → Action D X Unit
  save_result_steps result scope = do
    outbox ← configured scope.outbox outbox_not_configured
    on_error (λ _. dependency_failure) (on_db (outbox.save_delivery_result result))

  -- saveDeliveryResult
  unfoldable pub save_delivery_result : UnitOfWork D X → DeliveryResult → Action D X Unit
  save_delivery_result u result =
      on_error outbox_error (within_transaction u (save_result_steps result))

  -- FindIssuanceByID as processNotification reads it
  unfoldable pub find_policy : PolicyReader X → OutboxMessage → Action D X PolicyRecord
  find_policy reader n = do
    found ←
        on_error (λ _. dependency_failure) (on_ext (reader.find_issuance_by_id n.address_policy_id))
    configured found payment_address_policy_not_configured

  -- processNotification after the policy is read
  unfoldable pub deliver : Ports D X → OutboxMessage → PolicyRecord → Input → Action D X Text
  deliver p n policy input = do
    answer ← attempt (on_ext (p.notifier.notify_status_changed (notify_input n policy)))
    at ← now p.clock
    result ← lift (delivery_result input n answer at) (λ _. internal_failure)
    save_delivery_result p.unit_of_work result
    pure result.status

  -- processNotification
  unfoldable pub process_notification : Ports D X → OutboxMessage → Input → Action D X Text
  process_notification p n input =
      find_policy p.policy_reader n >>= λ policy. deliver p n policy input

  unfoldable pub claim_steps : Input → Time → TxScope D → Action D X (List OutboxMessage)
  claim_steps input at scope = do
    outbox ← configured scope.outbox outbox_not_configured
    on_error (λ _. dependency_failure)
        (on_db (
          outbox.claim_pending (record {
            now = at;
            limit = input.batch_size;
            claim_until = add at input.dispatch_ttl;
          })))

  -- Execute before its loop
  unfoldable pub prepare : UseCase D X → Input → Action D X (Ports D X × List OutboxMessage)
  prepare uc input = do
    u ← configured uc.unit_of_work unit_of_work_not_configured
    notifier ← configured uc.notifier notifier_not_configured
    reader ← configured uc.policy_reader policy_reader_not_configured
    clock ← configured uc.clock clock_not_configured
    guard (leb_ℤ input.batch_size (pos 0)) batch_size_invalid (
        guard (leb_ℤ input.max_attempts (pos 0)) max_attempts_invalid (
          guard (leb_ℤ input.retry_delay (pos 0)) retry_delay_invalid (do
            at ← now clock
            claimed ← on_error outbox_error (within_transaction u (claim_steps input at))
            pure (
              record {
                unit_of_work = u;
                policy_reader = reader;
                notifier = notifier;
                clock = clock;
              },
              claimed,
            ))))

-- the `switch` on the outcome in the loop of Execute
unfoldable pub count : Text → Output → Output
count status o =
    if status ==ᵗ sent
    then record o { sent_count = o.sent_count + 1 }
    else if status ==ᵗ pending
    then record o { retried_count = o.retried_count + 1 }
    else if status ==ᵗ failed
    then record o { failed_count = o.failed_count + 1 }
    else o

abbrev pub output_for : ℕ → Output
output_for claimed = record {
  claimed = claimed;
  sent_count = 0;
  retried_count = 0;
  failed_count = 0;
}

module _ {D X : Type 0} where
  -- the loop of Execute
  unfoldable pub dispatch_all :
      Ports D X
      → Input
      → List OutboxMessage
      → Output
      → World D X
      → (Output × Option Error) × World D X
  dispatch_all p input [] output w = ((output, none), w)
  dispatch_all p input (n ∷ ns) output w =
      let (r, w') = process_notification p n input w in
      elim r [
        | err e ↦ ((output, some e), w')
        | ok status ↦ dispatch_all p input ns (count status output) w'
      ]

  -- Execute
  unfoldable pub execute : UseCase D X → Input → World D X → (Output × Option Error) × World D X
  execute uc input w =
      let (r, w') = prepare uc input w in
      elim r [
        | err e ↦ ((output_for 0, some e), w')
        | ok (p, claimed) ↦ dispatch_all p input claimed (output_for (length claimed)) w'
      ]
