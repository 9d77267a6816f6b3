-- ===== src/UseCases/Dispatch/Delivers.antt =====
-- What processNotification of
-- internal/application/usecases/run_receipt_webhook_dispatch_cycle_use_case.go writes.
use payrune.Prelude.{◌≡◌, refl, sym, ◌∙◌, arith, inl, inr, Option-cases, some}
use payrune.Text.{Text, trim_space}
use payrune.Result.{Result, ok, result-cases, err}
use payrune.Time.{Time}
use payrune.Ports.Delivery.{DeliveryResult, resolve_failure, mark_sent}
use payrune.Ports.Error.{Error, internal_failure}
use payrune.Ports.Outside.{PolicyReader, NotifyInput}
use payrune.Ports.Records.{PolicyRecord}
use payrune.Ports.Stores.{OutboxMessage, Outbox}
use payrune.Ports.Validation.{delivery_failed}
use payrune.Ports.World.{World, TxScope, UnitOfWork, attempt, on_ext, now, lift}
use payrune.Ports.World.Laws.{
  then-IsAtomic, bind-IsAtomic, on_error-IsAtomic, within_transaction-IsAtomic, outcomes, committed,
  IsAtomic,
}
use payrune.UseCases.Dispatch.{
  Ports, process_notification, save_delivery_result, save_result_steps, find_policy, Input,
  outbox_error, delivery_result, notify_input, deliver,
}

-- The outbox has saved the result, and nothing else was written.
unfoldable pub ResultSaved : {D : Type 0} → TxScope D → DeliveryResult → D → D → Type 0
ResultSaved {D = D} scope result d d' =
    (outbox : Outbox D) × (scope.outbox ≡ some outbox)
    × (outbox.save_delivery_result result d ≡ (ok tt, d'))

-- What the notifier is told of a notification, with the asset of its policy.
abbrev pub told : OutboxMessage → PolicyRecord → NotifyInput
told n policy = record {
  notification_id = n.notification_id;
  payment_address_id = n.payment_address_id;
  customer_reference = n.customer_reference;
  asset_reference = trim_space policy.asset_reference;
  previous_status = n.previous_status;
  current_status = n.current_status;
  observed_total = n.observed_total;
  confirmed_total = n.confirmed_total;
  unconfirmed_total = n.unconfirmed_total;
  status_changed_at = n.status_changed_at;
}

-- Sent at the time of the clock, or one more failure.
abbrev pub result_of :
    Input → OutboxMessage → Result Error Unit → Time → Result Error DeliveryResult
result_of input n answer at = elim answer [
  | ok _ ↦ mark_sent n.notification_id at
  | err _ ↦
      resolve_failure n.notification_id n.delivery_attempts input.max_attempts at input.retry_delay
        delivery_failed
]

notify_input-eq :
    (n : OutboxMessage) (policy : PolicyRecord) → notify_input n policy ≡ told n policy
unfolding notify_input
notify_input-eq n policy = refl

pub delivery_result-eq :
    (input : Input) (n : OutboxMessage) (answer : Result Error Unit) (at : Time)
    → delivery_result input n answer at ≡ result_of input n answer at
unfolding delivery_result
delivery_result-eq input n (ok _) at = refl
delivery_result-eq input n (err _) at = refl

module _ {D X : Type 0} where
  save_delivery_result-IsAtomic :
      (u : UnitOfWork D X) (result : DeliveryResult) → IsAtomic (save_delivery_result u result)
  unfolding save_delivery_result
  save_delivery_result-IsAtomic u result = on_error-IsAtomic _ _ (within_transaction-IsAtomic u _)

  find_policy-IsReadOnly :
      (reader : PolicyReader X) (n : OutboxMessage) (w : World D X)
      → (find_policy reader n w).1.db ≡ w.db
  unfolding find_policy
  find_policy-IsReadOnly reader n w = ground arith

  -- A notification whose processing returns an error leaves every row as it was.
  pub process_notification-IsAtomic :
      (p : Ports D X) (n : OutboxMessage) (input : Input) (w w' : World D X) (e : Error)
      → process_notification p n input w ≡ (err e, w')
      → w'.db ≡ w.db
  unfolding process_notification deliver
  process_notification-IsAtomic p n input =
      bind-IsAtomic (find_policy p.policy_reader n) _ (find_policy-IsReadOnly p.policy_reader n)
        (λ policy.
          bind-IsAtomic
            (attempt (on_ext (p.notifier.notify_status_changed (notify_input n policy)))) _
            (λ w. refl)
            (λ answer.
              bind-IsAtomic (now p.clock) _ (λ w. refl)
                (λ at.
                  bind-IsAtomic (lift (delivery_result input n answer at) (λ _. internal_failure)) _
                    (λ w. refl)
                    (λ result.
                      then-IsAtomic _ (λ _. result.status)
                        (save_delivery_result-IsAtomic p.unit_of_work result)))))

  save_result_steps-ResultSaved :
      (result : DeliveryResult) (scope : TxScope D) (w w' : World D X)
      → save_result_steps result scope w ≡ (ok tt, w')
      → ResultSaved scope result w.db w'.db
  unfolding save_result_steps ResultSaved
  save_result_steps-ResultSaved result scope w w' h = elim (Option-cases scope.outbox) [
    | inl p ↦ absurd (ground arith)
    | inr (outbox, p) ↦ (outbox, p, ground arith)
  ]

  save_delivery_result-ResultSaved :
      (u : UnitOfWork D X) (result : DeliveryResult) (w w' : World D X)
      → save_delivery_result u result w ≡ (ok tt, w')
      → ResultSaved u.scope result w.db w'.db
  unfolding save_delivery_result
  save_delivery_result-ResultSaved u result w w' h =
      committed u outbox_error (save_result_steps result) tt (ResultSaved u.scope result)
        (save_result_steps-ResultSaved result u.scope) w w' h

  deliver-ResultSaved :
      (p : Ports D X) (n : OutboxMessage) (policy : PolicyRecord) (input : Input) (w w' : World D X)
      (status : Text)
      → deliver p n policy input w ≡ (ok status, w')
      → (result : DeliveryResult) × (result_of input n
            (p.notifier.notify_status_changed (told n policy) w.ext).0
            (p.clock.now_utc (p.notifier.notify_status_changed (told n policy) w.ext).1).0
          ≡ ok result)
        × (status ≡ result.status)
        × ResultSaved p.unit_of_work.scope result w.db w'.db
  unfolding deliver
  deliver-ResultSaved p n policy input w w' status h =
      let input_same = notify_input-eq n policy in
      let (answer, x) = p.notifier.notify_status_changed (notify_input n policy) w.ext in
      let (at, y) = p.clock.now_utc x in
      elim (result-cases (delivery_result input n answer at)) [
        | inr (e, q) ↦ absurd (ground arith)
        | inl (result, q) ↦
            elim (outcomes (save_delivery_result p.unit_of_work result (record w { ext = y }))) [
              | inr (e, v, r) ↦ absurd (ground arith)
              | inl (_, v, r) ↦ (
                result,
                rw (← input_same) (sym (delivery_result-eq input n answer at) ∙ q),
                ground arith,
                save_delivery_result-ResultSaved p.unit_of_work result (record w { ext = y }) w'
                    (ground arith),
              )
            ]
      ]

  find_policy-eq-ok :
      (reader : PolicyReader X) (n : OutboxMessage) (w w' : World D X) (policy : PolicyRecord)
      → find_policy reader n w ≡ (ok policy, w')
      → ((reader.find_issuance_by_id n.address_policy_id w.ext).0 ≡ ok (some policy))
        × (w' ≡ record w { ext = (reader.find_issuance_by_id n.address_policy_id w.ext).1 })
  unfolding find_policy
  find_policy-eq-ok reader n w w' policy h =
      elim (result-cases (reader.find_issuance_by_id n.address_policy_id w.ext).0) [
        | inr (e, p) ↦ absurd (ground arith)
        | inl (o, p) ↦ elim (Option-cases o) [
          | inl q ↦ absurd (ground arith)
          | inr (found, q) ↦ (ground arith, ground arith)
        ]
      ]

  -- Where processNotification returns a status, the reader has the policy of the notification's policy
  -- id, the notifier was told every field of the notification with the asset reference of that policy,
  -- and what the outbox has saved is the result of its answer at the clock's next time: sent, or one
  -- more failure. The status returned is the saved one, and no row but by this save is written.
  pub process_notification-ResultSaved :
      (p : Ports D X) (n : OutboxMessage) (input : Input) (w w' : World D X) (status : Text)
      → process_notification p n input w ≡ (ok status, w')
      → let (found, x) = p.policy_reader.find_issuance_by_id n.address_policy_id w.ext in
        (policy : PolicyRecord) × (result : DeliveryResult) × (found ≡ ok (some policy))
        × (result_of input n
              (p.notifier.notify_status_changed (told n policy) x).0
              (p.clock.now_utc (p.notifier.notify_status_changed (told n policy) x).1).0
            ≡ ok result)
        × (status ≡ result.status)
        × ResultSaved p.unit_of_work.scope result w.db w'.db
  unfolding process_notification
  process_notification-ResultSaved p n input w w' status h =
      elim (outcomes (find_policy p.policy_reader n w)) [
        | inr (e, v, q) ↦ absurd (ground arith)
        | inl (policy, v, q) ↦
            let (found, moved) = find_policy-eq-ok p.policy_reader n w v policy q in
            let x = (p.policy_reader.find_issuance_by_id n.address_policy_id w.ext).1 in
            let (result, eq, st, saved) =
              deliver-ResultSaved p n policy input (record w { ext = x }) w' status
                (ground arith) in
            (policy, result, found, eq, st, saved)
      ]
