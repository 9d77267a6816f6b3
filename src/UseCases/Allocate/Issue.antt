-- ===== src/UseCases/Allocate/Issue.antt =====
-- issueAllocation, reserveAllocation and handleDerivationFailure of
-- internal/application/usecases/allocate_payment_address_use_case.go.
use payrune.Prelude.{none, some, List, [], ◌∷◌, if◌then◌else◌}
use payrune.Text.{Text, is_empty, trim_space}
use payrune.Result.{Result, ok, err}
use payrune.Time.{Time}
use payrune.Domain.Allocation.{
  Allocation, mark_issued, mark_derivation_failed, issue_receipt_tracking,
}
use payrune.Domain.Issuance.{Attempt, reopen_failed, reserve_fresh, unknown, Plan}
use payrune.Domain.Policy.{normalize}
use payrune.Domain.Status.{derivation_failed}
use payrune.Ports.Error.{
  Error, dependency_failure, internal_failure, allocation_store_not_configured,
  idempotency_store_not_configured, tracking_store_not_configured, reservation_attempt_invalid,
  reservation_attempts_required, address_index_exhausted, idempotency_key_exists,
}
use payrune.Ports.Outside.{Deriver}
use payrune.Ports.Records.{
  record_from_policy, allocation_from_record, record_from_allocation, record_from_tracking,
}
use payrune.Ports.Stores.{AllocationStore, IdempotencyStore, TrackingStore, ReserveAllocation}
use payrune.Ports.World.{
  Action, pure, raise, attempt, on_error, configured, on_db, on_ext, lift, ◌>>=◌, ◌>>◌, UnitOfWork,
  TxScope, within_transaction,
}
use payrune.UseCases.Allocate.{Input}

-- the error of ReserveFresh as reserveAllocation passes it on
unfoldable pub reserve_error : Error → Error
reserve_error address_index_exhausted = address_index_exhausted
reserve_error _ = dependency_failure

-- the error of Claim as issueAllocation passes it on
unfoldable pub claim_error : Error → Error
claim_error idempotency_key_exists = idempotency_key_exists
claim_error _ = dependency_failure

-- the `switch` on the error of the transaction of issueAllocation
unfoldable pub issue_error : Error → Error
issue_error idempotency_key_exists = idempotency_key_exists
issue_error address_index_exhausted = address_index_exhausted
issue_error allocation_store_not_configured = allocation_store_not_configured
issue_error idempotency_store_not_configured = idempotency_store_not_configured
issue_error tracking_store_not_configured = tracking_store_not_configured
issue_error reservation_attempt_invalid = reservation_attempt_invalid
issue_error reservation_attempts_required = reservation_attempts_required
issue_error internal_failure = internal_failure
issue_error _ = dependency_failure

unfoldable pub reserve_input : Plan → ReserveAllocation
reserve_input plan = record {
  issuance_policy = record_from_policy plan.reservation.issuance_policy;
  expected_amount = plan.reservation.expected_amount;
  customer_reference = plan.reservation.customer_reference;
}

-- MarkIssued with the arguments of issueAllocation
unfoldable pub issued_allocation :
    Plan → Allocation → Text → Result payrune.Domain.Error.Error Allocation
issued_allocation plan a address =
    let policy = plan.reservation.issuance_policy in
    mark_issued a policy.address_policy_id policy.chain policy.network policy.scheme
      (trim_space (normalize policy).asset_reference) address

module _ {D X : Type 0} where
  -- reserveAllocation
  unfoldable pub reserve_allocation :
      AllocationStore D → ReserveAllocation → List Attempt → Action D X Allocation
  reserve_allocation store input [] = raise reservation_attempts_required
  reserve_allocation store input (reopen_failed ∷ rest) = do
    reopened ← on_error (λ _. dependency_failure) (on_db (store.reopen_failed_reservation input))
    elim reopened [
      | none ↦ reserve_allocation store input rest
      | some r ↦ lift (allocation_from_record r) (λ _. internal_failure)
    ]
  reserve_allocation store input (reserve_fresh ∷ rest) = do
    r ← on_error reserve_error (on_db (store.reserve_fresh input))
    lift (allocation_from_record r) (λ _. internal_failure)
  reserve_allocation store input (unknown _ ∷ rest) = raise reservation_attempt_invalid

  -- `if idempotencyKey != "" { ... }` around a step
  unfoldable pub with_key : Text → Action D X Unit → Action D X Unit
  with_key key step = if is_empty key then pure tt else step

  -- handleDerivationFailure: it always returns an error.
  unfoldable pub handle_derivation_failure :
      AllocationStore D → IdempotencyStore D → Input → Allocation → Error → Action D X Allocation
  handle_derivation_failure store keys input a final_error = do
    failed_allocation ← lift (mark_derivation_failed a derivation_failed) (λ _. internal_failure)
    on_error (λ _. dependency_failure)
        (on_db (store.mark_derivation_failed (record_from_allocation failed_allocation)))
    with_key input.idempotency_key (
        on_error (λ _. dependency_failure) (on_db (keys.release input.chain input.idempotency_key)))
    raise final_error

  -- the claim of the idempotency key
  unfoldable pub claim_key : IdempotencyStore D → Input → Plan → Action D X Unit
  claim_key keys input plan = with_key input.idempotency_key (do
    claimed ← on_error claim_error (
        on_db (
          keys.claim (record {
            chain = input.chain;
            idempotency_key = input.idempotency_key;
            address_policy_id = plan.reservation.issuance_policy.address_policy_id;
            expected_amount = plan.reservation.expected_amount;
            customer_reference = plan.reservation.customer_reference;
          })))
    pure tt)

  -- The end of the transaction, from the issued allocation on.
  unfoldable pub complete_issue :
      AllocationStore D
      → IdempotencyStore D
      → TrackingStore D
      → Input
      → Plan
      → Time
      → Text
      → Allocation
      → Action D X Allocation
  complete_issue store keys trackings input plan issued_at sweep_material issued = do
    on_error (λ _. dependency_failure)
        (on_db (
          store.complete (record {
            allocation = record_from_allocation issued;
            sweep_material = sweep_material;
            issued_at = issued_at;
          })))
    tracking ←
        lift
          (issue_receipt_tracking issued issued_at plan.receipt_terms.required_confirmations
            plan.receipt_terms.expires_at)
          (λ _. internal_failure)
    on_error (λ _. dependency_failure)
        (on_db (trackings.create (record_from_tracking tracking) issued_at))
    with_key input.idempotency_key (
        on_error (λ _. dependency_failure)
          (on_db (keys.complete input.chain input.idempotency_key issued.payment_address_id)))
    pure issued

  -- The steps after the reservation.
  unfoldable pub issue_reserved :
      Deriver X
      → AllocationStore D
      → IdempotencyStore D
      → TrackingStore D
      → Input
      → Plan
      → Time
      → Allocation
      → Action D X Allocation
  issue_reserved deriver store keys trackings input plan issued_at a = do
    derived ← attempt (
        on_ext (
          deriver.derive_issued_address (record_from_policy plan.reservation.issuance_policy)
            (record_from_allocation a)))
    elim derived [
      | err _ ↦ handle_derivation_failure store keys input a dependency_failure
      | ok d ↦ elim (issued_allocation plan a d.address) [
        | err _ ↦ handle_derivation_failure store keys input a internal_failure
        | ok issued ↦
            complete_issue store keys trackings input plan issued_at d.sweep_material issued
      ]
    ]

  -- the steps of issueAllocation in its transaction
  unfoldable pub issue_steps : Deriver X → Input → Plan → Time → TxScope D → Action D X Allocation
  issue_steps deriver input plan issued_at scope = do
    store ← configured scope.allocation allocation_store_not_configured
    keys ← configured scope.idempotency idempotency_store_not_configured
    trackings ← configured scope.tracking tracking_store_not_configured
    claim_key keys input plan
    a ← reserve_allocation store (reserve_input plan) plan.reservation_attempts
    issue_reserved deriver store keys trackings input plan issued_at a

  -- issueAllocation
  unfoldable pub issue_allocation :
      UnitOfWork D X → Deriver X → Input → Plan → Time → Action D X Allocation
  issue_allocation u deriver input plan issued_at =
      on_error issue_error (within_transaction u (issue_steps deriver input plan issued_at))
