-- ===== src/UseCases/Allocate/Execute.antt =====
-- Execute of internal/application/usecases/allocate_payment_address_use_case.go.
use payrune.Prelude.{false, not, none, some}
use payrune.Prelude.Int.{pos, leb_ℤ}
use payrune.Text.{Text}
use payrune.Result.{Result, ok, err}
use payrune.Domain.Allocation.{Allocation}
use payrune.Domain.Error.{policy_chain_mismatch, policy_not_enabled, policy_expected_amount_invalid}
use payrune.Domain.Issuance.{IssuancePolicy, plan}
use payrune.Domain.Policy.{AddressIssuancePolicy}
use payrune.Domain.Values.{parse_supported_chain, new_address_policy_id}
use payrune.Ports.Error.{
  Error, chain_not_supported, invalid_address_policy_id, address_policy_not_found,
  address_policy_not_enabled, address_pool_exhausted, invalid_expected_amount, dependency_failure,
  internal_failure, unit_of_work_not_configured, deriver_not_configured,
  policy_reader_not_configured, clock_not_configured, payment_address_id_invalid,
  idempotency_claim_conflict, address_index_exhausted, idempotency_key_exists,
}
use payrune.Ports.Outside.{PolicyReader, Deriver}
use payrune.Ports.Records.{policy_from_record}
use payrune.Ports.World.{
  Action, pure, raise, attempt, on_error, configured, on_ext, lift, guard, ◌>>=◌, UnitOfWork, Clock,
  now,
}
use payrune.UseCases.Allocate.{UseCase, Input, Response, response_of, load_replayed}
use payrune.UseCases.Allocate.Issue.{issue_allocation}

-- the `switch` on the error of Plan
unfoldable pub plan_error : payrune.Domain.Error.Error → Error
plan_error policy_chain_mismatch = address_policy_not_found
plan_error policy_not_enabled = address_policy_not_enabled
plan_error policy_expected_amount_invalid = invalid_expected_amount
plan_error _ = internal_failure

-- the ports of a use case, once they are known to be there
pub record Ports (D X : Type 0) : Type 0 where
  pub unit_of_work : UnitOfWork D X
  pub deriver : Deriver X
  pub policy_reader : PolicyReader X
  pub clock : Clock X

module _ {D X : Type 0} where
  -- Execute after issueAllocation
  unfoldable pub respond :
      Ports D X
      → Input
      → Text
      → AddressIssuancePolicy
      → Result Error Allocation
      → Action D X Response
  respond p input id policy (ok a) =
      guard (leb_ℤ a.payment_address_id (pos 0)) payment_address_id_invalid
        (pure (response_of policy a false))
  respond p input id policy (err idempotency_key_exists) = do
    replayed ← load_replayed p.unit_of_work p.policy_reader input id
    configured replayed idempotency_claim_conflict
  respond p input id policy (err address_index_exhausted) = raise address_pool_exhausted
  respond p input id policy (err e) = raise e

  -- Execute for a request that is not a replay
  unfoldable pub issue_new : Ports D X → IssuancePolicy → Input → Text → Action D X Response
  issue_new p issuance_policy input id = do
    found ← on_error (λ _. dependency_failure) (on_ext (p.policy_reader.find_issuance_by_id id))
    policy_record ← configured found address_policy_not_found
    policy ← lift (policy_from_record policy_record) (λ _. internal_failure)
    issued_at ← now p.clock
    planned ←
        lift
          (plan issuance_policy policy input.chain input.expected_amount input.customer_reference
            issued_at)
          plan_error
    issued ← attempt (issue_allocation p.unit_of_work p.deriver input planned issued_at)
    respond p input id policy issued

  -- Execute after its checks
  unfoldable pub replay_or_issue : Ports D X → IssuancePolicy → Input → Text → Action D X Response
  replay_or_issue p issuance_policy input id = do
    replayed ← load_replayed p.unit_of_work p.policy_reader input id
    elim replayed [ some response ↦ pure response | none ↦ issue_new p issuance_policy input id ]

  unfoldable pub execute : UseCase D X → Input → Action D X Response
  execute uc input = do
    u ← configured uc.unit_of_work unit_of_work_not_configured
    deriver ← configured uc.deriver deriver_not_configured
    reader ← configured uc.policy_reader policy_reader_not_configured
    clock ← configured uc.clock clock_not_configured
    chain ← configured (parse_supported_chain input.chain) chain_not_supported
    guard (not (deriver.supports_chain chain)) chain_not_supported (do
      id ← lift (new_address_policy_id input.address_policy_id) (λ _. invalid_address_policy_id)
      replay_or_issue
          (record { unit_of_work = u; deriver = deriver; policy_reader = reader; clock = clock })
          uc.issuance_policy (record input { chain = chain }) id)
