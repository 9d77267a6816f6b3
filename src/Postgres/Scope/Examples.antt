-- ===== src/Postgres/Scope/Examples.antt =====
-- A request over the empty tables whose derivation fails.
use payrune.Prelude.{ℕ, ◌≡◌, refl, some, [], true, first, update, filter}
use payrune.Prelude.Int.{◌+ℤ◌}
use payrune.Text.{
  trim_space, trim_left, is_space, to_lower, lower, byte_len, strip_prefix, trim_suffix,
}
use payrune.Text.Id.{parse_id, is_id_char}
use payrune.Result.{err}
use payrune.Domain.Allocation.{mark_derivation_failed}
use payrune.Domain.Issuance.{plan, find, normalize_scope}
use payrune.Domain.Policy.{
  normalize, normalize_chain, normalize_network, normalize_asset_reference, validate_for_issuance,
  is_enabled,
}
use payrune.Domain.Status.{parse_derivation_failure_reason}
use payrune.Domain.Values.{
  normalize_config, normalize_ref_prefix, normalize_scheme, normalize_policy_id, is_zero_policy_id,
  new_address_policy_id, parse_address_policy_id, parse_chain_id, parse_network_id,
  parse_supported_chain, parse_address_scheme, address_schemes,
}
use payrune.Ports.Error.{dependency_failure}
use payrune.Ports.Records.{
  allocation_from_record, policy_from_record, parse_if_set, record_from_allocation,
  record_from_policy,
}
use payrune.Ports.Validation.{normalize_id}
use payrune.Ports.World.{begin, World, within_transaction, finish, UnitOfWork}
use payrune.UseCases.Allocate.{UseCase, load_replayed, replay_steps, replay_record, replay_response}
use payrune.UseCases.Allocate.Examples.{request}
use payrune.UseCases.Allocate.Execute.{execute, replay_or_issue, issue_new, respond}
use payrune.UseCases.Allocate.Issue.{
  claim_key, with_key, reserve_allocation, reserve_input, issue_reserved, issue_error,
  handle_derivation_failure, issue_allocation, issue_steps,
}
use payrune.UseCases.Store.{clock, policies, failing_deriver}
use payrune.Postgres.Samples.{no_tables, tx}
use payrune.Postgres.Scope.{scope, execute-IsAllOrNothing}
use payrune.Postgres.Tables.{null_if_empty, Tables}
use payrune.Postgres.Reserve as Reserve
use payrune.Postgres.Keys as Keys
use payrune.Postgres.Allocations as Allocations

abbrev tables_unit : UnitOfWork Tables ℕ
tables_unit = record {
  scope = scope tx;
  has_db = true;
  begin_tx = λ x. (true, x);
  commit = λ x. (true, x);
}

abbrev use_case : UseCase Tables ℕ
use_case = record {
  unit_of_work = some tables_unit;
  deriver = some failing_deriver;
  policy_reader = some policies;
  issuance_policy = record { confirmations_by_scope = []; expires_after_by_scope = [] };
  clock = some clock;
}

abbrev start_world : World Tables ℕ
start_world = record { db = no_tables; ext = 50 }

abbrev after_failure : World Tables ℕ
after_failure = (execute use_case request start_world).1

request_fails : execute use_case request start_world ≡ (err dependency_failure, after_failure)
unfolding execute replay_or_issue issue_new respond plan validate_for_issuance is_enabled find
    normalize_scope load_replayed replay_steps replay_record replay_response policy_from_record
    issue_allocation issue_error issue_steps claim_key with_key reserve_allocation reserve_input
    issue_reserved handle_derivation_failure mark_derivation_failed record_from_allocation
    record_from_policy allocation_from_record parse_if_set within_transaction finish begin normalize
    normalize_chain normalize_network normalize_asset_reference normalize_config
    normalize_ref_prefix normalize_scheme normalize_policy_id is_zero_policy_id
    new_address_policy_id parse_address_policy_id parse_chain_id parse_network_id
    parse_supported_chain parse_address_scheme address_schemes parse_derivation_failure_reason
    parse_id trim_space trim_left is_space to_lower lower byte_len is_id_char strip_prefix
    trim_suffix ◌+ℤ◌ null_if_empty first update filter Reserve.reserve_slot Reserve.insert_row
    Reserve.reserve_fresh Reserve.oldest_failed Reserve.reopen_failed_reservation
    Reserve.reopen_found Keys.insert_row Keys.claim Keys.key_record Keys.release Keys.release_row
    Keys.find_by_key Keys.find_row Allocations.mark_row Allocations.mark_derivation_failed
    normalize_id
request_fails = refl

execute-IsAllOrNothing_example : after_failure.db ≡ no_tables
execute-IsAllOrNothing_example =
    execute-IsAllOrNothing use_case tables_unit tx request refl refl start_world after_failure
      dependency_failure request_fails
