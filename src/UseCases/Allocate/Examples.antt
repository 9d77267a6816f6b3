-- ===== src/UseCases/Allocate/Examples.antt =====
-- Tests and examples of the allocation of an address on concrete rows.
use payrune.Prelude.{ℕ, ◌≡◌, refl, arith, some, [], ◌∷◌, true, false}
use payrune.Prelude.Int.{ℤ, pos, ◌+ℤ◌}
use payrune.Text.{
  codes, trim_space, trim_left, is_space, to_lower, lower, byte_len, strip_prefix, trim_suffix,
  is_empty,
}
use payrune.Text.Id.{parse_id, is_id_char}
use payrune.Result.{ok, err, is_ok}
use payrune.Domain.Allocation.{Allocation, mark_derivation_failed}
use payrune.Domain.Issuance.{Plan, reserve_fresh, reopen_failed, plan, find, normalize_scope}
use payrune.Domain.Policy.{
  AddressIssuancePolicy, normalize, normalize_chain, normalize_network, normalize_asset_reference,
  validate_for_issuance, is_enabled,
}
use payrune.Domain.Status.{parse_derivation_failure_reason}
use payrune.Domain.Values.{
  bitcoin, mainnet, normalize_config, normalize_ref_prefix, normalize_scheme, normalize_policy_id,
  is_zero_policy_id, new_address_policy_id, parse_address_policy_id, parse_chain_id,
  parse_network_id, parse_supported_chain, parse_address_scheme, address_schemes,
}
use payrune.Ports.Error.{idempotency_key_conflict, dependency_failure}
use payrune.Ports.Records.{
  PolicyRecord, allocation_from_record, AllocationRecord, policy_from_record, parse_if_set,
  record_from_allocation, record_from_policy,
}
use payrune.Ports.Stores.{IdempotencyRecord}
use payrune.Ports.World.{begin, World, within_transaction, finish, UnitOfWork}
use payrune.UseCases.Allocate.{
  UseCase, Input, Response, load_replayed, replay_steps, replay_record, replay_response,
  response_of, conflicts,
}
use payrune.UseCases.Allocate.Atomic.{derivation_failure-not_saved, execute-IsAtomic}
use payrune.UseCases.Allocate.Execute.{Ports, execute, replay_or_issue, issue_new, respond}
use payrune.UseCases.Allocate.Issue.{
  claim_key, with_key, reserve_allocation, reserve_input, issue_reserved, issue_error,
  handle_derivation_failure, issue_allocation, issue_steps,
}
use payrune.UseCases.Allocate.Lookups.{LooksUp}
use payrune.UseCases.Allocate.Conflict.{IsAsked, execute-conflict}
use payrune.UseCases.Allocate.Replay.{Replays, load_replayed-Replays, HasPolicy, replay_of}
use payrune.UseCases.Store.{
  Rows, start, unit_of_work, clock, policies, deriver, failing_deriver, allocations, keys,
}

abbrev policy : AddressIssuancePolicy
policy = record {
  address_policy_id = codes "btc";
  chain = bitcoin;
  network = mainnet;
  scheme = codes "taproot";
  asset_reference = [];
  decimals = pos 8;
  enabled = true;
  issuance_config = record { address_space_ref = []; issuance_ref_prefix = [] };
}

abbrev pub request : Input
request = record {
  chain = bitcoin;
  address_policy_id = codes "btc";
  expected_amount = pos 1000;
  customer_reference = [];
  idempotency_key = codes "key";
}

abbrev planned : Plan
planned = record {
  reservation = record {
    issuance_policy = policy;
    expected_amount = pos 1000;
    customer_reference = [];
  };
  reservation_attempts = reopen_failed ∷ reserve_fresh ∷ [];
  receipt_terms = record { required_confirmations = pos 2; expires_at = pos 100 };
}

abbrev issued_slot : Allocation
issued_slot = record {
  payment_address_id = pos 7;
  address_policy_id = codes "btc";
  slot_index = pos 4;
  expected_amount = pos 1000;
  customer_reference = [];
  status = codes "issued";
  chain = bitcoin;
  network = mainnet;
  scheme = codes "taproot";
  asset_reference = [];
  address = codes "bc1q";
  derivation_failure_reason = [];
}

abbrev after_issue : World Rows ℕ
after_issue = (issue_allocation unit_of_work deriver request planned (pos 50) start).1

failing-fails :
    (p : PolicyRecord) (a : AllocationRecord) (x : ℕ)
    → is_ok (failing_deriver.derive_issued_address p a x).0 ≡ false
failing-fails p a x = refl

derivation_failure-not_saved_example :
    let (r, w') = issue_allocation unit_of_work failing_deriver request planned (pos 50) start in
    (is_ok r ≡ false) × (w'.db ≡ start.db)
derivation_failure-not_saved_example =
    derivation_failure-not_saved unit_of_work failing_deriver request planned (pos 50) failing-fails
      start

abbrev used_key : ℤ → IdempotencyRecord
used_key amount = record {
  chain = bitcoin;
  idempotency_key = codes "key";
  address_policy_id = codes "btc";
  expected_amount = amount;
  customer_reference = [];
  payment_address_id = pos 7;
}

abbrev used : ℤ → World Rows ℕ
used amount = record start { db = record start.db { keys = used_key amount ∷ [] } }

abbrev reserved_slot : Allocation
reserved_slot = record issued_slot { chain = []; network = []; scheme = []; address = [] }

abbrev replayed : Response
replayed = response_of policy reserved_slot true

abbrev after_replay : World Rows ℕ
after_replay = (load_replayed unit_of_work policies request (codes "btc") (used (pos 1000))).1

replay :
    load_replayed unit_of_work policies request (codes "btc") (used (pos 1000))
    ≡ (ok (some replayed), after_replay)
unfolding load_replayed replay_steps replay_record replay_response response_of conflicts
    within_transaction finish begin allocation_from_record policy_from_record parse_if_set normalize
    normalize_chain normalize_network normalize_asset_reference normalize_config
    normalize_ref_prefix normalize_scheme normalize_policy_id is_zero_policy_id
    new_address_policy_id parse_address_policy_id parse_chain_id parse_network_id
    parse_supported_chain parse_address_scheme address_schemes parse_id trim_space trim_left
    is_space to_lower lower byte_len is_id_char strip_prefix trim_suffix
replay = refl

load_replayed-Replays_example :
    (is_empty request.idempotency_key ≡ false)
    × (a : Allocation) × (p : AddressIssuancePolicy) × Replays unit_of_work.scope request
        (codes "btc")
        a
        (used (pos 1000)).db
    × (x : ℕ) × HasPolicy policies a p x
    × (replayed ≡ replay_of p a)
load_replayed-Replays_example =
    load_replayed-Replays unit_of_work policies request (codes "btc") replayed (used (pos 1000))
      after_replay replay

abbrev use_case : UseCase Rows ℕ
use_case = record {
  unit_of_work = some unit_of_work;
  deriver = some failing_deriver;
  policy_reader = some policies;
  issuance_policy = record { confirmations_by_scope = []; expires_after_by_scope = [] };
  clock = some clock;
}

abbrev ports : Ports Rows ℕ
ports = record {
  unit_of_work = unit_of_work;
  deriver = failing_deriver;
  policy_reader = policies;
  clock = clock;
}

use_case-IsAsked : IsAsked use_case request ports bitcoin (codes "btc")
unfolding parse_supported_chain parse_chain_id new_address_policy_id parse_address_policy_id
    parse_id trim_space trim_left is_space to_lower lower byte_len is_id_char
use_case-IsAsked = record {
  has_unit_of_work = refl;
  has_deriver = refl;
  has_reader = refl;
  has_clock = refl;
  parsed = refl;
  supported = refl;
  named = refl;
}

execute-conflict_example :
    let (result, w') = execute use_case request (used (pos 999)) in
    (result ≡ err idempotency_key_conflict) × (w'.db ≡ (used (pos 999)).db)
unfolding begin
execute-conflict_example =
    execute-conflict use_case request ports bitcoin (codes "btc") allocations keys
      (used_key (pos 999)) (used (pos 999)) use_case-IsAsked refl refl refl refl refl (omega arith)
      (λ same. absurd (ground (arith, same.1)))

abbrev after_failure : World Rows ℕ
after_failure = (execute use_case request start).1

request_fails : execute use_case request start ≡ (err dependency_failure, after_failure)
unfolding execute replay_or_issue issue_new respond plan validate_for_issuance is_enabled find
    normalize_scope load_replayed replay_steps replay_record replay_response policy_from_record
    issue_allocation issue_error issue_steps claim_key with_key reserve_allocation reserve_input
    issue_reserved handle_derivation_failure mark_derivation_failed record_from_allocation
    record_from_policy allocation_from_record parse_if_set within_transaction finish begin normalize
    normalize_chain normalize_network normalize_asset_reference normalize_config
    normalize_ref_prefix normalize_scheme normalize_policy_id is_zero_policy_id
    new_address_policy_id parse_address_policy_id parse_chain_id parse_network_id
    parse_supported_chain parse_address_scheme address_schemes parse_derivation_failure_reason
    parse_id trim_space trim_left is_space to_lower lower byte_len is_id_char strip_prefix
    trim_suffix ◌+ℤ◌
request_fails = refl

unit_of_work-LooksUp : LooksUp unit_of_work.scope
unit_of_work-LooksUp = record {
  by_id = λ store p id d. let e : store ≡ allocations = cc in rw e refl;
  by_key = λ store p chain key d. let e : store ≡ keys = cc in rw e refl;
}

wired-LooksUp : (u : UnitOfWork Rows ℕ) → use_case.unit_of_work ≡ some u → LooksUp u.scope
wired-LooksUp u p = let e : u ≡ unit_of_work = cc in rw e unit_of_work-LooksUp

execute-IsAtomic_example : after_failure.db ≡ start.db
execute-IsAtomic_example =
    execute-IsAtomic use_case request wired-LooksUp start after_failure dependency_failure
      request_fails
