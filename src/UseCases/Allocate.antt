-- ===== src/UseCases/Allocate.antt =====
-- internal/application/usecases/allocate_payment_address_use_case.go: its input and response, and
-- loadReplayedAllocationResponse. A response with a found flag is an `Option`.
pub mod Issue
pub mod Execute
pub mod Lookups
pub mod Completed
pub mod Atomic
pub mod Replay
pub mod Conflict
pub mod Examples
pub mod Writes
use payrune.Prelude.{
  ℕ, zero, suc, ◌+◌, ◌/◌, ◌%◌, Bool, true, false, not, ◌||◌, Option, none, some, List, [], ◌∷◌, ltb,
  if◌then◌else◌,
}
use payrune.Prelude.Int.{ℤ, pos, negsuc, leb_ℤ, eqb_ℤ}
use payrune.Text.{Text, ◌==ᵗ◌, is_empty, trim_space}
use payrune.Result.{ok, err}
use payrune.Domain.Allocation.{Allocation}
use payrune.Domain.Issuance.{IssuancePolicy}
use payrune.Domain.Policy.{AddressIssuancePolicy}
use payrune.Ports.Error.{
  Error, dependency_failure, internal_failure, address_policy_not_found,
  allocation_store_not_configured, idempotency_store_not_configured, idempotency_record_incomplete,
  idempotency_key_conflict, idempotency_record_missing_allocation, payment_address_id_invalid,
}
use payrune.Ports.Outside.{PolicyReader, Deriver}
use payrune.Ports.Records.{AllocationRecord, policy_from_record, allocation_from_record}
use payrune.Ports.Stores.{AllocationStore, IdempotencyStore, IdempotencyRecord}
use payrune.Ports.World.{
  World, Action, pure, raise, on_error, configured, on_db, on_ext, lift, guard, ◌>>=◌, UnitOfWork,
  TxScope, within_transaction, Clock,
}

-- allocatePaymentAddressUseCase; a nil port is `none`.
pub record UseCase (D X : Type 0) : Type 0 where
  pub unit_of_work : Option (UnitOfWork D X)
  pub deriver : Option (Deriver X)
  pub policy_reader : Option (PolicyReader X)
  pub issuance_policy : IssuancePolicy
  pub clock : Option (Clock X)

-- AllocatePaymentAddressInput
pub record Input : Type 0 where
  pub chain : Text
  pub address_policy_id : Text
  pub expected_amount : ℤ
  pub customer_reference : Text
  pub idempotency_key : Text

-- AllocatePaymentAddressResponse
pub record Response : Type 0 where
  pub payment_address_id : Text
  pub address_policy_id : Text
  pub expected_amount : ℤ
  pub chain : Text
  pub network : Text
  pub scheme : Text
  pub asset_reference : Text
  pub decimals : ℤ
  pub address : Text
  pub customer_reference : Text
  pub idempotency_replayed : Bool

-- strconv.FormatInt(n, 10); an int64 has at most 19 digits.
digits : ℕ → ℕ → Text → Text
digits zero n acc = acc
digits (suc fuel) n acc =
    if ltb n 10 then (48 + n) ∷ acc else digits fuel (n / 10) ((48 + n % 10) ∷ acc)

unfoldable pub format_int : ℤ → Text
unfolding digits
format_int (pos n) = digits 19 n []
format_int (negsuc n) = 45 ∷ digits 19 (suc n) []

-- the response of Execute and, with the flag set, that of loadReplayedAllocationResponse
unfoldable pub response_of : AddressIssuancePolicy → Allocation → Bool → Response
response_of policy a replayed = record {
  payment_address_id = format_int a.payment_address_id;
  address_policy_id = policy.address_policy_id;
  expected_amount = a.expected_amount;
  chain = a.chain;
  network = a.network;
  scheme = a.scheme;
  asset_reference = trim_space policy.asset_reference;
  decimals = policy.decimals;
  address = a.address;
  customer_reference = a.customer_reference;
  idempotency_replayed = replayed;
}

-- the `switch` on the error of the transaction of loadReplayedAllocationResponse
unfoldable pub replay_error : Error → Error
replay_error allocation_store_not_configured = allocation_store_not_configured
replay_error idempotency_store_not_configured = idempotency_store_not_configured
replay_error idempotency_record_incomplete = idempotency_record_incomplete
replay_error idempotency_key_conflict = idempotency_key_conflict
replay_error idempotency_record_missing_allocation = idempotency_record_missing_allocation
replay_error internal_failure = internal_failure
replay_error _ = dependency_failure

-- the test that the request is the one the key was used for
unfoldable pub conflicts : IdempotencyRecord → Input → Text → Bool
conflicts record_of_key input address_policy_id =
    not (record_of_key.address_policy_id ==ᵗ address_policy_id)
    || (not (eqb_ℤ record_of_key.expected_amount input.expected_amount)
        || not (record_of_key.customer_reference ==ᵗ input.customer_reference))

module _ {D X : Type 0} where
  -- the transaction's steps from the record of the key on
  unfoldable pub replay_record :
      AllocationStore D → IdempotencyRecord → Input → Text → Action D X (Option Allocation)
  replay_record store r input address_policy_id =
      guard (leb_ℤ r.payment_address_id (pos 0)) idempotency_record_incomplete (
        guard (conflicts r input address_policy_id) idempotency_key_conflict (do
          found ←
              on_error (λ _. dependency_failure)
                (on_db (store.find_issued_by_id r.payment_address_id))
          allocation_record ← configured found idempotency_record_missing_allocation
          allocation ← lift (allocation_from_record allocation_record) (λ _. internal_failure)
          pure (some allocation)))

  -- the steps of loadReplayedAllocationResponse in its transaction
  unfoldable pub replay_steps : Input → Text → TxScope D → Action D X (Option Allocation)
  replay_steps input address_policy_id scope = do
    allocation_store ← configured scope.allocation allocation_store_not_configured
    idempotency_store ← configured scope.idempotency idempotency_store_not_configured
    found ←
        on_error (λ _. dependency_failure)
          (on_db (idempotency_store.find_by_key input.chain input.idempotency_key))
    elim found [
      | none ↦ pure none
      | some r ↦ replay_record allocation_store r input address_policy_id
    ]

  -- loadReplayedAllocationResponse after its transaction
  unfoldable pub replay_response : PolicyReader X → Option Allocation → Action D X (Option Response)
  replay_response reader none = pure none
  replay_response reader (some a) = do
    found ←
        on_error (λ _. dependency_failure) (on_ext (reader.find_issuance_by_id a.address_policy_id))
    policy_record ← configured found address_policy_not_found
    policy ← lift (policy_from_record policy_record) (λ _. internal_failure)
    guard (leb_ℤ a.payment_address_id (pos 0)) payment_address_id_invalid
        (pure (some (response_of policy a true)))

  -- loadReplayedAllocationResponse
  unfoldable pub load_replayed :
      UnitOfWork D X → PolicyReader X → Input → Text → Action D X (Option Response)
  load_replayed u reader input address_policy_id =
      if is_empty input.idempotency_key
      then pure none
      else (on_error replay_error (within_transaction u (replay_steps input address_policy_id))
          >>= replay_response reader)
