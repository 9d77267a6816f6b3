-- ===== src/UseCases/Allocate/Conflict.antt =====
-- Execute of internal/application/usecases/allocate_payment_address_use_case.go under a key that was
-- used for another request.
use payrune.Prelude.{◌≡◌, arith, inl, inr, some, Bool-cases, true, false}
use payrune.Prelude.Int.{pos, ◌<ℤ◌}
use payrune.Text.{is_empty, Text}
use payrune.Result.{ok, err}
use payrune.Ports.Error.{idempotency_key_conflict}
use payrune.Ports.Outside.{PolicyReader}
use payrune.Ports.Stores.{AllocationStore, IdempotencyRecord, IdempotencyStore}
use payrune.Ports.World.{World, TxScope, UnitOfWork, begin}
use payrune.Ports.World.Laws.{within_transaction-err}
use payrune.UseCases.Allocate.{
  load_replayed, replay_record, replay_steps, replay_error, Input, conflicts, UseCase,
}
use payrune.Domain.Values.{parse_supported_chain, new_address_policy_id}
use payrune.UseCases.Allocate.Execute.{Ports, execute, replay_or_issue}
use payrune.UseCases.Allocate.Replay.{IsSameRequest, conflicts-IsSameRequest}

-- A request that is not the one of the key conflicts with it.
not_same-conflicts :
    (r : IdempotencyRecord) (input : Input) (id : Text)
    → ¬ IsSameRequest r input id
    → conflicts r input id ≡ true
not_same-conflicts r input id h = elim (Bool-cases (conflicts r input id)) [
  | inl c ↦ c
  | inr c ↦ absurd (h (conflicts-IsSameRequest r input id c))
]

-- The use case has these ports, and the request names this chain, which they support, and this policy.
pub record IsAsked {D X : Type 0} (uc : UseCase D X) (input : Input) (p : Ports D X)
    (chain policy_id : Text) : Type 0 where
  pub has_unit_of_work : uc.unit_of_work ≡ some p.unit_of_work
  pub has_deriver : uc.deriver ≡ some p.deriver
  pub has_reader : uc.policy_reader ≡ some p.policy_reader
  pub has_clock : uc.clock ≡ some p.clock
  pub parsed : parse_supported_chain input.chain ≡ some chain
  pub supported : p.deriver.supports_chain chain ≡ true
  pub named : new_address_policy_id input.address_policy_id ≡ ok policy_id

module _ {D X : Type 0} where
  conflict_refused :
      (store : AllocationStore D) (r : IdempotencyRecord) (input : Input) (id : Text)
      (w : World D X)
      → pos 0 <ℤ r.payment_address_id
      → conflicts r input id ≡ true
      → replay_record store r input id w ≡ (err idempotency_key_conflict, w)
  unfolding replay_record
  conflict_refused store r input id w p c = ground arith

  replay_steps-conflict :
      (input : Input) (id : Text) (scope : TxScope D) (store : AllocationStore D)
      (keys : IdempotencyStore D) (r : IdempotencyRecord) (w : World D X)
      → scope.allocation ≡ some store
      → scope.idempotency ≡ some keys
      → (keys.find_by_key input.chain input.idempotency_key w.db).0 ≡ ok (some r)
      → pos 0 <ℤ r.payment_address_id
      → conflicts r input id ≡ true
      → (replay_steps input id scope w).0 ≡ err idempotency_key_conflict
  unfolding replay_steps
  replay_steps-conflict input id scope store keys r w p q f pos_id c =
      let d1 = (keys.find_by_key input.chain input.idempotency_key w.db).1 in
      let refused = conflict_refused store r input id (record w { db = d1 }) pos_id c in
      ground arith

  -- A key that was completed for a request of another policy, another amount or another customer
  -- reference is refused as a conflict, with the rows as they were.
  load_replayed-conflict :
      (u : UnitOfWork D X) (reader : PolicyReader X) (input : Input) (id : Text)
      (store : AllocationStore D) (keys : IdempotencyStore D) (r : IdempotencyRecord)
      (w : World D X)
      → u.scope.allocation ≡ some store
      → u.scope.idempotency ≡ some keys
      → (begin u w.ext).0 ≡ ok tt
      → is_empty input.idempotency_key ≡ false
      → (keys.find_by_key input.chain input.idempotency_key w.db).0 ≡ ok (some r)
      → pos 0 <ℤ r.payment_address_id
      → ¬ IsSameRequest r input id
      → let (result, w') = load_replayed u reader input id w in
        (result ≡ err idempotency_key_conflict) × (w'.db ≡ w.db)
  unfolding load_replayed replay_error
  load_replayed-conflict u reader input id store keys r w p q t k f pos_id other =
      let c = not_same-conflicts r input id other in
      let at : World D X = record w { ext = (begin u w.ext).1 } in
      let refused = replay_steps-conflict input id u.scope store keys r at p q f pos_id c in
      let (error, same) =
        within_transaction-err u (replay_steps input id) w idempotency_key_conflict t refused in
      (ground arith, ground arith)

  -- A request under a key that was completed for another policy, amount or customer reference ends in
  -- the conflict, and no row is changed: neither is the first allocation shown nor a second one issued,
  -- whatever the deriver, the policies and the issuance policy are.
  pub execute-conflict :
      (uc : UseCase D X) (input : Input) (ports : Ports D X) (chain policy_id : Text)
      (store : AllocationStore D) (keys : IdempotencyStore D) (r : IdempotencyRecord)
      (w : World D X)
      → IsAsked uc input ports chain policy_id
      → ports.unit_of_work.scope.allocation ≡ some store
      → ports.unit_of_work.scope.idempotency ≡ some keys
      → (begin ports.unit_of_work w.ext).0 ≡ ok tt
      → is_empty input.idempotency_key ≡ false
      → (keys.find_by_key chain input.idempotency_key w.db).0 ≡ ok (some r)
      → pos 0 <ℤ r.payment_address_id
      → ¬ IsSameRequest r input policy_id
      → let (result, w') = execute uc input w in
        (result ≡ err idempotency_key_conflict) × (w'.db ≡ w.db)
  unfolding execute replay_or_issue
  execute-conflict uc input ports chain policy_id store keys r w asked p q t k f positive other =
      let (refused, same) =
        load_replayed-conflict ports.unit_of_work ports.policy_reader
          (record input { chain = chain }) policy_id store keys r w p q t k f positive other in
      let u = asked.has_unit_of_work in
      let d = asked.has_deriver in
      let reads = asked.has_reader in
      let c = asked.has_clock in
      let parsed = asked.parsed in
      let supports = asked.supported in let named = asked.named in (ground arith, ground arith)
