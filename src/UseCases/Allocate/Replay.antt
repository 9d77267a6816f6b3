-- ===== src/UseCases/Allocate/Replay.antt =====
-- When internal/application/usecases/allocate_payment_address_use_case.go replays a response.
use payrune.Prelude.{
  ◌≡◌, refl, ◌∙◌, arith, inl, inr, Option, none, some, Option-cases, Bool-cases, true, false,
}
use payrune.Prelude.Int.{pos, ◌<ℤ◌}
use payrune.Text.{is_empty, Text, trim_space}
use payrune.Text.Laws.{==ᵗ_eq}
use payrune.Result.{ok, result-cases}
use payrune.Domain.Allocation.{Allocation}
use payrune.Domain.Policy.{AddressIssuancePolicy}
use payrune.Ports.Outside.{PolicyReader}
use payrune.Ports.Records.{
  AllocationRecord, PolicyRecord, allocation_from_record, policy_from_record,
}
use payrune.Ports.Stores.{AllocationStore, IdempotencyRecord, IdempotencyStore}
use payrune.Ports.World.{World, TxScope, UnitOfWork, within_transaction, on_error}
use payrune.Ports.World.Laws.{outcomes, committed}
use payrune.UseCases.Allocate.{
  load_replayed, replay_record, replay_response, replay_steps, Response, response_of, replay_error,
  Input, conflicts, format_int,
}

-- The key was used for this very request: the same policy, amount and customer reference.
abbrev pub IsSameRequest : IdempotencyRecord → Input → Text → Type 0
IsSameRequest r input id =
    (r.address_policy_id ≡ id)
    × (r.expected_amount ≡ input.expected_amount)
    × (r.customer_reference ≡ input.customer_reference)

-- The response of a replay.
abbrev pub replay_of : AddressIssuancePolicy → Allocation → Response
replay_of policy a = record {
  payment_address_id = format_int a.payment_address_id;
  address_policy_id = policy.address_policy_id;
  expected_amount = a.expected_amount;
  chain = a.chain;
  network = a.network;
  scheme = a.scheme;
  asset_reference = trim_space policy.asset_reference;
  decimals = policy.decimals;
  address = a.address;
  customer_reference = a.customer_reference;
  idempotency_replayed = true;
}

response_of-eq :
    (policy : AddressIssuancePolicy) (a : Allocation)
    → response_of policy a true ≡ replay_of policy a
unfolding response_of
response_of-eq policy a = refl

pub conflicts-IsSameRequest :
    (r : IdempotencyRecord) (input : Input) (id : Text)
    → conflicts r input id ≡ false
    → IsSameRequest r input id
unfolding conflicts
conflicts-IsSameRequest r input id h = (
  ==ᵗ_eq r.address_policy_id id (ground arith),
  ground arith,
  ==ᵗ_eq r.customer_reference input.customer_reference (ground arith),
)

-- The key has a completed record that was made for this very request, and the allocation that the
-- record names is an issued one.
unfoldable pub Replays : {D : Type 0} → TxScope D → Input → Text → Allocation → D → Type 0
Replays {D = D} scope input id a d =
    (store : AllocationStore D) × (keys : IdempotencyStore D) × (r : IdempotencyRecord)
    × (stored : AllocationRecord) × (d1 : D) × (scope.allocation ≡ some store)
    × (scope.idempotency ≡ some keys)
    × (keys.find_by_key input.chain input.idempotency_key d ≡ (ok (some r), d1))
    × (pos 0 <ℤ r.payment_address_id)
    × IsSameRequest r input id
    × ((store.find_issued_by_id r.payment_address_id d1).0 ≡ ok (some stored))
    × (allocation_from_record stored ≡ ok a)

-- The reader has this policy under the policy id of the allocation.
abbrev pub HasPolicy :
    {X : Type 0} → PolicyReader X → Allocation → AddressIssuancePolicy → X → Type 0
HasPolicy reader a policy x =
    (r : PolicyRecord) × ((reader.find_issuance_by_id a.address_policy_id x).0 ≡ ok (some r))
    × (policy_from_record r ≡ ok policy)

module _ {D X : Type 0} where
  replay_record-found :
      (store : AllocationStore D) (r : IdempotencyRecord) (input : Input) (id : Text)
      (a : Allocation) (w w' : World D X)
      → replay_record store r input id w ≡ (ok (some a), w')
      → (stored : AllocationRecord) × (pos 0 <ℤ r.payment_address_id)
        × (conflicts r input id ≡ false)
        × ((store.find_issued_by_id r.payment_address_id w.db).0 ≡ ok (some stored))
        × (allocation_from_record stored ≡ ok a)
  unfolding replay_record
  replay_record-found store r input id a w w' h =
      elim (result-cases (store.find_issued_by_id r.payment_address_id w.db).0) [
        | inr (e, p) ↦ absurd (ground arith)
        | inl (o, p) ↦ elim (Option-cases o) [
          | inl q ↦ absurd (ground arith)
          | inr (stored, q) ↦ (stored, ground arith, ground arith, ground arith, ground arith)
        ]
      ]

  replay_steps-found :
      (input : Input) (id : Text) (scope : TxScope D) (a : Allocation) (w w' : World D X)
      → replay_steps input id scope w ≡ (ok (some a), w')
      → Replays scope input id a w.db
  unfolding replay_steps Replays
  replay_steps-found input id scope a w w' h = elim (Option-cases scope.allocation) [
    | inl p ↦ absurd (ground arith)
    | inr (store, p) ↦ elim (Option-cases scope.idempotency) [
      | inl q ↦ absurd (ground arith)
      | inr (keys, q) ↦
          let (found, d1) = keys.find_by_key input.chain input.idempotency_key w.db in
          elim (result-cases found) [
            | inr (e, r) ↦ absurd (ground arith)
            | inl (o, r) ↦ elim (Option-cases o) [
              | inl s ↦ absurd (ground arith)
              | inr (x, s) ↦
                  let (stored, positive, same, known, made) =
                    replay_record-found store x input id a (record w { db = d1 }) w'
                      (ground arith) in
                  (
                    store,
                    keys,
                    x,
                    stored,
                    d1,
                    p,
                    q,
                    ground arith,
                    positive,
                    conflicts-IsSameRequest x input id same,
                    known,
                    made,
                  )
            ]
          ]
    ]
  ]

  replay_response-found :
      (reader : PolicyReader X) (o : Option Allocation) (response : Response) (w w' : World D X)
      → replay_response reader o w ≡ (ok (some response), w')
      → (a : Allocation) × (policy : AddressIssuancePolicy) × (o ≡ some a)
        × HasPolicy reader a policy w.ext
        × (response ≡ replay_of policy a)
  unfolding replay_response
  replay_response-found reader none response w w' h = absurd (ground arith)
  replay_response-found reader (some a) response w w' h =
      elim (result-cases (reader.find_issuance_by_id a.address_policy_id w.ext).0) [
        | inr (e, p) ↦ absurd (ground arith)
        | inl (o, p) ↦ elim (Option-cases o) [
          | inl q ↦ absurd (ground arith)
          | inr (r, q) ↦ elim (result-cases (policy_from_record r)) [
            | inr (e, s) ↦ absurd (ground arith)
            | inl (policy, s) ↦ (
              a,
              policy,
              refl,
              (r, ground arith, s),
              (let e : response ≡ response_of policy a true = ground arith in
                  e ∙ response_of-eq policy a),
            )
          ]
        ]
      ]

  -- A response is only replayed for a request with a key, when the key has a completed record that
  -- was made for the same policy, amount and customer reference and that names an issued allocation.
  -- The response has every field of this allocation under its own name, the policy that the reader
  -- has under the allocation's policy id, and the flag of a replay.
  pub load_replayed-Replays :
      (u : UnitOfWork D X) (reader : PolicyReader X) (input : Input) (id : Text)
      (response : Response) (w w' : World D X)
      → load_replayed u reader input id w ≡ (ok (some response), w')
      → (is_empty input.idempotency_key ≡ false)
        × (a : Allocation) × (policy : AddressIssuancePolicy) × Replays u.scope input id a w.db
        × (x : X) × HasPolicy reader a policy x
        × (response ≡ replay_of policy a)
  unfolding load_replayed
  load_replayed-Replays u reader input id response w w' h =
      elim (outcomes (on_error replay_error (within_transaction u (replay_steps input id)) w)) [
        | inr (e, v, p) ↦ absurd (ground arith)
        | inl (o, v, p) ↦ elim (Bool-cases (is_empty input.idempotency_key)) [
          | inl y ↦ absurd (ground arith)
          | inr y ↦
              let (a, policy, q, has, made) =
                replay_response-found reader o response v w' (ground arith) in
              (
                y,
                a,
                policy,
                committed u replay_error (replay_steps input id) (some a)
                    (λ d _. Replays u.scope input id a d)
                    (λ x x'. replay_steps-found input id u.scope a x x') w v (ground arith),
                v.ext,
                has,
                made,
              )
        ]
      ]
