-- ===== src/Postgres/Keys.antt =====
-- payment_address_idempotency_store.go of internal/adapters/outbound/persistence/postgres.
mod Examples
pub mod History
pub mod Life
use payrune.Prelude.{
  Bool, ◌&&◌, not, Option, none, some, [], ◌∷◌, ◌++◌, any, update, first, filter, is_none,
  if◌then◌else◌,
}
use payrune.Prelude.Int.{ℤ, pos, leb_ℤ}
use payrune.Text.{Text, ◌==ᵗ◌, is_empty, trim_space}
use payrune.Result.{Result, ok, err}
use payrune.Ports.Error.{
  Error, idempotency_store_failed, idempotency_key_exists, idempotency_persisted_chain_invalid,
  idempotency_persisted_policy_id_invalid, idempotency_chain_required, idempotency_key_required,
  idempotency_policy_id_required, idempotency_expected_amount_invalid,
  idempotency_payment_address_id_invalid, idempotency_claim_not_found,
}
use payrune.Ports.Stores.{IdempotencyRecord, ClaimIdempotency}
use payrune.Ports.Validation.{normalize_id, normalize_supported_chain}
use payrune.Postgres.Driver.{
  Tx, Query, pure, run, read, guard, lift, ◌>>=◌, find_key, insert_key, complete_key, delete_key,
}
use payrune.Postgres.Tables.{KeyRow, coalesce, null_if_empty}

abbrev pub has_key : Text → Text → KeyRow → Bool
has_key chain key k = k.chain ==ᵗ chain && k.idempotency_key ==ᵗ key

-- `AND payment_address_id IS NULL`
abbrev pub is_open : Text → Text → KeyRow → Bool
is_open chain key k = has_key chain key k && is_none k.payment_address_id

-- The tests and the record of FindByKey, behind Scan.
unfoldable pub key_record : Text → KeyRow → Result Error IdempotencyRecord
key_record key k = elim (normalize_supported_chain k.chain) [
  | none ↦ err idempotency_persisted_chain_invalid
  | some chain ↦
      let (policy_id, policy_id_ok) = normalize_id k.address_policy_id in
      if not policy_id_ok
      then err idempotency_persisted_policy_id_invalid
      else ok (record {
        chain = chain;
        idempotency_key = key;
        address_policy_id = policy_id;
        expected_amount = k.expected_amount;
        customer_reference = coalesce k.customer_reference;
        payment_address_id = elim k.payment_address_id [ none ↦ pos 0 | some id ↦ id ];
      })
]

abbrev pub found : Result Error IdempotencyRecord → Result Error (Option IdempotencyRecord)
found r = elim r [ err e ↦ err e | ok k ↦ ok (some k) ]

unfoldable pub find_row : Text → Text → Query (Option KeyRow)
unfolding first
find_row chain key t = (ok (first (has_key chain key) t.keys), t)

-- PaymentAddressIdempotencyStore.FindByKey
unfoldable pub find_by_key : Tx → Text → Text → Query (Option IdempotencyRecord)
unfolding find_row
find_by_key x chain raw_key =
    let key = trim_space raw_key in
    if is_empty key then pure none else (do
      row ← run x find_key idempotency_store_failed (find_row chain key)
      elim row [ none ↦ pure none | some k ↦ lift (found (key_record key k)) ])

-- The INSERT of Claim; its primary key is (chain, idempotency_key).
unfoldable pub insert_row : ClaimIdempotency → Query Unit
unfolding null_if_empty
insert_row input t =
    let key = trim_space input.idempotency_key in
    if any (has_key input.chain key) t.keys then (err idempotency_key_exists, t) else (
      ok tt,
      record t {
        keys =
            t.keys
            ++ (record {
              chain = input.chain;
              idempotency_key = key;
              address_policy_id = (normalize_id input.address_policy_id).0;
              expected_amount = input.expected_amount;
              customer_reference = null_if_empty (trim_space input.customer_reference);
              payment_address_id = none;
            }
                ∷ []);
      },
    )

-- PaymentAddressIdempotencyStore.Claim, and isPaymentAddressIdempotencyDuplicateKey
unfoldable pub claim : Tx → ClaimIdempotency → Query IdempotencyRecord
unfolding insert_row
claim x input =
    let key = trim_space input.idempotency_key in
    let (policy_id, policy_id_ok) = normalize_id input.address_policy_id in
    guard (is_empty input.chain) idempotency_chain_required (
      guard (is_empty key) idempotency_key_required (
        guard (not policy_id_ok) idempotency_policy_id_required (
          guard (leb_ℤ input.expected_amount (pos 0)) idempotency_expected_amount_invalid (do
            inserted ← run x insert_key idempotency_store_failed (insert_row input)
            pure (record {
              chain = input.chain;
              idempotency_key = key;
              address_policy_id = policy_id;
              expected_amount = input.expected_amount;
              customer_reference = trim_space input.customer_reference;
              payment_address_id = pos 0;
            })))))

-- The UPDATE of Complete, with whether it met a row.
unfoldable pub complete_row : Text → Text → ℤ → Query Bool
unfolding update
complete_row chain key id t = (
  ok (any (is_open chain key) t.keys),
  record t {
    keys = update (is_open chain key) (λ k. record k { payment_address_id = some id }) t.keys;
  },
)

-- PaymentAddressIdempotencyStore.Complete
unfoldable pub complete : Tx → Text → Text → ℤ → Query Unit
unfolding complete_row
complete x chain raw_key id =
    let key = trim_space raw_key in
    guard (is_empty chain) idempotency_chain_required (
      guard (is_empty key) idempotency_key_required (
        guard (leb_ℤ id (pos 0)) idempotency_payment_address_id_invalid (do
          updated ← run x complete_key idempotency_store_failed (complete_row chain key id)
          affected ← read x complete_key idempotency_store_failed updated
          guard (not affected) idempotency_claim_not_found (pure tt))))

-- The DELETE of Release, with whether it met a row.
unfoldable pub release_row : Text → Text → Query Bool
unfolding filter
release_row chain key t = (
  ok (any (is_open chain key) t.keys),
  record t { keys = filter (λ k. not (is_open chain key k)) t.keys },
)

-- PaymentAddressIdempotencyStore.Release
unfoldable pub release : Tx → Text → Text → Query Unit
unfolding release_row
release x chain raw_key =
    let key = trim_space raw_key in
    guard (is_empty chain) idempotency_chain_required (
      guard (is_empty key) idempotency_key_required (do
        deleted ← run x delete_key idempotency_store_failed (release_row chain key)
        affected ← read x delete_key idempotency_store_failed deleted
        guard (not affected) idempotency_claim_not_found (pure tt)))
