-- ===== src/Postgres/Keys/Life.antt =====
-- What the claim and the completion of an idempotency key change in
-- payment_address_idempotency_store.go, and what is found of it then.
use payrune.Prelude.{◌≡◌, refl, true, false, none, some, [], ◌∷◌, ◌++◌, any, first, update, arith}
use payrune.Prelude.Int.{ℤ, pos}
use payrune.Text.{Text, is_empty, trim_space}
use payrune.Text.Laws.{==ᵗ_refl, trim_space_idem}
use payrune.Result.{ok, is_ok}
use payrune.Ports.Stores.{IdempotencyRecord, ClaimIdempotency}
use payrune.Ports.Validation.{normalize_id, normalize_supported_chain}
use payrune.Postgres.Driver.{Tx, find_key}
use payrune.Postgres.Keys.{
  claim, insert_row, complete, complete_row, find_by_key, find_row, key_record, found, has_key,
  is_open,
}
use payrune.Postgres.Tables.{KeyRow, Tables, null_if_empty}
use payrune.Postgres.Trackings.Stored.{
  coalesce-null_if_empty, normalize_id_self, normalize_id-portable,
}
use payrune.Prelude.Rows.{first-append, any-eq-first, first-update, All-first, every_one}

-- The row that Claim inserts.
abbrev pub claimed_row : ClaimIdempotency → KeyRow
claimed_row input = record {
  chain = input.chain;
  idempotency_key = trim_space input.idempotency_key;
  address_policy_id = (normalize_id input.address_policy_id).0;
  expected_amount = input.expected_amount;
  customer_reference = null_if_empty (trim_space input.customer_reference);
  payment_address_id = none;
}

abbrev pub claimed_record : ClaimIdempotency → IdempotencyRecord
claimed_record input = record {
  chain = input.chain;
  idempotency_key = trim_space input.idempotency_key;
  address_policy_id = (normalize_id input.address_policy_id).0;
  expected_amount = input.expected_amount;
  customer_reference = trim_space input.customer_reference;
  payment_address_id = pos 0;
}

pub claim-eq-ok :
    (x : Tx) (input : ClaimIdempotency) (t : Tables) {t' : Tables} {r : IdempotencyRecord}
    → claim x input t ≡ (ok r, t')
    → (any (has_key input.chain (trim_space input.idempotency_key)) t.keys ≡ false)
      × (is_empty (trim_space input.idempotency_key) ≡ false)
      × ((normalize_id input.address_policy_id).1 ≡ true)
      × (r ≡ claimed_record input)
      × (t' ≡ record t { keys = t.keys ++ (claimed_row input ∷ []) })
unfolding claim insert_row
claim-eq-ok x input t h = (ground arith, ground arith, ground arith, ground arith, ground arith)

find_row-eq-ok :
    (y : Tx) (chain key : Text) (t : Tables) (k : KeyRow)
    → y.fails find_key t ≡ false
    → is_empty (trim_space key) ≡ false
    → first (has_key chain (trim_space key)) t.keys ≡ some k
    → find_by_key y chain key t ≡ (found (key_record (trim_space key) k), t)
unfolding find_by_key find_row
find_row-eq-ok y chain key t k up full h = ground arith

normal_policy :
    (raw : Text)
    → (normalize_id raw).1 ≡ true
    → normalize_id (normalize_id raw).0 ≡ ((normalize_id raw).0, true)
normal_policy raw h = normalize_id_self (normalize_id raw).0 (normalize_id-portable raw h)

claimed_row-read :
    (input : ClaimIdempotency)
    → normalize_supported_chain input.chain ≡ some input.chain
    → (normalize_id input.address_policy_id).1 ≡ true
    → key_record (trim_space input.idempotency_key) (claimed_row input) ≡ ok (claimed_record input)
unfolding key_record
claimed_row-read input chain policy = ground (
  arith,
  normal_policy input.address_policy_id policy,
  coalesce-null_if_empty (trim_space input.customer_reference),
  trim_space_idem input.customer_reference,
)

pub claimed_row-has_key :
    (input : ClaimIdempotency)
    → has_key input.chain (trim_space input.idempotency_key) (claimed_row input) ≡ true
claimed_row-has_key input =
    ground (arith, ==ᵗ_refl input.chain, ==ᵗ_refl (trim_space input.idempotency_key))

named_read :
    (key : Text) (k : KeyRow) (id : ℤ) (r : IdempotencyRecord)
    → key_record key k ≡ ok r
    → key_record key (record k { payment_address_id = some id })
      ≡ ok (record r { payment_address_id = id })
unfolding key_record
named_read key k id r h = ground arith

-- A key that Claim has claimed on a supported chain is found with the record that Claim returned.
pub claim-read :
    (x y : Tx) (input : ClaimIdempotency) (t : Tables) {t' : Tables} {r : IdempotencyRecord}
    → normalize_supported_chain input.chain ≡ some input.chain
    → claim x input t ≡ (ok r, t')
    → y.fails find_key t' ≡ false
    → find_by_key y input.chain input.idempotency_key t' ≡ (ok (some r), t')
unfolding first
claim-read x y input t {t' = t'} chain h up =
    let (fresh, full, policy, made, e) = claim-eq-ok x input t h in
    let key = trim_space input.idempotency_key in
    let here : first (has_key input.chain key) t'.keys ≡ some (claimed_row input) = rw e (
      rw (first-append (has_key input.chain key) t.keys (claimed_row input ∷ [])) (
        rw (any-eq-first (has_key input.chain key) t.keys fresh)
          (rw (claimed_row-has_key input)))) in
    let read =
      find_row-eq-ok y input.chain input.idempotency_key t' (claimed_row input) up full here in
    let same = claimed_row-read input chain policy in cc

pub claim_taken :
    (y : Tx) (other : ClaimIdempotency) (t : Tables)
    → any (has_key other.chain (trim_space other.idempotency_key)) t.keys ≡ true
    → (is_ok (claim y other t).0 ≡ false) × ((claim y other t).1 ≡ t)
unfolding claim insert_row
claim_taken y other t taken = (ground arith, ground arith)

pub complete-eq-ok :
    (x : Tx) (chain key : Text) (id : ℤ) (t : Tables) {t' : Tables}
    → complete x chain key id t ≡ (ok tt, t')
    → (is_empty (trim_space key) ≡ false)
      × (t' ≡ record t {
        keys =
            update
              (is_open chain (trim_space key))
              (λ k. record k { payment_address_id = some id })
              t.keys;
      })
unfolding complete complete_row
complete-eq-ok x chain key id t h = (ground arith, ground arith)

-- Completing a key that is claimed and open makes it name the allocation, and changes nothing else of
-- what is found under it.
pub complete-find :
    (x y : Tx) (chain key : Text) (id : ℤ) (t : Tables) {t' : Tables} {k : KeyRow}
    {r : IdempotencyRecord}
    → first (has_key chain (trim_space key)) t.keys ≡ some k
    → k.payment_address_id ≡ none
    → key_record (trim_space key) k ≡ ok r
    → complete x chain key id t ≡ (ok tt, t')
    → y.fails find_key t' ≡ false
    → find_by_key y chain key t' ≡ (ok (some (record r { payment_address_id = id })), t')
complete-find x y chain key id t {t' = t'} {k = k} {r = r} here open_key known h up =
    let (full, e) = complete-eq-ok x chain key id t h in
    let name : KeyRow → KeyRow = λ q. record q { payment_address_id = some id } in
    let hit =
      (All-first (λ _. Unit) (has_key chain (trim_space key)) t.keys
        (every_one (λ _. Unit) t.keys (λ _. tt)) here).1 in
    let opened : is_open chain (trim_space key) k ≡ true = ground arith in
    let now_here : first (has_key chain (trim_space key)) t'.keys ≡ some (name k) = rw e (
      rw
        (
          first-update (has_key chain (trim_space key)) (is_open chain (trim_space key)) name t.keys
              (λ q. refl),
          here,
          opened,
        )
        refl) in
    let read = find_row-eq-ok y chain key t' (name k) up full now_here in
    let same = named_read (trim_space key) k id r known in cc
