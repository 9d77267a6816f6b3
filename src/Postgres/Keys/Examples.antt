-- ===== src/Postgres/Keys/Examples.antt =====
-- The idempotency store on small tables, and the theorems about it at these tables.
use payrune.Prelude.{◌≡◌, refl, false, none, some, List, [], ◌∷◌, first}
use payrune.Prelude.Int.{pos}
use payrune.Text.{codes, trim_space, trim_left, to_lower, lower, is_space, byte_len}
use payrune.Text.Id.{is_portable_id, is_id_char}
use payrune.Result.{ok, is_ok}
use payrune.Domain.Values.{bitcoin}
use payrune.Ports.Stores.{ClaimIdempotency, IdempotencyRecord}
use payrune.Ports.Validation.{normalize_supported_chain, normalize_id}
use payrune.Postgres.Keys.{
  claim, insert_row, complete, complete_row, find_by_key, key_record, has_key,
}
use payrune.Postgres.Keys.History.{
  Call, claim_it, complete_it, release_it, after_all, claim-once, after_all-named,
}
use payrune.Postgres.Keys.Life.{complete-find}
use payrune.Postgres.Samples.{no_tables, tx}
use payrune.Postgres.Tables.{Tables, KeyRow, null_if_empty}

abbrev request : ClaimIdempotency
request = record {
  chain = bitcoin;
  idempotency_key = codes " order-1 ";
  address_policy_id = codes "btc";
  expected_amount = pos 1000;
  customer_reference = codes "alice";
}

abbrev row : KeyRow
row = record {
  chain = bitcoin;
  idempotency_key = codes "order-1";
  address_policy_id = codes "btc";
  expected_amount = pos 1000;
  customer_reference = some (codes "alice");
  payment_address_id = none;
}

abbrev key_of_row : IdempotencyRecord
key_of_row = record {
  chain = bitcoin;
  idempotency_key = codes "order-1";
  address_policy_id = codes "btc";
  expected_amount = pos 1000;
  customer_reference = codes "alice";
  payment_address_id = pos 0;
}

abbrev claimed_tables : Tables
claimed_tables = record no_tables { keys = row ∷ [] }

abbrev completed_tables : Tables
completed_tables = record no_tables { keys = record row { payment_address_id = some (pos 7) } ∷ [] }

key_claimed : claim tx request no_tables ≡ (ok key_of_row, claimed_tables)
unfolding claim insert_row normalize_id null_if_empty trim_space trim_left is_space to_lower lower
    is_portable_id byte_len is_id_char
key_claimed = refl

key_completed :
    complete tx bitcoin (codes "order-1") (pos 7) claimed_tables ≡ (ok tt, completed_tables)
unfolding complete complete_row trim_space trim_left is_space
key_completed = refl

row_read : key_record (codes "order-1") row ≡ ok key_of_row
unfolding key_record normalize_supported_chain normalize_id trim_space trim_left is_space to_lower
    lower is_portable_id byte_len is_id_char
row_read = refl

-- What follows: a completion, and a claim and a completion that are refused.
abbrev later_calls : List Call
later_calls =
    complete_it tx bitcoin (codes "order-1") (pos 7)
    ∷ claim_it tx request
    ∷ complete_it tx bitcoin (codes "order-1") (pos 8)
    ∷ []

claim-once_example :
    let u = after_all claimed_tables later_calls in
    (is_ok (claim tx (record request { expected_amount = pos 5 }) u).0 ≡ false)
    × ((claim tx (record request { expected_amount = pos 5 }) u).1 ≡ u)
claim-once_example =
    claim-once tx tx request (record request { expected_amount = pos 5 }) later_calls no_tables refl
      refl (refl, (refl, (refl, tt))) key_claimed

after_all-named_example :
    first
      (has_key bitcoin (codes "order-1"))
      (after_all completed_tables (release_it tx bitcoin (codes "order-1") ∷ later_calls)).keys
    ≡ some (record row { payment_address_id = some (pos 7) })
unfolding first
after_all-named_example =
    after_all-named (release_it tx bitcoin (codes "order-1") ∷ later_calls) bitcoin
      (codes "order-1") (pos 7) (record row { payment_address_id = some (pos 7) }) completed_tables
      refl refl

complete-find_example :
    find_by_key tx bitcoin (codes "order-1") completed_tables
    ≡ (ok (some (record key_of_row { payment_address_id = pos 7 })), completed_tables)
unfolding first trim_space trim_left is_space
complete-find_example =
    complete-find tx tx bitcoin (codes "order-1") (pos 7) claimed_tables refl refl row_read
      key_completed refl
