-- ===== src/UseCases/Status/Examples.antt =====
-- Tests and examples of the status query on a concrete record.
use payrune.Prelude.{ℕ, ◌≡◌, refl, none, some, Option, [], true}
use payrune.Prelude.Int.{pos}
use payrune.Text.{Text, codes, trim_space, trim_left, is_space, to_lower, lower, byte_len}
use payrune.Text.Id.{parse_id, is_id_char}
use payrune.Result.{ok}
use payrune.Domain.Values.{bitcoin, mainnet, parse_supported_chain}
use payrune.Ports.Records.{PolicyRecord}
use payrune.Ports.Stores.{StatusRecord, StatusFinder}
use payrune.Ports.World.{World}
use payrune.UseCases.Status.{UseCase, Input, response_of, answer, execute}
use payrune.UseCases.Status.Answers.{execute-eq-ok, answer_of}
use payrune.Ports.Outside.{PolicyReader}
use payrune.UseCases.Store.{policies}

abbrev stored : StatusRecord
stored = record {
  payment_address_id = pos 7;
  address_policy_id = codes "btc";
  expected_amount = pos 1000;
  customer_reference = [];
  chain = bitcoin;
  network = mainnet;
  scheme = codes "taproot";
  address = codes "bc1q";
  payment_status = codes "watching";
  observed_total = pos 0;
  confirmed_total = pos 0;
  unconfirmed_total = pos 0;
  required_confirmations = pos 2;
  last_observed_block_height = pos 5;
  issued_at = pos 10;
  first_observed_at = none;
  paid_at = none;
  confirmed_at = none;
  expires_at = some (pos 100);
  last_failure_reason = codes "observation_failed";
}

abbrev finder : StatusFinder (Option StatusRecord)
finder = record { find_by_id = λ chain id d. (ok d, d) }

abbrev use_case : UseCase (Option StatusRecord) ℕ
use_case = record { finder = some finder; policy_reader = some policies }

abbrev query : Input
query = record { chain = codes " Bitcoin "; payment_address_id = pos 7 }

abbrev start : World (Option StatusRecord) ℕ
start = record { db = some stored; ext = 0 }

abbrev policy : PolicyRecord
policy = record {
  address_policy_id = codes "btc";
  chain = bitcoin;
  network = mainnet;
  scheme = codes "taproot";
  asset_reference = [];
  decimals = pos 8;
  enabled = true;
  address_space_ref = [];
  issuance_ref_prefix = [];
}

answered : execute use_case query start ≡ (ok (response_of stored policy), start)
unfolding execute answer parse_supported_chain parse_id trim_space trim_left is_space to_lower lower
    byte_len is_id_char
answered = refl

execute-eq-ok_example :
    (f : StatusFinder (Option StatusRecord)) × (reader : PolicyReader ℕ) × (chain : Text)
    × (r : StatusRecord) × (p : PolicyRecord) × (use_case.finder ≡ some f)
    × (use_case.policy_reader ≡ some reader)
    × (parse_supported_chain query.chain ≡ some chain)
    × ((f.find_by_id chain query.payment_address_id start.db).0 ≡ ok (some r))
    × ((reader.find_issuance_by_id r.address_policy_id start.ext).0 ≡ ok (some p))
    × (p.chain ≡ chain)
    × (response_of stored policy ≡ answer_of r p)
execute-eq-ok_example =
    execute-eq-ok use_case query start start (response_of stored policy) answered
