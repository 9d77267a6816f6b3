-- ===== src/Policies/Examples.antt =====
-- The policies of a small configuration, and the theorem about them there.
use payrune.Prelude.{ℕ, ◌≡◌, refl, some, true, any, List, [], ◌∷◌}
use payrune.Prelude.Int.{pos}
use payrune.Text.{
  codes, trim_space, trim_left, is_space, to_lower, lower, byte_len, strip_prefix, trim_suffix,
}
use payrune.Text.Id.{is_id_char, is_portable_id}
use payrune.Result.{ok}
use payrune.Domain.Values.{bitcoin}
use payrune.Ports.Records.{PolicyRecord}
use payrune.Ports.Validation.{normalize_id, normalize_supported_chain, normalize_address_scheme}
use payrune.UseCases.Policies.{execute, Response}
use payrune.Policies.{new_reader, find_issuance_by_id, reader_port}
use payrune.Policies.Agree.{execute-IsComplete, has_policy}

-- Two policies under one id, of which the first counts, and one that is passed over.
abbrev first_policy : PolicyRecord
first_policy = record {
  address_policy_id = codes " BTC ";
  chain = codes "Bitcoin";
  network = codes "mainnet";
  scheme = codes "taproot";
  asset_reference = [];
  decimals = pos 8;
  enabled = true;
  address_space_ref = codes "xpub";
  issuance_ref_prefix = codes "m/86/";
}

abbrev policies : List PolicyRecord
policies =
    first_policy
    ∷ record first_policy { decimals = pos 9 }
    ∷ record first_policy { address_policy_id = codes "doge"; chain = codes "dogecoin" }
    ∷ []

abbrev kept : PolicyRecord
kept = record first_policy {
  address_policy_id = codes "btc";
  chain = bitcoin;
  issuance_ref_prefix = codes "m/86";
}

finds : find_issuance_by_id (new_reader policies) (codes "btc") ≡ some kept
unfolding find_issuance_by_id new_reader normalize_id normalize_supported_chain
    normalize_address_scheme is_portable_id byte_len is_id_char to_lower lower trim_space trim_left
    is_space trim_suffix strip_prefix
finds = refl

execute-IsComplete_example :
    (response : Response) × (execute {X = ℕ} (some (reader_port (new_reader policies))) bitcoin 7
      ≡ (ok response, 7))
    × (any (has_policy kept) response.address_policies ≡ true)
execute-IsComplete_example = execute-IsComplete policies (codes "btc") 7 finds
