-- ===== src/Domain/Issuance/Examples.antt =====
-- Tests and examples of policies and plans on concrete ones.
use payrune.Prelude.{◌≡◌, refl, some, [], ◌∷◌, true}
use payrune.Prelude.Int.{pos, ◌+ℤ◌}
use payrune.Text.{
  codes, trim_space, trim_left, is_space, lower, to_lower, byte_len, strip_prefix, trim_suffix,
}
use payrune.Text.Id.{is_id_char, parse_id}
use payrune.Result.{ok}
use payrune.Domain.Issuance.{
  put, configured, find, same_scope, normalize_scope, new_issuance_policy, Plan, Scope, ScopeMap,
  plan, reopen_failed, reserve_fresh,
}
use payrune.Domain.Policy.{
  normalize_chain, normalize_network, normalize_asset_reference, validate_for_issuance, is_enabled,
  AddressIssuancePolicy, normalize,
}
use payrune.Domain.Values.{
  address_schemes, normalize_config, parse_address_scheme, parse_chain_id, is_zero_policy_id,
  normalize_scheme, parse_supported_chain, parse_network_id, parse_address_policy_id, bitcoin,
  mainnet, normalize_policy_id, normalize_ref_prefix,
}

abbrev policy : AddressIssuancePolicy
policy = record {
  address_policy_id = codes "btc";
  chain = bitcoin;
  network = mainnet;
  scheme = codes "taproot";
  asset_reference = [];
  decimals = pos 8;
  enabled = true;
  issuance_config = record {
    address_space_ref = codes "xpub";
    issuance_ref_prefix = codes "m/86'/0'";
  };
}

abbrev mainnet_scope : Scope
mainnet_scope = record { chain = bitcoin; network = mainnet }

abbrev confirmations : ScopeMap
confirmations = (record { chain = codes "Bitcoin"; network = codes " mainnet " }, pos 3) ∷ []

policy_prefix :
    normalize_ref_prefix (normalize_ref_prefix policy.issuance_config.issuance_ref_prefix)
    ≡ normalize_ref_prefix policy.issuance_config.issuance_ref_prefix
unfolding normalize_ref_prefix trim_space trim_left is_space strip_prefix trim_suffix
policy_prefix = refl

mainnet_known : normalize_scope mainnet_scope ≡ some mainnet_scope
unfolding normalize_scope parse_supported_chain parse_network_id parse_address_policy_id parse_id
    trim_space trim_left is_space to_lower lower byte_len is_id_char
mainnet_known = refl

abbrev made : Plan
made = record {
  reservation = record {
    issuance_policy = normalize policy;
    expected_amount = pos 1000;
    customer_reference = codes "order";
  };
  reservation_attempts = reopen_failed ∷ reserve_fresh ∷ [];
  receipt_terms = record { required_confirmations = pos 3; expires_at = pos 604800000000005 };
}

planned :
    plan (new_issuance_policy confirmations []) policy bitcoin (pos 1000) (codes " order ") (pos 5)
    ≡ ok made
unfolding plan validate_for_issuance is_enabled is_zero_policy_id parse_id to_lower trim_space
    trim_left normalize is_space byte_len lower is_id_char normalize_chain parse_supported_chain
    configured ◌+ℤ◌ normalize_scope parse_network_id normalize_network find same_scope
    normalize_asset_reference address_schemes normalize_config normalize_policy_id
    normalize_ref_prefix normalize_scheme parse_address_policy_id parse_address_scheme
    parse_chain_id strip_prefix trim_suffix new_issuance_policy put
planned = refl
