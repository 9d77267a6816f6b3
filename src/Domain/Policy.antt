-- ===== src/Domain/Policy.antt =====
-- internal/domain/policies/address_issuance_policy.go.
pub mod Laws
use payrune.Prelude.{Bool, not, ◌&&◌, none, some, if◌then◌else◌}
use payrune.Prelude.Int.{ℤ, pos, leb_ℤ}
use payrune.Text.{Text, ◌==ᵗ◌, is_empty, trim_space, to_lower}
use payrune.Result.{Result, ok, ◌>>◌, reject_if}
use payrune.Domain.Error.{
  Error, policy_address_policy_id_required, policy_chain_mismatch, policy_not_enabled,
  policy_expected_amount_invalid,
}
use payrune.Domain.Values.{
  ethereum, parse_supported_chain, parse_network_id, normalize_policy_id, is_zero_policy_id,
  normalize_scheme, AddressIssuanceConfig, normalize_config,
}

-- AddressIssuancePolicy; `decimals` is a uint8.
pub record AddressIssuancePolicy : Type 0 where
  pub address_policy_id : Text
  pub chain : Text
  pub network : Text
  pub scheme : Text
  pub asset_reference : Text
  pub decimals : ℤ
  pub enabled : Bool
  pub issuance_config : AddressIssuanceConfig

-- The chain, the network and the asset reference as AddressIssuancePolicy.Normalize leaves them.
unfoldable pub normalize_chain : Text → Text
normalize_chain chain = elim (parse_supported_chain chain) [
  | none ↦ chain
  | some normalized ↦ normalized
]

unfoldable pub normalize_network : Text → Text
normalize_network network = elim (parse_network_id network) [
  | none ↦ to_lower (trim_space network)
  | some normalized ↦ normalized
]

unfoldable pub normalize_asset_reference : Text → Text → Text
normalize_asset_reference chain asset_reference =
    let trimmed = trim_space asset_reference in
    if chain ==ᵗ ethereum && not (is_empty trimmed) then to_lower trimmed else trimmed

-- AddressIssuancePolicy.Normalize
unfoldable pub normalize : AddressIssuancePolicy → AddressIssuancePolicy
normalize p = record p {
  address_policy_id = normalize_policy_id p.address_policy_id;
  issuance_config = normalize_config p.issuance_config;
  chain = normalize_chain p.chain;
  network = normalize_network p.network;
  scheme = normalize_scheme p.scheme;
  asset_reference = normalize_asset_reference (normalize_chain p.chain) p.asset_reference;
}

-- AddressIssuancePolicy.IsEnabled
unfoldable pub is_enabled : AddressIssuancePolicy → Bool
is_enabled p = (normalize p).enabled

-- AddressIssuancePolicy.ValidateForAllocationIssuance
unfoldable pub validate_for_issuance :
    AddressIssuancePolicy → Text → ℤ → Result Error AddressIssuancePolicy
unfolding is_enabled
validate_for_issuance p requested_chain amount = do
  let normalized = normalize p
  reject_if (is_zero_policy_id normalized.address_policy_id) policy_address_policy_id_required
  reject_if (not (normalized.chain ==ᵗ requested_chain)) policy_chain_mismatch
  reject_if (not (is_enabled normalized)) policy_not_enabled
  reject_if (leb_ℤ amount (pos 0)) policy_expected_amount_invalid
  ok normalized
