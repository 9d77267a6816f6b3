-- ===== src/Domain/Values.antt =====
-- internal/domain/valueobjects: chains, networks, policy ids, schemes and the derivation config.
pub mod Laws
use payrune.Prelude.{Bool, Option, none, some, List, [], ◌∷◌, ◌++◌, if◌then◌else◌}
use payrune.Text.{Text, codes, ◌==ᵗ◌, is_empty, trim_space, to_lower, trim_suffix}
use payrune.Text.Id.{parse_id}
use payrune.Result.{Result, ok, err}
use payrune.Domain.Error.{Error, address_policy_id_invalid}

abbrev pub bitcoin : Text
bitcoin = codes "bitcoin"

abbrev pub ethereum : Text
ethereum = codes "ethereum"

abbrev pub mainnet : Text
mainnet = codes "mainnet"

abbrev pub testnet4 : Text
testnet4 = codes "testnet4"

abbrev pub sepolia : Text
sepolia = codes "sepolia"

-- ParseChainID
unfoldable pub parse_chain_id : Text → Option Text
parse_chain_id raw = parse_id raw

-- ParseNetworkID
unfoldable pub parse_network_id : Text → Option Text
parse_network_id raw = parse_id raw

-- ParseSupportedChain
unfoldable pub parse_supported_chain : Text → Option Text
unfolding parse_chain_id
parse_supported_chain raw = elim (parse_chain_id raw) [
  | none ↦ none
  | some chain_id ↦
      if chain_id ==ᵗ bitcoin
      then some bitcoin
      else if chain_id ==ᵗ ethereum
      then some ethereum
      else none
]

-- parseAddressPolicyID
unfoldable pub parse_address_policy_id : Text → Option Text
parse_address_policy_id raw = parse_id raw

-- NewAddressPolicyID
unfoldable pub new_address_policy_id : Text → Result Error Text
unfolding parse_address_policy_id
new_address_policy_id raw = elim (parse_address_policy_id raw) [
  | none ↦ err address_policy_id_invalid
  | some normalized ↦ ok normalized
]

-- AddressPolicyID.Normalize
unfoldable pub normalize_policy_id : Text → Text
unfolding parse_address_policy_id
normalize_policy_id id = elim (parse_address_policy_id id) [
  | none ↦ []
  | some normalized ↦ normalized
]

-- AddressPolicyID.IsZero
unfoldable pub is_zero_policy_id : Text → Bool
unfolding normalize_policy_id
is_zero_policy_id id = is_empty (normalize_policy_id id)

-- EthereumCreate2AddressPolicyID
unfoldable pub ethereum_create2_policy_id : Text → Text
unfolding parse_network_id
ethereum_create2_policy_id network = elim (parse_network_id network) [
  | none ↦ []
  | some normalized ↦
      if normalized ==ᵗ mainnet
      then codes "ethereum-mainnet-create2"
      else if normalized ==ᵗ sepolia
      then codes "ethereum-sepolia-create2"
      else codes "ethereum-" ++ (normalized ++ codes "-create2")
]

-- EthereumUSDTCreate2AddressPolicyID
unfoldable pub ethereum_usdt_create2_policy_id : Text → Text
unfolding parse_network_id
ethereum_usdt_create2_policy_id network = elim (parse_network_id network) [
  | none ↦ []
  | some normalized ↦
      if normalized ==ᵗ mainnet
      then codes "ethereum-mainnet-usdt-create2"
      else if normalized ==ᵗ sepolia
      then codes "ethereum-sepolia-usdt-create2"
      else codes "ethereum-" ++ (normalized ++ codes "-usdt-create2")
]

-- A Go map literal from strings, and its lookup.
abbrev pub lookup {ℓ} : {V : Type ℓ} → List (Text × V) → Text → Option V
lookup [] k = none
lookup ((j, v) ∷ m) k = if j ==ᵗ k then some v else lookup m k

unfoldable pub address_schemes : List (Text × Text)
address_schemes =
    (codes "legacy", codes "legacy")
    ∷ (codes "segwit", codes "segwit")
    ∷ (codes "nativesegwit", codes "nativeSegwit")
    ∷ (codes "taproot", codes "taproot")
    ∷ (codes "create2", codes "create2")
    ∷ []

-- ParseAddressScheme
unfoldable pub parse_address_scheme : Text → Option Text
unfolding address_schemes
parse_address_scheme raw = lookup address_schemes (to_lower (trim_space raw))

-- AddressScheme.Normalize
unfoldable pub normalize_scheme : Text → Text
normalize_scheme s = elim (parse_address_scheme s) [
  | none ↦ trim_space s
  | some normalized ↦ normalized
]

-- AddressScheme.IsCreate2
unfoldable pub is_create2 : Text → Bool
unfolding normalize_scheme
is_create2 s = normalize_scheme s ==ᵗ codes "create2"

-- AddressIssuanceConfig
pub record AddressIssuanceConfig : Type 0 where
  pub address_space_ref : Text
  pub issuance_ref_prefix : Text

-- normalizeIssuanceRefPrefix
unfoldable pub normalize_ref_prefix : Text → Text
normalize_ref_prefix raw = trim_suffix (trim_space raw) (codes "/")

-- AddressIssuanceConfig.Normalize
unfoldable pub normalize_config : AddressIssuanceConfig → AddressIssuanceConfig
normalize_config c = record c {
  address_space_ref = trim_space c.address_space_ref;
  issuance_ref_prefix = normalize_ref_prefix c.issuance_ref_prefix;
}
