-- ===== src/Policies.antt =====
-- address_policy_reader.go of internal/adapters/outbound/policy: the policies of the configuration.
pub mod Agree
mod Examples
use payrune.Prelude.{
  Bool, true, false, not, ◌&&◌, Option, none, some, List, [], ◌∷◌, ◌++◌, filter, is_some,
  if◌then◌else◌,
}
use payrune.Text.{Text, codes, ◌==ᵗ◌, is_empty, trim_space, to_lower, trim_suffix}
use payrune.Result.{ok}
use payrune.Domain.Values.{lookup, ethereum}
use payrune.Ports.Outside.{ListedPolicy, PolicyReader}
use payrune.Ports.Records.{PolicyRecord}
use payrune.Ports.Validation.{normalize_id, normalize_supported_chain, normalize_address_scheme}

-- addressPolicyReader
pub record Reader : Type 0 where
  pub ordered : List ListedPolicy
  pub issuance_by_id : List (Text × PolicyRecord)

-- A policy under its normalised id, or none where it is passed over.
unfoldable pub normalized : Text → PolicyRecord → Option PolicyRecord
normalized id p = elim (normalize_supported_chain p.chain) [
  | none ↦ none
  | some chain ↦
      let (network, network_valid) = normalize_id p.network in
      let reference = trim_space p.asset_reference in
      elim network_valid [
        | false ↦ none
        | true ↦ elim (normalize_address_scheme p.scheme) [
          | none ↦ none
          | some scheme ↦ some (record p {
            address_policy_id = id;
            chain = chain;
            network = network;
            scheme = scheme;
            asset_reference =
                if chain ==ᵗ ethereum && not (is_empty reference)
                then to_lower reference
                else reference;
            address_space_ref = trim_space p.address_space_ref;
            issuance_ref_prefix = trim_suffix (trim_space p.issuance_ref_prefix) (codes "/");
          })
        ]
      ]
]

abbrev pub listed : PolicyRecord → ListedPolicy
listed p = record {
  address_policy_id = p.address_policy_id;
  chain = p.chain;
  network = p.network;
  scheme = p.scheme;
  asset_reference = p.asset_reference;
  decimals = p.decimals;
  enabled = p.enabled;
}

abbrev pub with_policy : Reader → PolicyRecord → Reader
with_policy r p = record {
  ordered = r.ordered ++ listed p ∷ [];
  issuance_by_id = (p.address_policy_id, p) ∷ r.issuance_by_id;
}

-- One step of the loop of NewAddressPolicyReader.
unfoldable pub add_policy : Reader → PolicyRecord → Reader
unfolding normalized
add_policy r p =
    let (id, valid) = normalize_id p.address_policy_id in
    if not valid
    then r
    else if is_some (lookup r.issuance_by_id id)
    then r
    else elim (normalized id p) [ none ↦ r | some q ↦ with_policy r q ]

unfoldable pub add_all : Reader → List PolicyRecord → Reader
unfolding add_policy
add_all r [] = r
add_all r (p ∷ rest) = add_all (add_policy r p) rest

-- NewAddressPolicyReader
abbrev pub no_policies : Reader
no_policies = record { ordered = []; issuance_by_id = [] }

unfoldable pub new_reader : List PolicyRecord → Reader
unfolding add_all
new_reader policies = add_all no_policies policies

-- ListByChain
unfoldable pub list_by_chain : Reader → Text → List ListedPolicy
unfolding filter
list_by_chain r chain = elim (normalize_supported_chain chain) [
  | none ↦ []
  | some c ↦ filter (λ p. p.chain ==ᵗ c) r.ordered
]

-- FindIssuanceByID
unfoldable pub find_issuance_by_id : Reader → Text → Option PolicyRecord
find_issuance_by_id r id =
    let (normalized_id, valid) = normalize_id id in
    if valid then lookup r.issuance_by_id normalized_id else none

-- The reader as the port; its calls never fail.
abbrev pub reader_port : {X : Type 0} → Reader → PolicyReader X
reader_port r = record {
  list_by_chain = λ chain x. (ok (list_by_chain r chain), x);
  find_issuance_by_id = λ id x. (ok (find_issuance_by_id r id), x);
}
