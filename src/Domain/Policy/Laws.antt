-- ===== src/Domain/Policy/Laws.antt =====
-- When internal/domain/policies/address_issuance_policy.go normalises twice.
use payrune.Prelude.{Option-cases, inl, inr, ◌≡◌, arith, ap, []}
use payrune.Text.{Text, codes, trim_space, trim_left, is_space, trim_suffix, strip_prefix}
use payrune.Text.Laws.{normal_idem, trim_space_idem, trim_space-to_lower, to_lower_idem}
use payrune.Text.Id.{parse_id, parse_id-IsPortable, parse_id_self}
use payrune.Domain.Policy.{
  AddressIssuancePolicy, normalize_chain, normalize_network, normalize_asset_reference, normalize,
}
use payrune.Domain.Values.{
  parse_supported_chain, parse_network_id, normalize_config, normalize_ref_prefix,
}
use payrune.Domain.Values.Laws.{
  parse_supported_chain_self, supported_chains, parse_id-normal, normalize_policy_id_idem,
  normalize_scheme_idem,
}

normalize_chain_idem : (c : Text) → normalize_chain (normalize_chain c) ≡ normalize_chain c
unfolding normalize_chain
normalize_chain_idem c = elim (Option-cases (parse_supported_chain c)) [
  | inl rejected ↦ ground arith
  | inr (n, accepted) ↦ ground (arith, parse_supported_chain_self n (supported_chains c accepted))
]

normalize_network_idem : (n : Text) → normalize_network (normalize_network n) ≡ normalize_network n
unfolding normalize_network parse_network_id
normalize_network_idem n = elim (Option-cases (parse_id n)) [
  | inl rejected ↦ ground (arith, parse_id-normal n, normal_idem n)
  | inr (m, accepted) ↦ ground (arith, parse_id_self m (parse_id-IsPortable n m accepted))
]

normalize_asset_reference_idem :
    (c a : Text)
    → normalize_asset_reference c (normalize_asset_reference c a) ≡ normalize_asset_reference c a
unfolding normalize_asset_reference
normalize_asset_reference_idem c a = ground (
  arith,
  trim_space_idem a,
  normal_idem a,
  trim_space-to_lower (trim_space a),
  to_lower_idem (trim_space a),
)

-- Normalising a policy twice is normalising it once, except for the issuance ref prefix, of which
-- every pass takes one more slash: it must not end in a slash or a space below the first one.
pub normalize_idem :
    (p : AddressIssuancePolicy)
    → let prefix = normalize_ref_prefix p.issuance_config.issuance_ref_prefix in
      normalize_ref_prefix prefix ≡ prefix → normalize (normalize p) ≡ normalize p
unfolding normalize normalize_config
normalize_idem p h =
    let ids = normalize_policy_id_idem p.address_policy_id in
    let chains = normalize_chain_idem p.chain in
    let networks = normalize_network_idem p.network in
    let schemes = normalize_scheme_idem p.scheme in
    let assets = normalize_asset_reference_idem (normalize_chain p.chain) p.asset_reference in
    let spaces = trim_space_idem p.issuance_config.address_space_ref in cc

-- A policy with a prefix that ends in two slashes.
abbrev slashes : AddressIssuancePolicy → AddressIssuancePolicy
slashes p = record p {
  issuance_config = record { address_space_ref = []; issuance_ref_prefix = codes "m/44'//" };
}

-- The prefix m/44'// is normalised to two different texts by one pass and by two.
normalize_not_idem :
    (p : AddressIssuancePolicy) → ¬ (normalize (normalize (slashes p)) ≡ normalize (slashes p))
unfolding normalize normalize_config normalize_ref_prefix trim_space trim_left is_space trim_suffix
    strip_prefix
normalize_not_idem p h =
    cc (ap (λ (q : AddressIssuancePolicy). q.issuance_config.issuance_ref_prefix) h)
