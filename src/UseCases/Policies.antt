-- ===== src/UseCases/Policies.antt =====
-- internal/application/usecases/list_address_policies_use_case.go.
use payrune.Prelude.{Option, none, some, List, map}
use payrune.Text.{Text, trim_space}
use payrune.Result.{Result, ok, err}
use payrune.Domain.Values.{parse_supported_chain}
use payrune.Ports.Error.{
  Error, policy_reader_not_configured, chain_not_supported, dependency_failure,
}
use payrune.Ports.Outside.{PolicyReader, ListedPolicy}

-- ListAddressPoliciesResponse
pub record Response : Type 0 where
  pub chain : Text
  pub address_policies : List ListedPolicy

-- The policy of the answer; AddressPolicy of the inbound ports has the fields of the record.
abbrev pub shown : ListedPolicy → ListedPolicy
shown p = record p { asset_reference = trim_space p.asset_reference }

-- Execute; a nil reader is `none`.
unfoldable pub execute :
    {X : Type 0} → Option (PolicyReader X) → Text → X → Result Error Response × X
execute none chain x = (err policy_reader_not_configured, x)
execute (some reader) chain x = elim (parse_supported_chain chain) [
  | none ↦ (err chain_not_supported, x)
  | some c ↦
      let (policies, x') = reader.list_by_chain c x in
      (
        elim policies [
          | err _ ↦ err dependency_failure
          | ok found ↦ ok (record { chain = c; address_policies = map shown found })
        ],
        x',
      )
]
