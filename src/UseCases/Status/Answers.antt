-- ===== src/UseCases/Status/Answers.antt =====
-- The answers of internal/application/usecases/get_payment_address_status_use_case.go.
use payrune.Prelude.{◌≡◌, refl, ◌∙◌, arith, inl, inr, none, some, Option-cases, true, []}
use payrune.Text.{Text, ◌==ᵗ◌, trim_space}
use payrune.Text.Laws.{==ᵗ_eq}
use payrune.UseCases.Allocate.{format_int}
use payrune.Result.{ok, result-cases}
use payrune.Domain.Status.{parse_failure_reason, reason_message}
use payrune.Domain.Values.{parse_supported_chain}
use payrune.Ports.Outside.{PolicyReader}
use payrune.Ports.Records.{PolicyRecord}
use payrune.Ports.Stores.{StatusRecord, StatusFinder}
use payrune.Ports.Validation.Agree.{failure_reason_message-eq-parse}
use payrune.Ports.World.{World}
use payrune.UseCases.Status.{UseCase, Input, Response, response_of, answer, execute}

-- The fields of an answer, from the record and its policy.
abbrev pub answer_of : StatusRecord → PolicyRecord → Response
answer_of r policy = record {
  payment_address_id = format_int r.payment_address_id;
  address_policy_id = r.address_policy_id;
  expected_amount = r.expected_amount;
  chain = r.chain;
  network = r.network;
  scheme = r.scheme;
  asset_reference = trim_space policy.asset_reference;
  decimals = policy.decimals;
  address = r.address;
  customer_reference = r.customer_reference;
  payment_status = r.payment_status;
  observed_total = r.observed_total;
  confirmed_total = r.confirmed_total;
  unconfirmed_total = r.unconfirmed_total;
  required_confirmations = r.required_confirmations;
  last_observed_block_height = r.last_observed_block_height;
  issued_at = r.issued_at;
  first_observed_at = r.first_observed_at;
  paid_at = r.paid_at;
  confirmed_at = r.confirmed_at;
  expires_at = r.expires_at;
  last_error = elim (parse_failure_reason r.last_failure_reason) [
    | none ↦ []
    | some reason ↦ reason_message reason
  ];
}

response_of-eq :
    (r : StatusRecord) (policy : PolicyRecord) → response_of r policy ≡ answer_of r policy
unfolding response_of
response_of-eq r policy = rw (failure_reason_message-eq-parse r.last_failure_reason) refl

module _ {D X : Type 0} where
  answer-eq-ok :
      (reader : PolicyReader X) (chain : Text) (r : StatusRecord) (w w' : World D X)
      (response : Response)
      → answer reader chain r w ≡ (ok response, w')
      → (policy : PolicyRecord) × ((reader.find_issuance_by_id r.address_policy_id w.ext).0
          ≡ ok (some policy))
        × (policy.chain ==ᵗ chain ≡ true)
        × (response ≡ response_of r policy)
  unfolding answer
  answer-eq-ok reader chain r w w' response h =
      elim (result-cases (reader.find_issuance_by_id r.address_policy_id w.ext).0) [
        | inr (e, p) ↦ absurd (ground arith)
        | inl (o, p) ↦ elim (Option-cases o) [
          | inl q ↦ absurd (ground arith)
          | inr (policy, q) ↦ (policy, ground arith, ground arith, ground arith)
        ]
      ]

  -- A status is only answered for the record that the finder has under the id in the parsed chain,
  -- with the policy that the reader has under the policy id of the record, where it is of that same
  -- chain. The answer has every field of the record under its own name, the asset reference and the
  -- decimals of the policy, and as its last error the domain's message for the failure reason, or none
  -- where the reason is none that is known.
  pub execute-eq-ok :
      (uc : UseCase D X) (input : Input) (w w' : World D X) (response : Response)
      → execute uc input w ≡ (ok response, w')
      → (finder : StatusFinder D) × (reader : PolicyReader X) × (chain : Text) × (r : StatusRecord)
        × (policy : PolicyRecord) × (uc.finder ≡ some finder)
        × (uc.policy_reader ≡ some reader)
        × (parse_supported_chain input.chain ≡ some chain)
        × ((finder.find_by_id chain input.payment_address_id w.db).0 ≡ ok (some r))
        × ((reader.find_issuance_by_id r.address_policy_id w.ext).0 ≡ ok (some policy))
        × (policy.chain ≡ chain)
        × (response ≡ answer_of r policy)
  unfolding execute
  execute-eq-ok uc input w w' response h = elim (Option-cases uc.finder) [
    | inl p ↦ absurd (ground arith)
    | inr (finder, p) ↦ elim (Option-cases uc.policy_reader) [
      | inl q ↦ absurd (ground arith)
      | inr (reader, q) ↦ elim (Option-cases (parse_supported_chain input.chain)) [
        | inl t ↦ absurd (ground arith)
        | inr (chain, t) ↦
            let (found, d) = finder.find_by_id chain input.payment_address_id w.db in
            elim (result-cases found) [
              | inr (e, f) ↦ absurd (ground arith)
              | inl (o, f) ↦ elim (Option-cases o) [
                | inl s ↦ absurd (ground arith)
                | inr (r, s) ↦
                    let (policy, known, same, made) =
                      answer-eq-ok reader chain r (record w { db = d }) w' response
                        (ground arith) in
                    (
                      finder,
                      reader,
                      chain,
                      r,
                      policy,
                      p,
                      q,
                      t,
                      ground arith,
                      known,
                      ==ᵗ_eq policy.chain chain same,
                      made ∙ response_of-eq r policy,
                    )
              ]
            ]
      ]
    ]
  ]
