-- ===== src/UseCases/Allocate/Atomic.antt =====
-- What a failed request of internal/application/usecases/allocate_payment_address_use_case.go
-- leaves in the database.
use payrune.Prelude.{
  refl, none, some, ◌≡◌, arith, inl, inr, Option-cases, Option, Bool-cases, false,
}
use payrune.Text.{Text}
use payrune.Result.{result-cases, err, is_ok}
use payrune.Time.{Time}
use payrune.Domain.Issuance.{plan, Plan, IssuancePolicy}
use payrune.Domain.Policy.{AddressIssuancePolicy}
use payrune.Domain.Values.{parse_supported_chain, new_address_policy_id}
use payrune.Ports.Error.{dependency_failure, address_policy_not_found, internal_failure}
use payrune.Ports.Outside.{Deriver}
use payrune.Ports.Records.{PolicyRecord, AllocationRecord, policy_from_record}
use payrune.Ports.World.{
  ◌>>=◌, World, UnitOfWork, on_error, attempt, Action, on_ext, pure, configured, lift, now,
}
use payrune.Ports.World.Laws.{IsAtomic, outcomes, bind-IsAtomic}
use payrune.UseCases.Allocate.{Input, load_replayed, Error, Response, UseCase}
use payrune.UseCases.Allocate.Execute.{
  respond, Ports, execute, issue_new, replay_or_issue, plan_error,
}
use payrune.UseCases.Allocate.Issue.{issue_allocation}
use payrune.UseCases.Allocate.Lookups.{LooksUp, issue_allocation-IsAtomic, load_replayed-kept}
use payrune.UseCases.Allocate.Writes.{issue_allocation-positive, issue_allocation-derived}

module _ {D X : Type 0} where
  respond_failed :
      (p : Ports D X) (input : Input) (id : Text) (policy : AddressIssuancePolicy) (e : Error)
      → LooksUp p.unit_of_work.scope
      → (w : World D X) → (respond p input id policy (err e) w).1.db ≡ w.db
  unfolding respond
  respond_failed p input id policy e looks w =
      let kept = load_replayed-kept p.unit_of_work p.policy_reader input id looks w in ground arith

  issue_and_respond-IsAtomic :
      (p : Ports D X) (input : Input) (id : Text) (policy : AddressIssuancePolicy) (plan : Plan)
      (at : Time)
      → LooksUp p.unit_of_work.scope
      → IsAtomic (
          attempt (issue_allocation p.unit_of_work p.deriver input plan at)
          >>= respond p input id policy)
  unfolding respond
  issue_and_respond-IsAtomic p input id policy plan at looks w w' e h =
      elim (outcomes (issue_allocation p.unit_of_work p.deriver input plan at w)) [
        | inr (f, v, q) ↦
            let undone = issue_allocation-IsAtomic p.unit_of_work p.deriver input plan at w v f q in
            let kept = respond_failed p input id policy f looks v in ground arith
        | inl (a, v, q) ↦
            let positive =
              issue_allocation-positive p.unit_of_work p.deriver input plan at w v a q in
            absurd (ground arith)
      ]

  issue_new-IsAtomic :
      (p : Ports D X) (policy : IssuancePolicy) (input : Input) (id : Text)
      → LooksUp p.unit_of_work.scope
      → IsAtomic (issue_new p policy input id)
  unfolding issue_new
  issue_new-IsAtomic p policy input id looks =
      bind-IsAtomic
        (on_error (λ _. dependency_failure) (on_ext (p.policy_reader.find_issuance_by_id id))) _
        (λ w. ground arith)
        (λ found.
          bind-IsAtomic (configured found address_policy_not_found) _ (λ w. refl)
            (λ r.
              bind-IsAtomic (lift (policy_from_record r) (λ _. internal_failure)) _ (λ w. refl)
                (λ known.
                  bind-IsAtomic (now p.clock) _ (λ w. refl)
                    (λ at.
                      bind-IsAtomic
                        (lift
                          (plan policy known input.chain input.expected_amount
                            input.customer_reference at)
                          plan_error)
                        _ (λ w. refl)
                        (λ planned.
                          issue_and_respond-IsAtomic p input id known planned at looks)))))

  answer-IsAtomic :
      (p : Ports D X) (policy : IssuancePolicy) (input : Input) (id : Text)
      → LooksUp p.unit_of_work.scope
      → (o : Option Response) (w w' : World D X) (e : Error)
      → elim o as (λ _. Action D X Response) [
        | some response ↦ pure response
        | none ↦ issue_new p policy input id
      ]
          w
        ≡ (err e, w')
      → w'.db ≡ w.db
  answer-IsAtomic p policy input id looks none w w' e h =
      issue_new-IsAtomic p policy input id looks w w' e h
  answer-IsAtomic p policy input id looks (some response) w w' e h = ground arith

  replay_or_issue-IsAtomic :
      (p : Ports D X) (policy : IssuancePolicy) (input : Input) (id : Text)
      → LooksUp p.unit_of_work.scope
      → IsAtomic (replay_or_issue p policy input id)
  unfolding replay_or_issue
  replay_or_issue-IsAtomic p policy input id looks =
      bind-IsAtomic (load_replayed p.unit_of_work p.policy_reader input id) _
        (load_replayed-kept p.unit_of_work p.policy_reader input id looks)
        (λ o. answer-IsAtomic p policy input id looks o)

  -- A request that fails leaves every row as it was: no allocation, tracking, slot or key is half
  -- written, whatever the error and wherever it came from, if the two lookups change nothing.
  pub execute-IsAtomic :
      (uc : UseCase D X) (input : Input)
      → ((u : UnitOfWork D X) → uc.unit_of_work ≡ some u → LooksUp u.scope)
      → (w w' : World D X) (e : Error) → execute uc input w ≡ (err e, w')
      → w'.db ≡ w.db
  unfolding execute
  execute-IsAtomic uc input looks w w' e h = elim (Option-cases uc.unit_of_work) [
    | inl p ↦ ground arith
    | inr (u, p) ↦ elim (Option-cases uc.deriver) [
      | inl q ↦ ground arith
      | inr (deriver, q) ↦ elim (Option-cases uc.policy_reader) [
        | inl r ↦ ground arith
        | inr (reader, r) ↦ elim (Option-cases uc.clock) [
          | inl s ↦ ground arith
          | inr (clock, s) ↦
              let ports : Ports D X = record {
                unit_of_work = u;
                deriver = deriver;
                policy_reader = reader;
                clock = clock;
              } in
              elim (Option-cases (parse_supported_chain input.chain)) [
                | inl t ↦ ground arith
                | inr (chain, t) ↦ elim (Bool-cases (deriver.supports_chain chain)) [
                  | inr y ↦ ground arith
                  | inl y ↦ elim (result-cases (new_address_policy_id input.address_policy_id)) [
                    | inr (f, z) ↦ ground arith
                    | inl (id, z) ↦
                        let kept =
                          replay_or_issue-IsAtomic ports uc.issuance_policy
                            (record input { chain = chain }) id (looks u p) w w' e in
                        kept (ground arith)
                  ]
                ]
              ]
        ]
      ]
    ]
  ]

  -- Where the deriver fails on every reservation, the request fails and the rows are as they were:
  -- the allocation is not marked as failed, although handleDerivationFailure saves the mark.
  pub derivation_failure-not_saved :
      (u : UnitOfWork D X) (deriver : Deriver X) (input : Input) (plan : Plan) (at : Time)
      → ((policy : PolicyRecord) (a : AllocationRecord) (x : X)
          → is_ok (deriver.derive_issued_address policy a x).0 ≡ false)
      → (w : World D X)
      → let (r, w') = issue_allocation u deriver input plan at w in
        (is_ok r ≡ false) × (w'.db ≡ w.db)
  derivation_failure-not_saved u deriver input plan at fails w =
      elim (outcomes (issue_allocation u deriver input plan at w)) [
        | inr (e, v, p) ↦
            let kept = issue_allocation-IsAtomic u deriver input plan at w v e p in
            (ground arith, ground arith)
        | inl (a, v, p) ↦
            let (policy, r, x, known) = issue_allocation-derived u deriver input plan at w v a p in
            let failed = fails policy r x in absurd (ground arith)
      ]
