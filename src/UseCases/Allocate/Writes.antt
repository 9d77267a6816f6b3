-- ===== src/UseCases/Allocate/Writes.antt =====
-- What issueAllocation of internal/application/usecases/allocate_payment_address_use_case.go has
-- written when it returns an allocation.
use payrune.Prelude.{◌≡◌, ◌⊎◌, arith, inl, inr, some, Option-cases, true, false, Bool-cases}
use payrune.Text.{is_empty}
use payrune.Prelude.Int.{◌<ℤ◌, pos}
use payrune.Result.{ok, is_ok, result-cases}
use payrune.Time.{Time}
use payrune.Domain.Allocation.{Allocation}
use payrune.Domain.Allocation.Lifecycle.{issue_receipt_tracking-positive}
use payrune.Domain.Issuance.{Plan}
use payrune.Ports.Outside.{Deriver, Derived}
use payrune.Ports.Records.{
  record_from_allocation, record_from_policy, PolicyRecord, AllocationRecord,
}
use payrune.Ports.Stores.{AllocationStore, IdempotencyStore, IdempotencyRecord, TrackingStore}
use payrune.Ports.World.{World, TxScope, UnitOfWork}
use payrune.Ports.World.Laws.{committed, outcomes}
use payrune.UseCases.Allocate.{Input}
use payrune.UseCases.Allocate.Completed.{Completed, issue_reserved-Completed}
use payrune.UseCases.Allocate.Issue.{
  issue_allocation, issue_steps, claim_key, issued_allocation, issue_error, reserve_allocation,
  with_key, reserve_input,
}

-- The key of the request, where there is one, is claimed for the plan's policy, amount and customer
-- reference.
abbrev pub Claimed : {D : Type 0} → IdempotencyStore D → Input → Plan → D → D → Type 0
Claimed keys input plan d d' =
    ((is_empty input.idempotency_key ≡ true) × (d' ≡ d))
    ⊎ ((is_empty input.idempotency_key ≡ false)
        × (r : IdempotencyRecord) × (keys.claim
              (record {
                chain = input.chain;
                idempotency_key = input.idempotency_key;
                address_policy_id = plan.reservation.issuance_policy.address_policy_id;
                expected_amount = plan.reservation.expected_amount;
                customer_reference = plan.reservation.customer_reference;
              })
              d
            ≡ (ok r, d')))

-- The writes of an issue: the claim of the key, the reservation, and `Completed`, with the address
-- that the deriver gave.
unfoldable pub Issued :
    {D : Type 0} {X : Type 0}
    → Deriver X
    → TxScope D
    → Input
    → Plan
    → Time
    → Allocation
    → D
    → D
    → Type 0
Issued {D = D} {X = X} deriver scope input plan issued_at issued d d' =
    (store : AllocationStore D) × (keys : IdempotencyStore D) × (trackings : TrackingStore D)
    × (scope.allocation ≡ some store)
    × (scope.idempotency ≡ some keys)
    × (scope.tracking ≡ some trackings)
    × (reserved : Allocation) × (derived : Derived) × (w1 : World D X) × (w2 : World D X) × Claimed
        keys input plan d w1.db
    × (reserve_allocation store (reserve_input plan) plan.reservation_attempts w1
        ≡ (ok reserved, w2))
    × ((deriver.derive_issued_address (record_from_policy plan.reservation.issuance_policy)
          (record_from_allocation reserved) w2.ext).0
        ≡ ok derived)
    × (issued_allocation plan reserved derived.address ≡ ok issued)
    × Completed store keys trackings input plan issued_at derived.sweep_material issued w2.db d'

module _ {D X : Type 0} where
  claim_key-Claimed :
      (keys : IdempotencyStore D) (input : Input) (plan : Plan) (w w' : World D X)
      → claim_key keys input plan w ≡ (ok tt, w')
      → Claimed keys input plan w.db w'.db
  unfolding claim_key with_key
  claim_key-Claimed keys input plan w w' h = elim (Bool-cases (is_empty input.idempotency_key)) [
    | inl none_given ↦ inl (none_given, ground arith)
    | inr given ↦
        let (result, d) =
          keys.claim
            (record {
              chain = input.chain;
              idempotency_key = input.idempotency_key;
              address_policy_id = plan.reservation.issuance_policy.address_policy_id;
              expected_amount = plan.reservation.expected_amount;
              customer_reference = plan.reservation.customer_reference;
            })
            w.db in
        elim (result-cases result) [
          | inr (e, p) ↦ absurd (ground arith)
          | inl (r, p) ↦ inr (given, r, ground arith)
        ]
  ]

  issue_steps-Issued :
      (deriver : Deriver X) (input : Input) (plan : Plan) (at : Time) (scope : TxScope D)
      (w w' : World D X) (b : Allocation)
      → issue_steps deriver input plan at scope w ≡ (ok b, w')
      → Issued deriver scope input plan at b w.db w'.db
  unfolding issue_steps Issued
  issue_steps-Issued deriver input plan at scope w w' b h = elim (Option-cases scope.allocation) [
    | inl p ↦ absurd (ground arith)
    | inr (store, p) ↦ elim (Option-cases scope.idempotency) [
      | inl q ↦ absurd (ground arith)
      | inr (keys, q) ↦ elim (Option-cases scope.tracking) [
        | inl r ↦ absurd (ground arith)
        | inr (trackings, r) ↦ elim (outcomes (claim_key keys input plan w)) [
          | inr (e, v, s) ↦ absurd (ground arith)
          | inl (_, w1, s) ↦
              elim (outcomes
                (reserve_allocation store (reserve_input plan) plan.reservation_attempts w1)) [
                  | inr (e, v, t) ↦ absurd (ground arith)
                  | inl (a, w2, t) ↦
                      let (derived, known, e, done) =
                        issue_reserved-Completed deriver store keys trackings input plan at a b w2
                          w' (ground arith) in
                      (
                        store,
                        keys,
                        trackings,
                        p,
                        q,
                        r,
                        a,
                        derived,
                        w1,
                        w2,
                        claim_key-Claimed keys input plan w w1 s,
                        t,
                        known,
                        e,
                        done,
                      )
                ]
        ]
      ]
    ]
  ]

  pub issue_allocation-Issued :
      (u : UnitOfWork D X) (deriver : Deriver X) (input : Input) (plan : Plan) (at : Time)
      (w w' : World D X) (b : Allocation)
      → issue_allocation u deriver input plan at w ≡ (ok b, w')
      → Issued deriver u.scope input plan at b w.db w'.db
  unfolding issue_allocation
  issue_allocation-Issued u deriver input plan at w w' b h =
      committed u issue_error (issue_steps deriver input plan at) b
        (Issued deriver u.scope input plan at b)
        (λ v v'. issue_steps-Issued deriver input plan at u.scope v v' b) w w' h

  pub issue_allocation-positive :
      (u : UnitOfWork D X) (deriver : Deriver X) (input : Input) (plan : Plan) (at : Time)
      (w w' : World D X) (b : Allocation)
      → issue_allocation u deriver input plan at w ≡ (ok b, w')
      → pos 0 <ℤ b.payment_address_id
  unfolding Issued Completed
  issue_allocation-positive u deriver input plan at w w' b h =
      let issue = issue_allocation-Issued u deriver input plan at w w' b h in
      let (store, keys, trackings, p, q, r, a, derived, w1, w2, c, res, known, e, done) = issue in
      let (tracking, d1, d2, x, made, y, z) = done in
      issue_receipt_tracking-positive b at plan.receipt_terms.required_confirmations
        plan.receipt_terms.expires_at tracking made

  pub issue_allocation-derived :
      (u : UnitOfWork D X) (deriver : Deriver X) (input : Input) (plan : Plan) (at : Time)
      (w w' : World D X) (b : Allocation)
      → issue_allocation u deriver input plan at w ≡ (ok b, w')
      → (policy : PolicyRecord) × (a : AllocationRecord) × (x : X) × (is_ok
            (deriver.derive_issued_address policy a x).0
          ≡ true)
  unfolding Issued
  issue_allocation-derived u deriver input plan at w w' b h =
      let issue = issue_allocation-Issued u deriver input plan at w w' b h in
      let (store, keys, trackings, p, q, r, a, derived, w1, w2, c, res, known, e, done) = issue in
      (
        record_from_policy plan.reservation.issuance_policy,
        record_from_allocation a,
        w2.ext,
        ground arith,
      )
