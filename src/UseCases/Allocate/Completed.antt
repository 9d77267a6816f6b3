-- ===== src/UseCases/Allocate/Completed.antt =====
-- The end of the transaction of issueAllocation in
-- internal/application/usecases/allocate_payment_address_use_case.go.
use payrune.Prelude.{Bool-cases, ◌≡◌, arith, inl, inr, if◌then◌else◌, ◌≢◌}
use payrune.Text.{is_empty, Text}
use payrune.Result.{ok, result-cases, Result}
use payrune.Time.{Time}
use payrune.Domain.Allocation.{Allocation, issue_receipt_tracking}
use payrune.Domain.Issuance.{Plan}
use payrune.Domain.Tracking.{Tracking}
use payrune.Ports.Error.{dependency_failure, internal_failure}
use payrune.Ports.Outside.{Deriver, Derived}
use payrune.Ports.Records.{record_from_allocation, record_from_policy, record_from_tracking}
use payrune.Ports.Stores.{AllocationStore, IdempotencyStore, TrackingStore}
use payrune.Ports.World.{World}
use payrune.UseCases.Allocate.{Input, Error}
use payrune.UseCases.Allocate.Issue.{
  complete_issue, with_key, handle_derivation_failure, issue_reserved, issued_allocation,
}

-- The allocation is completed, its tracking is created and the idempotency key, where there is one,
-- is completed with its id, one after the other, and nothing else is written.
unfoldable pub Completed :
    {D : Type 0}
    → AllocationStore D
    → IdempotencyStore D
    → TrackingStore D
    → Input
    → Plan
    → Time
    → Text
    → Allocation
    → D
    → D
    → Type 0
Completed {D = D} store keys trackings input plan issued_at sweep_material issued d d' =
    (tracking : Tracking) × (d1 : D) × (d2 : D) × (store.complete
        (record {
          allocation = record_from_allocation issued;
          sweep_material = sweep_material;
          issued_at = issued_at;
        })
        d
      ≡ (ok tt, d1))
    × (issue_receipt_tracking issued issued_at plan.receipt_terms.required_confirmations
          plan.receipt_terms.expires_at
        ≡ ok tracking)
    × (trackings.create (record_from_tracking tracking) issued_at d1 ≡ (ok tt, d2))
    × (if is_empty input.idempotency_key
        then (ok tt, d2)
        else keys.complete input.chain input.idempotency_key issued.payment_address_id d2)
      ≡ (ok tt, d')

module _ {D X : Type 0} where
  complete_issue-Completed :
      (store : AllocationStore D) (keys : IdempotencyStore D) (trackings : TrackingStore D)
      (input : Input) (plan : Plan) (issued_at : Time) (sweep_material : Text) (issued : Allocation)
      (w w' : World D X) (b : Allocation)
      → complete_issue store keys trackings input plan issued_at sweep_material issued w
        ≡ (ok b, w')
      → (b ≡ issued)
        × Completed store keys trackings input plan issued_at sweep_material issued w.db w'.db
  unfolding complete_issue with_key Completed
  complete_issue-Completed store keys trackings input plan at sweep issued w w' b h =
      elim (result-cases (
        issue_receipt_tracking issued at plan.receipt_terms.required_confirmations
          plan.receipt_terms.expires_at)) [
            | inr (e, p) ↦ absurd (ground arith)
            | inl (tracking, p) ↦
                let d1 =
                  (store.complete
                    (record {
                      allocation = record_from_allocation issued;
                      sweep_material = sweep;
                      issued_at = at;
                    })
                    w.db).1 in
                let d2 = (trackings.create (record_from_tracking tracking) at d1).1 in
                elim (Bool-cases (is_empty input.idempotency_key)) [
                  | inl y ↦ (
                    ground arith,
                    (tracking, d1, d2, ground arith, p, ground arith, ground arith),
                  )
                  | inr n ↦ (
                    ground arith,
                    (tracking, d1, d2, ground arith, p, ground arith, ground arith),
                  )
                ]
          ]

  handle_derivation_failure-fails :
      (store : AllocationStore D) (keys : IdempotencyStore D) (input : Input) (a : Allocation)
      (e : Error) (w w' : World D X) (b : Allocation)
      → ◌≢◌ {A = Result Error Allocation × World D X}
          (handle_derivation_failure store keys input a e w)
          (ok b, w')
  unfolding handle_derivation_failure
  handle_derivation_failure-fails store keys input a e w w' b h = absurd (ground arith)

  pub issue_reserved-Completed :
      (deriver : Deriver X) (store : AllocationStore D) (keys : IdempotencyStore D)
      (trackings : TrackingStore D) (input : Input) (plan : Plan) (issued_at : Time)
      (a b : Allocation) (w w' : World D X)
      → issue_reserved deriver store keys trackings input plan issued_at a w ≡ (ok b, w')
      → (derived : Derived) × ((deriver.derive_issued_address
            (record_from_policy plan.reservation.issuance_policy)
            (record_from_allocation a)
            w.ext).0
          ≡ ok derived)
        × (issued_allocation plan a derived.address ≡ ok b)
        × Completed store keys trackings input plan issued_at derived.sweep_material b w.db w'.db
  unfolding issue_reserved
  issue_reserved-Completed deriver store keys trackings input plan at a b w w' h =
      let (derived, x) =
        deriver.derive_issued_address (record_from_policy plan.reservation.issuance_policy)
          (record_from_allocation a) w.ext in
      let v : World D X = record w { ext = x } in
      elim (result-cases derived) [
        | inr (e, p) ↦ absurd (
            handle_derivation_failure-fails store keys input a dependency_failure v w' b
              (ground arith))
        | inl (d, p) ↦ elim (result-cases (issued_allocation plan a d.address)) [
          | inr (e, q) ↦ absurd (
              handle_derivation_failure-fails store keys input a internal_failure v w' b
                (ground arith))
          | inl (issued, q) ↦
              let (same, done) =
                complete_issue-Completed store keys trackings input plan at d.sweep_material issued
                  v w' b (ground arith) in
              (d, p, ground arith, rw same done)
        ]
      ]
