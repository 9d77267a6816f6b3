-- ===== src/UseCases/Allocate/Lookups.antt =====
-- The lookups of a replay in internal/application/usecases/allocate_payment_address_use_case.go.
use payrune.Prelude.{refl, none, some, ◌≡◌, arith, inl, inr, Option-cases, Option}
use payrune.Prelude.Int.{ℤ}
use payrune.Text.{Text}
use payrune.Result.{result-cases}
use payrune.Time.{Time}
use payrune.Domain.Allocation.{Allocation}
use payrune.Domain.Issuance.{plan, Plan}
use payrune.Ports.Outside.{Deriver, PolicyReader}
use payrune.Ports.Stores.{AllocationStore, IdempotencyStore, IdempotencyRecord}
use payrune.Ports.World.{World, TxScope, UnitOfWork, on_error, within_transaction}
use payrune.Ports.World.Laws.{
  IsAtomic, on_error-IsAtomic, within_transaction-IsAtomic, outcomes, committed,
}
use payrune.UseCases.Allocate.{
  Input, replay_steps, replay_record, load_replayed, replay_response, replay_error,
}
use payrune.UseCases.Allocate.Issue.{issue_allocation}

-- The two lookups of a replay change no row.
pub record LooksUp {D : Type 0} (scope : TxScope D) : Type 0 where
  pub by_id :
      (store : AllocationStore D)
      → scope.allocation ≡ some store
      → (id : ℤ) (d : D) → (store.find_issued_by_id id d).1 ≡ d
  pub by_key :
      (keys : IdempotencyStore D)
      → scope.idempotency ≡ some keys
      → (chain key : Text) (d : D) → (keys.find_by_key chain key d).1 ≡ d

module _ {D X : Type 0} where
  pub issue_allocation-IsAtomic :
      (u : UnitOfWork D X) (deriver : Deriver X) (input : Input) (plan : Plan) (at : Time)
      → IsAtomic (issue_allocation u deriver input plan at)
  unfolding issue_allocation
  issue_allocation-IsAtomic u deriver input plan at =
      on_error-IsAtomic _ _ (within_transaction-IsAtomic u _)

  replay_record-kept :
      (store : AllocationStore D) (r : IdempotencyRecord) (input : Input) (id : Text)
      → ((i : ℤ) (d : D) → (store.find_issued_by_id i d).1 ≡ d)
      → (w : World D X) → (replay_record store r input id w).1.db ≡ w.db
  unfolding replay_record
  replay_record-kept store r input id looks w =
      let kept = looks r.payment_address_id w.db in ground arith

  replay_steps-kept :
      (input : Input) (id : Text) (scope : TxScope D)
      → LooksUp scope
      → (w : World D X) → (replay_steps input id scope w).1.db ≡ w.db
  unfolding replay_steps
  replay_steps-kept input id scope looks w = elim (Option-cases scope.allocation) [
    | inl p ↦ ground arith
    | inr (store, p) ↦ elim (Option-cases scope.idempotency) [
      | inl q ↦ ground arith
      | inr (keys, q) ↦
          let b = looks.by_key keys q input.chain input.idempotency_key w.db in
          let (found, d) = keys.find_by_key input.chain input.idempotency_key w.db in
          elim (result-cases found) [
            | inr (e, r) ↦ ground arith
            | inl (o, r) ↦ elim (Option-cases o) [
              | inl s ↦ ground arith
              | inr (x, s) ↦
                  let rest =
                    replay_record-kept store x input id (looks.by_id store p)
                      (record w { db = d }) in
                  ground arith
            ]
          ]
    ]
  ]

  replay_response-kept :
      (reader : PolicyReader X) (o : Option Allocation) (w : World D X)
      → (replay_response reader o w).1.db ≡ w.db
  unfolding replay_response
  replay_response-kept reader none w = refl
  replay_response-kept reader (some a) w = ground arith

  replay_found-kept :
      (u : UnitOfWork D X) (input : Input) (id : Text)
      → LooksUp u.scope
      → (w : World D X)
      → (on_error replay_error (within_transaction u (replay_steps input id)) w).1.db ≡ w.db
  replay_found-kept u input id looks w =
      elim (outcomes (on_error replay_error (within_transaction u (replay_steps input id)) w)) [
        | inr (e, v, p) ↦
            let same =
              on_error-IsAtomic replay_error (within_transaction u (replay_steps input id))
                (within_transaction-IsAtomic u (replay_steps input id)) w v e p in
            ground arith
        | inl (o, v, p) ↦
            let same =
              committed u replay_error (replay_steps input id) o (λ d d'. d' ≡ d)
                (λ x y r. let kept = replay_steps-kept input id u.scope looks x in ground arith) w v
                p in
            ground arith
      ]

  pub load_replayed-kept :
      (u : UnitOfWork D X) (reader : PolicyReader X) (input : Input) (id : Text)
      → LooksUp u.scope
      → (w : World D X) → (load_replayed u reader input id w).1.db ≡ w.db
  unfolding load_replayed
  load_replayed-kept u reader input id looks w =
      let kept = replay_found-kept u input id looks w in
      elim (outcomes (on_error replay_error (within_transaction u (replay_steps input id)) w)) [
        | inr (e, v, p) ↦ ground arith
        | inl (o, v, p) ↦ let rest = replay_response-kept reader o v in ground arith
      ]
