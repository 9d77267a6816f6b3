-- ===== src/UseCases/Dispatch/Totals.antt =====
-- The loop of Execute of
-- internal/application/usecases/run_receipt_webhook_dispatch_cycle_use_case.go.
use payrune.Prelude.{
  [], ◌∷◌, ◌≡◌, refl, arith, inl, inr, ◌+◌, ◌≤◌, ℕ, List, ◌⊎◌, Option, length, none, ◌∙◌,
}
use payrune.Text.{Text}
use payrune.Result.{ok, Result, err}
use payrune.Time.{Time}
use payrune.Ports.Delivery.{mark_sent, resolve_failure, DeliveryResult}
use payrune.Ports.Stores.{OutboxMessage}
use payrune.Ports.Validation.{sent, pending, failed}
use payrune.Ports.World.{World}
use payrune.Ports.World.Laws.{outcomes}
use payrune.UseCases.Dispatch.{
  Output, UseCase, count, delivery_result, dispatch_all, Input, Ports, Error, prepare,
  process_notification, output_for, execute,
}
use payrune.UseCases.Dispatch.Delivers.{delivery_result-eq, process_notification-ResultSaved}

abbrev pub total : Output → ℕ
total o = o.sent_count + o.retried_count + o.failed_count

-- A delivery result has one of the three statuses that the loop counts.
delivery_result-status :
    (input : Input) (n : OutboxMessage) (answer : Result Error Unit) (at : Time)
    (result : DeliveryResult)
    → delivery_result input n answer at ≡ ok result
    → (result.status ≡ sent) ⊎ ((result.status ≡ pending) ⊎ (result.status ≡ failed))
unfolding delivery_result mark_sent resolve_failure
delivery_result-status input n (ok _) at result h = inl (ground arith)
delivery_result-status input n (err _) at result h = ground arith

total-count :
    (status : Text) (o : Output)
    → (status ≡ sent) ⊎ ((status ≡ pending) ⊎ (status ≡ failed))
    → (total (count status o) ≡ total o + 1) × ((count status o).claimed ≡ o.claimed)
unfolding count
total-count status o (inl e) = rw e (omega arith, refl)
total-count status o (inr (inl e)) = rw e (omega arith, refl)
total-count status o (inr (inr e)) = rw e (omega arith, refl)

module _ {D X : Type 0} where
  dispatch_all_totals :
      (p : Ports D X) (input : Input) (ns : List OutboxMessage) (before after : Output)
      (w w' : World D X) (failed_with : Option Error)
      → dispatch_all p input ns before w ≡ ((after, failed_with), w')
      → (total after ≤ total before + length ns)
        × (after.claimed ≡ before.claimed)
        × (failed_with ≡ none → total after ≡ total before + length ns)
  unfolding dispatch_all
  dispatch_all_totals p input [] before after w w' f h = (ground arith, ground arith, ground arith)
  dispatch_all_totals p input (n ∷ ns) before after w w' f h =
      elim (outcomes (process_notification p n input w)) [
        | inr (e, v, q) ↦ (ground arith, ground arith, ground arith)
        | inl (status, v, q) ↦
            let (policy, result, found, eq, st, saved) =
              process_notification-ResultSaved p n input w v status q in
            let (one, same) = total-count status before (
              rw st (
                delivery_result-status input n _ _ result (delivery_result-eq input n _ _ ∙ eq))) in
            let (le, claimed, all_counted) =
              dispatch_all_totals p input ns (count status before) after v w' f (ground arith) in
            (omega arith, claimed ∙ same, λ z. let sum = all_counted z in omega arith)
      ]

  -- The counts of sent, retried and failed notifications never exceed the number of claimed ones,
  -- and they add up to it where Execute returns no error.
  pub execute_counts :
      (uc : UseCase D X) (input : Input) (w w' : World D X) (out : Output)
      (failed_with : Option Error)
      → execute uc input w ≡ ((out, failed_with), w')
      → (total out ≤ out.claimed) × (failed_with ≡ none → total out ≡ out.claimed)
  unfolding execute
  execute_counts uc input w w' out f h = elim (outcomes (prepare uc input w)) [
    | inr (e, v, p) ↦ (ground arith, ground arith)
    | inl ((p, claimed), v, q) ↦
        let (le, same, all_counted) =
          dispatch_all_totals p input claimed (output_for (length claimed)) out v w' f
            (ground arith) in
        (omega arith, λ n. let sum = all_counted n in omega arith)
  ]
