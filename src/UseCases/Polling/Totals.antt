-- ===== src/UseCases/Polling/Totals.antt =====
-- The loop of Execute of internal/application/usecases/run_receipt_polling_cycle_use_case.go.
use payrune.Prelude.{
  ◌≡◌, refl, arith, inl, inr, Option, none, List, [], ◌∷◌, ◌++◌, ◌+◌, length, ℕ, ap, ◌∙◌, ◌≤◌,
  length-append,
}
use payrune.Time.{Time, add}
use payrune.Domain.Tracking.{Tracking}
use payrune.Ports.Outside.{Observer}
use payrune.Ports.World.{TxScope, UnitOfWork, World}
use payrune.Ports.World.Laws.{outcomes}
use payrune.UseCases.Polling.{
  Outcome, Caches, Error, UseCase, Input, no_caches, Output, processing_error,
}
use payrune.UseCases.Polling.Atomic.{process_tracking-IsAtomic}
use payrune.UseCases.Polling.Cycle.{poll_all, count, process_tracking, execute, prepare, output_for}
use payrune.UseCases.Polling.Writes.{Recorded, process_tracking-Recorded}

abbrev pub total : Output → ℕ
total o = o.updated + o.terminal_failed + o.processing_errors

total-count : (outcome : Outcome) (o : Output) → total (count outcome o) ≡ total o + 1
unfolding count
total-count Outcome.updated o = omega arith
total-count Outcome.terminal_failed o = omega arith
total-count processing_error o = omega arith

claimed-count : (outcome : Outcome) (o : Output) → (count outcome o).claimed ≡ o.claimed
unfolding count
claimed-count Outcome.updated o = refl
claimed-count Outcome.terminal_failed o = refl
claimed-count processing_error o = refl

settled_length :
    {A : Type 0} (settled rest ts : List A)
    → settled ++ rest ≡ ts
    → (length settled ≤ length ts) × (rest ≡ [] → length settled ≡ length ts)
settled_length settled rest ts e =
    let sum = length-append settled rest in
    let whole : length (settled ++ rest) ≡ length ts = ap length e in
    (omega arith, λ z. let none_left : length rest ≡ 0 = ap length z in omega arith)

-- The rows after the trackings of a list were settled one after the other, each in its own commit.
pub data Commits {D X : Type 0} (ob : Observer X) (scope : TxScope D) (at next : Time)
    : List Tracking → D → D → Type 0 where
  no_more : {d : D} → Commits ob scope at next [] d d
  commit :
      {t : Tracking} {ts : List Tracking} {d mid d' : D} (outcome : Outcome)
      → Recorded ob scope outcome t at next d mid
      → Commits ob scope at next ts mid d'
      → Commits ob scope at next (t ∷ ts) d d'

-- How far the loop came: the trackings it settled and those it left.
abbrev pub Progress :
    {D X : Type 0}
    → Observer X
    → TxScope D
    → Time
    → Time
    → List Tracking
    → Output
    → Output
    → Option Error
    → D
    → D
    → Type 0
Progress ob scope at next ts before after failed d d' =
    (settled rest : List Tracking) × (settled ++ rest ≡ ts)
    × Commits ob scope at next settled d d'
    × (total after ≡ total before + length settled)
    × (after.claimed ≡ before.claimed)
    × (failed ≡ none → rest ≡ [])

module _ {D X : Type 0} where
  -- The loop settles a prefix of the trackings in order, each in a commit of its own, and counts each
  -- once; the prefix is the whole list where it returns no error, and a failed step writes nothing.
  pub poll_all-Progress :
      (u : UnitOfWork D X) (o : Observer X) (at next : Time) (ts : List Tracking)
      (before after : Output) (c : Caches) (w w' : World D X) (failed : Option Error)
      → poll_all u o at next ts before c w ≡ ((after, failed), w')
      → Progress o u.scope at next ts before after failed w.db w'.db
  unfolding poll_all
  poll_all-Progress u o at next [] before after c w w' failed h =
      let same : w'.db ≡ w.db = ground arith in
      ([], [], refl, rw same no_more, ground arith, ground arith, λ _. refl)
  poll_all-Progress u o at next (t ∷ ts) before after c w w' failed h =
      elim (outcomes (process_tracking u o t at next c w)) [
        | inr (e, v, p) ↦
            let kept = process_tracking-IsAtomic u o t at next c w v e p in
            let same : w'.db ≡ w.db = ground arith in
            ([], t ∷ ts, refl, rw same no_more, ground arith, ground arith, ground arith)
        | inl ((outcome, c'), v, p) ↦
            let one = process_tracking-Recorded u o t at next c c' w v outcome p in
            let (settled, rest, parts, commits, sum, claimed, whole) =
              poll_all-Progress u o at next ts (count outcome before) after c' v w' failed
                (ground arith) in
            (
              t ∷ settled,
              rest,
              ap (◌∷◌ t) parts,
              commit outcome one commits,
              omega (arith, total-count outcome before),
              (claimed ∙ claimed-count outcome before),
              whole,
            )
      ]

  -- The counts of Execute never exceed the number of claimed trackings, and they add up to it where
  -- Execute returns no error.
  pub execute_totals :
      (uc : UseCase D X) (input : Input) (w w' : World D X) (out : Output) (failed : Option Error)
      → execute uc input w ≡ ((out, failed), w')
      → (total out ≤ out.claimed) × (failed ≡ none → total out ≡ out.claimed)
  unfolding execute
  execute_totals uc input w w' out failed h = elim (outcomes (prepare uc input w)) [
    | inr (e, v, p) ↦ (ground arith, ground arith)
    | inl (job, v, p) ↦
        let (settled, rest, parts, commits, sum, claimed, whole) =
          poll_all-Progress job.unit_of_work job.observer job.at
            (add job.at input.reschedule_interval) job.trackings (output_for (length job.trackings))
            out no_caches v w' failed (ground arith) in
        let (le, eq) = settled_length settled rest job.trackings parts in
        (omega arith, λ n. let all_settled = eq (whole n) in omega arith)
  ]
