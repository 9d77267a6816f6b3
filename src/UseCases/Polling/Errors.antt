-- ===== src/UseCases/Polling/Errors.antt =====
-- Where processTracking returns an outcome, in
-- internal/application/usecases/run_receipt_polling_cycle_use_case.go.
use payrune.Prelude.{◌≡◌, false, Bool, true}
use payrune.Result.{ok, Result}
use payrune.Time.{Time}
use payrune.Domain.Observation.{IsInRange}
use payrune.Domain.Status.{FailureReason, Status}
use payrune.Domain.Tracking.{Tracking}
use payrune.Ports.Outside.{Observer, ObserveInput, ObserveOutput}
use payrune.Ports.World.{World}
use payrune.UseCases.Polling.{observation_of}

-- The observer reports int64 amounts.
abbrev pub ReportsInRange : {X : Type 0} → Observer X → Type 0
ReportsInRange {X = X} o =
    (i : ObserveInput) (x : X) (out : ObserveOutput)
    → (o.observe_address i x).0 ≡ ok out
    → IsInRange (observation_of out)

abbrev is_set : FailureReason → Bool
is_set FailureReason.unset = false
is_set _ = true
