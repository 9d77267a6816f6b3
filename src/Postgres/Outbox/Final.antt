-- ===== src/Postgres/Outbox/Final.antt =====
-- SaveDeliveryResult of payment_receipt_status_notification_outbox_store.go, and the claims after it.
use payrune.Prelude.{◌≡◌, false, List, [], ◌∷◌, ◌++◌}
use payrune.Prelude.Int.{ℤ}
use payrune.Text.{◌==ᵗ◌}
use payrune.Result.{Result, ok, err}
use payrune.Ports.Error.{Error}
use payrune.Ports.Stores.{OutboxMessage, ClaimNotifications}
use payrune.Ports.Validation.{pending}
use payrune.Postgres.Driver.{Tx}
use payrune.Postgres.Outbox.{claim_pending}
use payrune.Postgres.Tables.{NotificationRow, Tables}

-- What these claims return, one after the other; one that fails is rolled back.
unfoldable pub claimed_by : List (Tx × ClaimNotifications) → Tables → List OutboxMessage
claimed_by [] t = []
claimed_by ((y, input) ∷ rest) t =
    let (r, u) = claim_pending y input t in
    elim r [ ok claimed ↦ claimed ++ claimed_by rest u | err _ ↦ claimed_by rest t ]

-- The same by the result of the first claim.
abbrev followed_by :
    List (Tx × ClaimNotifications)
    → Tables
    → Result Error (List OutboxMessage) × Tables
    → List OutboxMessage
followed_by rest t (ok claimed, u) = claimed ++ claimed_by rest u
followed_by rest t (err _, u) = claimed_by rest t

-- The rows of an id are not pending.
abbrev IsOut : ℤ → NotificationRow → Type 0
IsOut id n = n.id ≡ id → n.delivery_status ==ᵗ pending ≡ false
