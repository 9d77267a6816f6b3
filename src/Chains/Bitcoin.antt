-- ===== src/Chains/Bitcoin.antt =====
-- esplora_receipt_observer.go of internal/adapters/outbound/bitcoin: what an address has received,
-- and from which height on it is confirmed.
pub mod Sums
pub mod Counted
pub mod Sound
pub mod Client
pub mod Observe
pub mod Valid
pub mod Pages
use payrune.Prelude.{Bool, ◌&&◌, ◌||◌, not, Option, none, some, List, [], ◌∷◌, any, if◌then◌else◌}
use payrune.Prelude.Int.{ℤ, pos, ltb_ℤ, leb_ℤ, eqb_ℤ, add64, sub64}
use payrune.Text.{Text, ◌==ᵗ◌, is_empty, trim_space}
use payrune.Time.{Time, unix}

-- esploraTxVout
pub record TxOutput : Type 0 where
  pub value : ℤ
  pub addr : Text

-- esploraTxStatus
pub record TxStatus : Type 0 where
  pub confirmed : Bool
  pub block_height : ℤ
  pub block_time : ℤ

-- esploraTransaction
pub record Transaction : Type 0 where
  pub tx_id : Text
  pub outputs : List TxOutput
  pub status : TxStatus

-- The outputs that count: those to the address, with a value.
abbrev pub is_inbound : Text → TxOutput → Bool
is_inbound address o = trim_space o.addr ==ᵗ address && ltb_ℤ (pos 0) o.value

-- The loop of inboundValueForAddress, from `total` on.
unfoldable pub inbound_from : Text → ℤ → List TxOutput → ℤ
inbound_from address total [] = total
inbound_from address total (o ∷ rest) =
    inbound_from address (if is_inbound address o then add64 total o.value else total) rest

-- inboundValueForAddress
abbrev pub inbound_value : Transaction → Text → ℤ
inbound_value tx address = inbound_from address (pos 0) tx.outputs

-- calculateConfirmations
unfoldable pub confirmations : ℤ → ℤ → ℤ
confirmations latest height =
    if leb_ℤ latest (pos 0) || leb_ℤ height (pos 0) || ltb_ℤ latest height
    then pos 0
    else add64 (sub64 latest height) (pos 1)

-- The variables of aggregateInboundTotals.
pub record Totals : Type 0 where
  pub confirmed : ℤ
  pub unconfirmed : ℤ
  pub seen_ids : List Text

abbrev pub no_totals : Totals
no_totals = record { confirmed = pos 0; unconfirmed = pos 0; seen_ids = [] }

abbrev pub id_of : Transaction → Text
id_of tx = trim_space tx.tx_id

-- seenTxIDs: a blank id is not kept.
abbrev pub is_seen : List Text → Transaction → Bool
is_seen ids tx = not (is_empty (id_of tx)) && any (λ i. id_of tx ==ᵗ i) ids

abbrev pub with_id : Transaction → List Text → List Text
with_id tx ids = if is_empty (id_of tx) then ids else id_of tx ∷ ids

-- The arguments of aggregateInboundTotals that its loops share; `since` is issuedAtUnix.
pub record Scope : Type 0 where
  pub address : Text
  pub since : ℤ
  pub required : ℤ
  pub latest : ℤ

-- The rest of processTransaction, for an id that is new. An error is `none`.
unfoldable pub add_transaction : Scope → Transaction → Totals → Option Totals
unfolding confirmations
add_transaction c tx t =
    let inbound = inbound_value tx c.address in
    let as_unconfirmed = record t { unconfirmed = add64 t.unconfirmed inbound } in
    if eqb_ℤ inbound (pos 0)
    then some t
    else if not tx.status.confirmed
    then some as_unconfirmed
    else if leb_ℤ tx.status.block_time (pos 0)
    then none
    else if ltb_ℤ tx.status.block_time c.since
    then some t
    else if leb_ℤ c.required (confirmations c.latest tx.status.block_height)
    then some (record t { confirmed = add64 t.confirmed inbound })
    else some as_unconfirmed

-- processTransaction
unfoldable pub process_transaction : Scope → Transaction → Totals → Option Totals
unfolding add_transaction
process_transaction c tx t =
    if is_seen t.seen_ids tx
    then some t
    else add_transaction c tx (record t { seen_ids = with_id tx t.seen_ids })

unfoldable pub process_all : Scope → List Transaction → Totals → Option Totals
unfolding process_transaction
process_all c [] t = some t
process_all c (tx ∷ rest) t = elim (process_transaction c tx t) [
  | none ↦ none
  | some t' ↦ process_all c rest t'
]

-- aggregateInboundTotals
unfoldable pub aggregate :
    Text → Time → ℤ → ℤ → List Transaction → List Transaction → Option (ℤ × ℤ)
unfolding process_all
aggregate address issued_at required latest chain mempool =
    let c : Scope = record {
      address = trim_space address;
      since = unix issued_at;
      required = required;
      latest = latest;
    } in
    elim (process_all c chain no_totals) [
      | none ↦ none
      | some t ↦ elim (process_all c mempool t) [
        | none ↦ none
        | some t' ↦ some (t'.confirmed, t'.unconfirmed)
      ]
    ]
