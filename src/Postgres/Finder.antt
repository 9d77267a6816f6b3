-- ===== src/Postgres/Finder.antt =====
-- payment_address_status_finder.go of internal/adapters/outbound/persistence/postgres.
use payrune.Prelude.{◌&&◌, not, Option, none, some, first, if◌then◌else◌}
use payrune.Prelude.Int.{ℤ, pos, eqb_ℤ, leb_ℤ}
use payrune.Text.{Text, trim_space}
use payrune.Result.{Result, ok, err}
use payrune.Time.{Time}
use payrune.Ports.Error.{
  Error, status_find_failed, status_incomplete, status_persisted_chain_invalid,
  status_persisted_policy_id_invalid, status_persisted_network_invalid,
  status_persisted_receipt_status_invalid,
}
use payrune.Ports.Stores.{StatusRecord}
use payrune.Ports.Validation.{
  normalize_id, normalize_supported_chain, normalize_address_scheme, normalize_receipt_status,
}
use payrune.Postgres.Allocations.{is_row, issued, holds}
use payrune.Postgres.Driver.{Tx, Query, pure, run, lift, ◌>>=◌, find_status}
use payrune.Postgres.Reasons.{stored_tracking_reason}
use payrune.Postgres.Tables.{AllocationRow, TrackingRow, Tables, coalesce}

-- The record of FindByID, behind its tests.
abbrev pub status_record :
    AllocationRow → TrackingRow → Time → Text → Text → Text → Text → Text → StatusRecord
status_record a r issued_at chain policy_id network scheme status = record {
  payment_address_id = a.id;
  address_policy_id = policy_id;
  expected_amount = a.expected_amount;
  customer_reference = trim_space (coalesce a.customer_reference);
  chain = chain;
  network = network;
  scheme = scheme;
  address = trim_space (coalesce a.address);
  payment_status = status;
  observed_total = r.observed_total;
  confirmed_total = r.confirmed_total;
  unconfirmed_total = r.unconfirmed_total;
  required_confirmations = r.required_confirmations;
  last_observed_block_height = r.last_observed_block_height;
  issued_at = issued_at;
  first_observed_at = r.first_observed_at;
  paid_at = r.paid_at;
  confirmed_at = r.confirmed_at;
  expires_at = r.expires_at;
  last_failure_reason = stored_tracking_reason (coalesce r.last_error);
}

-- The tests of FindByID on the columns. With no tracking the columns of the join are null, and a
-- tracking has none of those that are tested one by one.
unfoldable pub answer : AllocationRow → Option TrackingRow → Result Error (Option StatusRecord)
answer a none = err status_incomplete
answer a (some r) = elim a.issued_at [
  | none ↦ err status_incomplete
  | some issued_at ↦ elim (normalize_supported_chain (coalesce a.chain)) [
    | none ↦ err status_persisted_chain_invalid
    | some chain ↦
        let (policy_id, policy_id_ok) = normalize_id a.address_policy_id in
        let (network, network_ok) = normalize_id (coalesce a.network) in
        if not policy_id_ok
        then err status_persisted_policy_id_invalid
        else if not network_ok
        then err status_persisted_network_invalid
        else elim (normalize_receipt_status r.receipt_status) [
          | none ↦ err status_persisted_receipt_status_invalid
          | some status ↦ elim (normalize_address_scheme (coalesce a.scheme)) [
            | none ↦ err status_incomplete
            | some scheme ↦
                ok (some (status_record a r issued_at chain policy_id network scheme status))
          ]
        ]
  ]
]

-- The SELECT: the issued allocation with its tracking; payment_address_id is unique among those.
unfoldable pub issued_with_tracking :
    Text → ℤ → Tables → Option (AllocationRow × Option TrackingRow)
unfolding first
issued_with_tracking chain id t =
    elim (first (λ a. is_row id issued a && holds chain a.chain) t.allocations) [
      | none ↦ none
      | some a ↦ some (a, first (λ r. eqb_ℤ r.payment_address_id a.id) t.trackings)
    ]

-- PaymentAddressStatusFinder.FindByID
unfoldable pub find_by_id : Tx → Text → ℤ → Query (Option StatusRecord)
unfolding issued_with_tracking answer
find_by_id x chain id = if leb_ℤ id (pos 0) then pure none else (do
  row ← run x find_status status_find_failed (λ t. (ok (issued_with_tracking chain id t), t))
  elim row [ none ↦ pure none | some (a, r) ↦ lift (answer a r) ])
