-- ===== src/UseCases/Store.antt =====
-- Concrete ports for the tests of the use cases: rows as lists, and a clock that counts. They stand
-- for no code of the repository.
use payrune.Prelude.{ℕ, ◌+◌, true, none, some, Option, List, [], ◌∷◌}
use payrune.Prelude.Int.{pos}
use payrune.Text.{codes}
use payrune.Result.{Result, ok, err}
use payrune.Domain.Values.{bitcoin, mainnet}
use payrune.Ports.Delivery.{DeliveryResult}
use payrune.Ports.Error.{Error, dependency_failure}
use payrune.Ports.Outside.{Observer, PolicyReader, Notifier, Deriver}
use payrune.Ports.Records.{PolicyRecord, AllocationRecord, TrackingRecord, StatusChangedRecord}
use payrune.Ports.Stores.{
  TrackingStore, Outbox, AllocationStore, IdempotencyStore, IdempotencyRecord,
}
use payrune.Ports.World.{World, UnitOfWork, Clock}

pub record Rows : Type 0 where
  pub trackings : List TrackingRecord
  pub events : List StatusChangedRecord
  pub results : List DeliveryResult
  pub completed : List AllocationRecord
  pub keys : List IdempotencyRecord

abbrev pub no_rows : Rows
no_rows = record { trackings = []; events = []; results = []; completed = []; keys = [] }

abbrev pub start : World Rows ℕ
start = record { db = no_rows; ext = 50 }

abbrev pub done : {A : Type 0} → A → Rows → Result Error A × Rows
done a d = (ok a, d)

abbrev pub trackings : TrackingStore Rows
trackings = record {
  create = λ r at d. done tt (record d { trackings = r ∷ d.trackings });
  claim_due = λ i d. done d.trackings d;
  save = λ r at next d. done tt (record d { trackings = r ∷ d.trackings });
}

abbrev pub outbox : Outbox Rows
outbox = record {
  enqueue_status_changed = λ e d. done tt (record d { events = e ∷ d.events });
  claim_pending = λ i d. done [] d;
  save_delivery_result = λ r d. done tt (record d { results = r ∷ d.results });
}

abbrev pub reserved_record : AllocationRecord
reserved_record = record {
  payment_address_id = pos 7;
  address_policy_id = codes "btc";
  slot_index = pos 4;
  expected_amount = pos 1000;
  customer_reference = [];
  status = codes "reserved";
  chain = [];
  network = [];
  scheme = [];
  asset_reference = [];
  address = [];
  derivation_failure_reason = [];
}

abbrev pub allocations : AllocationStore Rows
allocations = record {
  find_issued_by_id = λ id d. done (some (record reserved_record { status = codes "issued" })) d;
  reopen_failed_reservation = λ i d. done none d;
  reserve_fresh = λ i d. done reserved_record d;
  complete = λ c d. done tt (record d { completed = c.allocation ∷ d.completed });
  mark_derivation_failed = λ a d. done tt (record d { completed = a ∷ d.completed });
}

abbrev pub first_key : List IdempotencyRecord → Option IdempotencyRecord
first_key [] = none
first_key (k ∷ ks) = some k

abbrev pub keys : IdempotencyStore Rows
keys = record {
  find_by_key = λ chain key d. done (first_key d.keys) d;
  claim = λ i d.
      let r : IdempotencyRecord = record {
        chain = i.chain;
        idempotency_key = i.idempotency_key;
        address_policy_id = i.address_policy_id;
        expected_amount = i.expected_amount;
        customer_reference = i.customer_reference;
        payment_address_id = pos 0;
      } in
      done r (record d { keys = r ∷ d.keys });
  complete = λ chain key id d. done tt d;
  release = λ chain key d. done tt (record d { keys = [] });
}

abbrev pub unit_of_work : UnitOfWork Rows ℕ
unit_of_work = record {
  scope = record {
    allocation = some allocations;
    idempotency = some keys;
    tracking = some trackings;
    outbox = some outbox;
  };
  has_db = true;
  begin_tx = λ x. (true, x);
  commit = λ x. (true, x);
}

abbrev pub clock : Clock ℕ
clock = record { now_utc = λ x. (pos x, x + 1) }

-- every address has received 400 confirmed and 600 unconfirmed
abbrev pub observer : Observer ℕ
observer = record {
  fetch_latest_block_height = λ chain network x. (ok (pos 6), x);
  observe_address = λ i x. (
    ok (record {
      observed_total = pos 1000;
      confirmed_total = pos 400;
      unconfirmed_total = pos 600;
      latest_block_height = i.latest_block_height;
    }),
    x,
  );
}

abbrev pub policy_record : PolicyRecord
policy_record = record {
  address_policy_id = codes "btc";
  chain = bitcoin;
  network = mainnet;
  scheme = codes "taproot";
  asset_reference = [];
  decimals = pos 8;
  enabled = true;
  address_space_ref = [];
  issuance_ref_prefix = [];
}

abbrev pub policies : PolicyReader ℕ
policies = record {
  list_by_chain = λ chain x. (ok [], x);
  find_issuance_by_id = λ id x. (ok (some policy_record), x);
}

abbrev pub accepting : Notifier ℕ
accepting = record { notify_status_changed = λ i x. (ok tt, x) }

abbrev pub deriver : Deriver ℕ
deriver = record {
  supports_chain = λ chain. true;
  derive_issued_address = λ p a x. (ok (record { address = codes "bc1q"; sweep_material = [] }), x);
}

abbrev pub failing_deriver : Deriver ℕ
failing_deriver = record {
  supports_chain = λ chain. true;
  derive_issued_address = λ p a x. (err dependency_failure, x);
}
