-- ===== src/Ports/Examples.antt =====
-- Tests and examples of the records, the normalisers and the delivery results.
use payrune.Prelude.{◌≡◌, refl, arith, none, some, [], true, inl, inr, ℕ}
use payrune.Prelude.Int.{pos}
use payrune.Text.{codes, trim_space, trim_left, is_space, lower, to_lower, byte_len, Text}
use payrune.Text.Id.{is_portable_id, is_id_char, parse_id}
use payrune.Result.{ok, Result, err}
use payrune.Domain.Allocation.{Allocation}
use payrune.Domain.Status.{paid_unconfirmed, observation_failed}
use payrune.Domain.Tracking.{Tracking}
use payrune.Domain.Values.{
  bitcoin, mainnet, parse_chain_id, parse_network_id, parse_address_policy_id,
}
use payrune.Ports.Delivery.{DeliveryResult}
use payrune.Ports.Delivery.Retry.{after_failures, after_failures_status}
use payrune.Ports.Error.{Error, dependency_failure}
use payrune.Ports.Records.{tracking_from_record, record_from_tracking}
use payrune.Ports.Records.RoundTrip.{
  IsAllocationStorable, IsStorable, tracking_from_record-record_from_tracking,
}
use payrune.Ports.Validation.{failed, normalize_id}
use payrune.Ports.Validation.Agree.{normalize_id-eq-parse}
use payrune.Ports.World.{begin, UnitOfWork, TxScope, World, within_transaction, finish}

abbrev paid : Tracking
paid = record {
  tracking_id = pos 3;
  payment_address_id = pos 7;
  address_policy_id = codes "btc";
  chain = bitcoin;
  network = mainnet;
  address = codes "bc1q";
  asset_reference = [];
  issued_at = pos 10;
  expected_amount = pos 1000;
  required_confirmations = pos 2;
  status = paid_unconfirmed;
  observed_total = pos 1000;
  confirmed_total = pos 0;
  unconfirmed_total = pos 1000;
  last_observed_block_height = pos 5;
  first_observed_at = some (pos 20);
  paid_at = some (pos 20);
  confirmed_at = none;
  expires_at = some (pos 100);
  last_failure_reason = observation_failed;
}

paid-IsStorable : IsStorable paid
unfolding is_portable_id is_id_char byte_len
paid-IsStorable = ground arith

tracking_from_record-record_from_tracking_example :
    tracking_from_record (record_from_tracking paid) ≡ ok paid
tracking_from_record-record_from_tracking_example =
    tracking_from_record-record_from_tracking paid paid-IsStorable

abbrev issued_slot : Allocation
issued_slot = record {
  payment_address_id = pos 7;
  address_policy_id = codes "btc";
  slot_index = pos 4;
  expected_amount = pos 1000;
  customer_reference = [];
  status = codes "issued";
  chain = bitcoin;
  network = mainnet;
  scheme = [];
  asset_reference = [];
  address = codes "bc1q";
  derivation_failure_reason = [];
}

portable_btc : is_portable_id (codes "btc") ≡ true
unfolding is_portable_id is_id_char byte_len
portable_btc = refl

portable_mainnet : is_portable_id mainnet ≡ true
unfolding is_portable_id is_id_char byte_len
portable_mainnet = refl

issued_slot-IsAllocationStorable : IsAllocationStorable issued_slot
issued_slot-IsAllocationStorable = record {
  policy_id = portable_btc;
  chain = inr (inl refl);
  network = inr portable_mainnet;
  scheme = inl refl;
  reason = inl refl;
}

normalize_id_test :
    (parse_chain_id (codes " BTC ") ≡ some (codes "btc"))
    × (parse_network_id (codes " BTC ") ≡ some (codes "btc"))
    × (parse_address_policy_id (codes " BTC ") ≡ some (codes "btc"))
unfolding normalize_id parse_chain_id parse_network_id parse_address_policy_id parse_id trim_space
    trim_left is_space to_lower lower byte_len is_id_char
normalize_id_test = normalize_id-eq-parse (codes " BTC ")

after_failures_status_example :
    (r : DeliveryResult) × (after_failures (pos 9) 3 (pos 5) (pos 50) 2 (pos 0) ≡ ok r)
    × (r.attempts ≡ pos 3)
    × (r.status ≡ failed)
after_failures_status_example =
    after_failures_status (pos 9) 3 (pos 5) (pos 50) (omega arith) (omega arith) refl (omega arith)
      2 0 (omega arith)

abbrev idle : UnitOfWork ℕ ℕ
idle = record {
  scope = record { allocation = none; idempotency = none; tracking = none; outbox = none };
  has_db = true;
  begin_tx = λ x. (true, x);
  commit = λ x. (true, x);
}

-- a transaction that writes and then fails
abbrev write_and_fail : TxScope ℕ → World ℕ ℕ → Result Error Text × World ℕ ℕ
write_and_fail scope w = (err dependency_failure, record w { db = 5 })

abbrev before : World ℕ ℕ
before = record { db = 1; ext = 0 }

write_undone : within_transaction idle write_and_fail before ≡ (err dependency_failure, before)
unfolding within_transaction finish begin
write_undone = refl
