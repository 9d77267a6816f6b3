-- ===== src/Postgres/Samples.antt =====
-- The empty tables and a driver that does its part, for the examples.
use payrune.Prelude.{[], false}
use payrune.Prelude.Int.{pos}
use payrune.Postgres.Driver.{Tx, working}
use payrune.Postgres.Tables.{Tables}

abbrev pub no_tables : Tables
no_tables = record {
  allocations = [];
  cursors = [];
  keys = [];
  trackings = [];
  notifications = [];
  next_allocation_id = pos 1;
  next_tracking_id = pos 1;
  next_notification_id = pos 1;
}

abbrev pub tx : Tx
tx = working (λ _ _. false) (pos 50)
