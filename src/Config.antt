-- ===== src/Config.antt =====
-- src/scanpod_enterprise/config.py: the numeric settings that the modelled code reads, and what the
-- code takes from outside: `uuid4 n` is the n-th identifier that `uuid.uuid4()` returns, and
-- `collate` is the database's order of texts, which ORDER BY uses; `set_order` is the order in which
-- a Python set of texts is iterated, and `repr` is Python's of a text.
use transport_lookout.Prelude.{ℕ, String, Bool, List, ◌≡◌}

pub record Settings : Type 0 where
  pub max_cidr_prefix : ℕ
  pub shard_prefix : ℕ
  pub max_shards_per_run : ℕ
  pub inventory_import_max_rows : ℕ
  pub shard_lease_seconds : ℕ
  pub worker_heartbeat_seconds : ℕ
  pub scan_cancel_grace_seconds : ℕ
  pub max_shard_attempts : ℕ
  pub run_stale_seconds : ℕ

abbrev pub default_settings : Settings
default_settings = record {
  max_cidr_prefix = 16;
  shard_prefix = 24;
  max_shards_per_run = 4096;
  inventory_import_max_rows = 1000;
  shard_lease_seconds = 3600;
  worker_heartbeat_seconds = 15;
  scan_cancel_grace_seconds = 20;
  max_shard_attempts = 3;
  run_stale_seconds = 7200;
}

pub record Env : Type 0 where
  pub settings : Settings
  pub open settings use *
  pub uuid4 : ℕ → String
  pub collate : String → String → Bool
  pub set_order : List String → List String
  pub repr : String → String

-- What the program relies on of `uuid.uuid4()`: no identifier comes twice.
abbrev pub NoRepeat : Env → Type 0
NoRepeat env = (m n : ℕ) → env.uuid4 m ≡ env.uuid4 n → m ≡ n
