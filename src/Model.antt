-- ===== src/Model.antt =====
-- src/scanpod_enterprise/models.py: the rows of the database. Instants are seconds; `created_at` is
-- kept where the program reads it. An audit event's JSON detail is a list of named values.
mod Status
pub use Status.{Role, RunStatus, ShardStatus}
pub use Status.{
  role_beq, run_beq, shard_beq, role_eq, run_status_eq, shard_status_eq, run_index, shard_index,
  role_beq_iff, run_beq_iff, shard_beq_iff,
}
use transport_lookout.Prelude.{ℤ, ℕ, suc, String, Bool, true, false, Option, none, some, List, []}

pub record User : Type 0 where
  pub id : String
  pub subject : String
  pub role : Role

pub record InventoryScope : Type 0 where
  pub id : String
  pub name : String
  pub cidr : String
  pub zone : String
  pub approved : Bool

pub record ScanProfile : Type 0 where
  pub id : String
  pub name : String
  pub version : ℕ
  pub ports : String
  pub arguments : String
  pub max_rate : ℕ
  pub scanner_mode : String
  pub max_concurrent_shards : ℕ
  pub timeout_seconds : ℕ
  pub zone : String

pub record ScanRun : Type 0 where
  pub id : String
  pub inventory_scope_id : String
  pub profile_id : String
  pub status : RunStatus
  pub requested_by : String
  pub created_at : ℕ
  pub started_at : Option ℕ
  pub completed_at : Option ℕ

pub record ScanSchedule : Type 0 where
  pub id : String
  pub name : String
  pub inventory_scope_id : String
  pub profile_id : String
  pub interval_minutes : ℕ
  pub timezone : String
  pub next_run_at : ℕ
  pub enabled : Bool
  pub created_by : String

pub record ScanShard : Type 0 where
  pub id : String
  pub run_id : String
  pub cidr : String
  pub zone : String
  pub status : ShardStatus
  pub attempts : ℕ
  pub dispatched_at : Option ℕ
  pub lease_expires_at : Option ℕ
  pub worker_id : Option String
  pub heartbeat_at : Option ℕ
  pub retry_not_before : Option ℕ
  pub lease_token : Option String
  pub artifact_key : Option String
  pub discovery_artifact_key : Option String
  pub error : Option String

pub record HostObservation : Type 0 where
  pub id : String
  pub run_id : String
  pub shard_id : String
  pub lease_token : Option String
  pub address : String
  pub state : String
  pub hostname : Option String

pub record ServiceObservation : Type 0 where
  pub id : String
  pub host_observation_id : String
  pub protocol : String
  pub port : ℤ
  pub state : String
  pub service : Option String
  pub product : Option String
  pub version : Option String

pub record DiscoveryObservation : Type 0 where
  pub id : String
  pub run_id : String
  pub shard_id : String
  pub lease_token : Option String
  pub address : String
  pub protocol : String
  pub port : ℤ

pub record CurrentExposure : Type 0 where
  pub id : String
  pub inventory_scope_id : String
  pub profile_id : String
  pub latest_run_id : String
  pub zone : String
  pub address : String
  pub protocol : String
  pub port : ℤ
  pub service : Option String
  pub product : Option String
  pub version : Option String
  pub first_seen_at : ℕ
  pub last_seen_at : ℕ
  pub scan_count : ℕ

pub data Json : Type 0 where
  text : String → Json
  number : ℕ → Json

pub record Field : Type 0 where
  pub key : String
  pub value : Json

pub record AuditEvent : Type 0 where
  pub id : String
  pub actor : String
  pub action : String
  pub resource_type : String
  pub resource_id : String
  pub detail : List Field

-- The payload's `lease_token` is absent in events from before execution fencing.
pub record Payload : Type 0 where
  pub shard_id : String
  pub lease_token : Option String

pub record OutboxEvent : Type 0 where
  pub id : String
  pub topic : String
  pub payload : Payload
  pub created_at : ℕ
  pub delivered_at : Option ℕ
  pub attempts : ℕ
  pub last_error : Option String

-- One task that the broker has accepted.
pub record Task : Type 0 where
  pub shard_id : String
  pub lease_token : String

-- The committed rows, how many identifiers have been drawn, and the tasks that the broker has
-- accepted, oldest first.
pub record Db : Type 0 where
  pub users : List User
  pub scopes : List InventoryScope
  pub profiles : List ScanProfile
  pub runs : List ScanRun
  pub schedules : List ScanSchedule
  pub shards : List ScanShard
  pub hosts : List HostObservation
  pub services : List ServiceObservation
  pub discoveries : List DiscoveryObservation
  pub exposures : List CurrentExposure
  pub audits : List AuditEvent
  pub outbox : List OutboxEvent
  pub drawn : ℕ
  pub sent : List Task

abbrev pub empty : Db
empty = record {
  users = [];
  scopes = [];
  profiles = [];
  runs = [];
  schedules = [];
  shards = [];
  hosts = [];
  services = [];
  discoveries = [];
  exposures = [];
  audits = [];
  outbox = [];
  drawn = 0;
  sent = [];
}

-- The columns of a new shard that its constructor call does not name.
abbrev pub new_shard : String → String → String → String → ScanShard
new_shard id run_id cidr zone = record {
  id = id;
  run_id = run_id;
  cidr = cidr;
  zone = zone;
  status = ShardStatus.queued;
  attempts = 0;
  dispatched_at = none;
  lease_expires_at = none;
  worker_id = none;
  heartbeat_at = none;
  retry_not_before = none;
  lease_token = none;
  artifact_key = none;
  discovery_artifact_key = none;
  error = none;
}
