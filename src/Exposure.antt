-- ===== src/Exposure.antt =====
-- src/scanpod_enterprise/services.py: `incomplete_discovery_shards`, `materialize_current_exposures`
-- and `backfill_current_exposures`.
pub mod Shards
pub mod OpenServices
pub mod ReadModel
use transport_lookout.Prelude.{
  int_eq, ℕ, zero, suc, ◌+◌, String, Bool, true, false, ◌&&◌, not, Option, none, some, List, [],
  ◌∷◌, ◌++◌, ◌==◌, nat_eq, string_eq, if◌then◌else◌, leb, is_none, length, count, select, find,
  find_last, delete, order_by,
}
use transport_lookout.Config.{Env}
use transport_lookout.Model.{
  Db, ScanShard, ScanRun, InventoryScope, HostObservation, ServiceObservation, DiscoveryObservation,
  CurrentExposure, RunStatus, run_status_eq,
}

-- The join with the shard's discovery rows, which DISTINCT turns into a test for one.
abbrev pub has_discovery : List DiscoveryObservation → String → Bool
has_discovery rows shard_id = not (is_none (find (λ d. d.shard_id == shard_id) rows))

unfoldable pub incomplete_discovery_shards : Db → String → ℕ
incomplete_discovery_shards db run_id =
    count (λ s. s.run_id == run_id && is_none s.artifact_key && has_discovery db.discoveries s.id)
      db.shards

-- One joined row: a host and a service that was found on it.
pub record Observed : Type 0 where
  pub host : HostObservation
  pub service : ServiceObservation

abbrev pub is_up : String → HostObservation → Bool
is_up run_id h = h.run_id == run_id && h.state == "up"

abbrev pub is_open_on : HostObservation → ServiceObservation → Bool
is_open_on h s = s.host_observation_id == h.id && s.state == "open"

unfoldable pub pair_with : HostObservation → List ServiceObservation → List Observed
pair_with h [] = []
pair_with h (s ∷ ss) = record { host = h; service = s } ∷ pair_with h ss

unfoldable pub join_services : List HostObservation → List ServiceObservation → List Observed
unfolding pair_with
join_services [] services = []
join_services (h ∷ hs) services =
    pair_with h (select (is_open_on h) services) ++ join_services hs services

-- The open services on hosts that were up in a run.
unfoldable pub observed_services : Db → String → List Observed
unfolding join_services
observed_services db run_id = join_services (select (is_up run_id) db.hosts) db.services

abbrev pub is_exposure_of : ScanRun → CurrentExposure → Bool
is_exposure_of run e =
    e.inventory_scope_id == run.inventory_scope_id && e.profile_id == run.profile_id

abbrev pub same_endpoint : Observed → CurrentExposure → Bool
same_endpoint o e =
    e.address == o.host.address && e.protocol == o.service.protocol && e.port == o.service.port

abbrev pub or_now : Option ℕ → ℕ → ℕ
or_now none now = now
or_now (some t) now = t

abbrev pub seen_since : Option CurrentExposure → ℕ → ℕ
seen_since none observed_at = observed_at
seen_since (some e) observed_at = e.first_seen_at

abbrev pub times_seen : Option CurrentExposure → ℕ
times_seen none = 0
times_seen (some e) = e.scan_count

-- The row that the loop adds for one observation, `existing` being the rows before the delete.
unfoldable pub exposure_row :
    Env → InventoryScope → ScanRun → ℕ → List CurrentExposure → ℕ → Observed → CurrentExposure
exposure_row env scope run observed_at existing drawn o = record {
  id = env.uuid4 drawn;
  inventory_scope_id = run.inventory_scope_id;
  profile_id = run.profile_id;
  latest_run_id = run.id;
  zone = scope.zone;
  address = o.host.address;
  protocol = o.service.protocol;
  port = o.service.port;
  service = o.service.service;
  product = o.service.product;
  version = o.service.version;
  first_seen_at = seen_since (find_last (same_endpoint o) existing) observed_at;
  last_seen_at = observed_at;
  scan_count = times_seen (find_last (same_endpoint o) existing) + 1;
}

unfoldable pub exposure_rows :
    Env
    → InventoryScope
    → ScanRun
    → ℕ
    → List CurrentExposure
    → ℕ
    → List Observed
    → List CurrentExposure
unfolding exposure_row
exposure_rows env scope run observed_at existing drawn [] = []
exposure_rows env scope run observed_at existing drawn (o ∷ os) =
    exposure_row env scope run observed_at existing drawn o
    ∷ exposure_rows env scope run observed_at existing (drawn + 1) os

unfoldable pub materialize_current_exposures : Env → ℕ → ScanRun → Db → ℕ × Db
unfolding exposure_rows observed_services
materialize_current_exposures env now run db =
    elim (find (λ s. s.id == run.inventory_scope_id) db.scopes) [
      | none ↦ (0, db)
      | some scope ↦ (
        length (observed_services db run.id),
        record db {
          exposures =
              delete (is_exposure_of run) db.exposures
              ++ exposure_rows env scope run (or_now run.completed_at now)
                  (select (is_exposure_of run) db.exposures) db.drawn (observed_services db run.id);
          drawn = db.drawn + length (observed_services db run.id);
        },
      )
    ]

-- `order_by(ScanRun.completed_at.desc())`; a completed run has its instant.
abbrev pub latest_first : List ScanRun → List ScanRun
latest_first = order_by (λ a b. leb (or_now b.completed_at 0) (or_now a.completed_at 0))

abbrev pub same_pair : ScanRun → ScanRun → Bool
same_pair a b = a.inventory_scope_id == b.inventory_scope_id && a.profile_id == b.profile_id

abbrev pub pair_seen : ScanRun → List ScanRun → Bool
pair_seen run seen = not (is_none (find (same_pair run) seen))

-- The loop; `seen` is kept as the runs whose scope and profile are in the set.
unfoldable pub backfill_runs : Env → ℕ → List ScanRun → List ScanRun → ℕ → Db → ℕ × Db
unfolding materialize_current_exposures incomplete_discovery_shards
backfill_runs env now [] seen refreshed db = (refreshed, db)
backfill_runs env now (run ∷ rest) seen refreshed db =
    let refresh =
      backfill_runs env now rest (run ∷ seen) (refreshed + 1)
        (materialize_current_exposures env now run db).1 in
    let skip = backfill_runs env now rest seen refreshed db in
    if pair_seen run seen
    then skip
    else if not (incomplete_discovery_shards db run.id == 0)
    then skip
    else refresh

unfoldable pub backfill_current_exposures : Env → ℕ → Db → ℕ × Db
unfolding backfill_runs
backfill_current_exposures env now db =
    backfill_runs env now (latest_first (select (λ r. r.status == RunStatus.completed) db.runs)) []
      0 db
