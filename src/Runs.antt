-- ===== src/Runs.antt =====
-- src/scanpod_enterprise/services.py: `create_run`.
pub mod Shards
pub mod Creation
use transport_lookout.Prelude.{
  ℕ, ◌+◌, String, Bool, true, not, none, List, [], ◌∷◌, ◌++◌, ◌==◌, string_eq, if◌then◌else◌,
  length,
}
use transport_lookout.Config.{Env}
use transport_lookout.Http.{Result, ok, http, ◌>>=◌}
use transport_lookout.Model.{
  Db, InventoryScope, ScanProfile, ScanRun, ScanShard, RunStatus, new_shard, Field, text,
}
use transport_lookout.Audit.{audit}
use transport_lookout.Cidr.{shard_cidr}
use transport_lookout.Outbox.{Broker}
use transport_lookout.Dispatch.{dispatch_available_shards}

abbrev pub new_run : String → String → String → String → ℕ → ScanRun
new_run id scope_id profile_id actor now = record {
  id = id;
  inventory_scope_id = scope_id;
  profile_id = profile_id;
  status = RunStatus.queued;
  requested_by = actor;
  created_at = now;
  started_at = none;
  completed_at = none;
}

-- One shard for each network, with the identifiers from `n` on.
unfoldable pub new_shards : Env → String → String → ℕ → List String → List ScanShard
new_shards env run_id zone n [] = []
new_shards env run_id zone n (cidr ∷ rest) =
    new_shard (env.uuid4 n) run_id cidr zone ∷ new_shards env run_id zone (n + 1) rest

-- The run, its shards and the audit event, up to the commit.
unfoldable pub insert_run : Env → ℕ → InventoryScope → ScanProfile → String → List String → Db → Db
unfolding new_shards audit
insert_run env now scope profile actor cidrs db =
    audit env actor "run.created" "scan_run" (env.uuid4 db.drawn)
      (record { key = "scope_id"; value = text scope.id }
        ∷ record { key = "profile_id"; value = text profile.id }
        ∷ [])
      (record db {
        runs = db.runs ++ new_run (env.uuid4 db.drawn) scope.id profile.id actor now ∷ [];
        shards = db.shards ++ new_shards env (env.uuid4 db.drawn) scope.zone (db.drawn + 1) cidrs;
        drawn = db.drawn + 1 + length cidrs;
      })

-- An exception leaves nothing behind: the session is closed without a commit.
unfoldable pub create_run :
    Env
    → (String → Bool)
    → ℕ
    → Broker
    → InventoryScope
    → ScanProfile
    → String
    → Db
    → Result (ScanRun × Db)
unfolding shard_cidr insert_run
create_run env is_ipv6 now broker scope profile actor db =
    if not scope.approved
    then http 409 "inventory scope is not approved"
    else if not (scope.zone == profile.zone)
    then http 422 "profile and inventory scope must use the same worker zone"
    else do
      cidrs ← shard_cidr env is_ipv6 scope.cidr
      ok (
        new_run (env.uuid4 db.drawn) scope.id profile.id actor now,
        (dispatch_available_shards env now broker (env.uuid4 db.drawn)
            (insert_run env now scope profile actor cidrs db)).1,
      )
