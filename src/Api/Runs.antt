-- ===== src/Api/Runs.antt =====
-- src/scanpod_enterprise/main.py: `to_run_read`, `add_run`, `get_run`, `list_runs`, `cancel`,
-- `list_audit_events`, `get_run_hosts` and `get_masscan_results`.
use transport_lookout.Prelude.{
  int_le, ℕ, zero, suc, String, Bool, Option, none, some, List, [], ◌∷◌, map, ◌==◌, string_eq,
  if◌then◌else◌, leb, is_none, find, select, take, order_by, ℤ, pos, negsuc, at_least, clamp,
}
use transport_lookout.Config.{Env}
use transport_lookout.Http.{Result, ok, http, ◌>>=◌}
use transport_lookout.Model.{
  Db, User, Role, ScanRun, ScanShard, ScanProfile, InventoryScope, AuditEvent, HostObservation,
  ServiceObservation, DiscoveryObservation,
}
use transport_lookout.Auth.{require_roles}
use transport_lookout.Schemas.{RunCreate}
use transport_lookout.Outbox.{Broker}
use transport_lookout.Runs.{create_run}
use transport_lookout.Cancel.{cancel_run}

-- `RunRead`: the run with its shards, of which the response shows some columns.
pub record RunRead : Type 0 where
  pub run : ScanRun
  pub shards : List ScanShard

unfoldable pub to_run_read : Db → ScanRun → RunRead
to_run_read db run = record { run = run; shards = select (λ s. s.run_id == run.id) db.shards }

abbrev pub read_result : ScanRun × Db → RunRead × Db
read_result (run, db) = (to_run_read db run, db)

-- With the scope and the profile that the session found.
abbrev pub add_run_for :
    Env
    → (String → Bool)
    → ℕ
    → Broker
    → User
    → Option InventoryScope
    → Option ScanProfile
    → Db
    → Result (RunRead × Db)
add_run_for env is_ipv6 now broker user (some scope) (some profile) db = do
  created ← create_run env is_ipv6 now broker scope profile user.subject db
  ok (read_result created)
add_run_for env is_ipv6 now broker user _ _ db = http 404 "scope or profile not found"

unfoldable pub add_run :
    Env → (String → Bool) → ℕ → Broker → User → RunCreate → Db → Result (RunRead × Db)
unfolding require_roles create_run to_run_read
add_run env is_ipv6 now broker user payload db = do
  operator ← require_roles (Role.platform_admin ∷ Role.scan_operator ∷ []) user
  add_run_for env is_ipv6 now broker operator
      (find (λ s. s.id == payload.inventory_scope_id) db.scopes)
      (find (λ p. p.id == payload.profile_id) db.profiles) db

abbrev pub read_found : Db → Option ScanRun → Result RunRead
read_found db none = http 404 "run not found"
read_found db (some run) = ok (to_run_read db run)

unfoldable pub get_run : String → Db → Result RunRead
unfolding to_run_read
get_run run_id db = read_found db (find (λ r. r.id == run_id) db.runs)

unfoldable pub list_runs : ℤ → Db → List RunRead
unfolding to_run_read
list_runs limit db =
    map (to_run_read db)
      (take (clamp 200 limit) (order_by (λ a b. leb b.created_at a.created_at) db.runs))

abbrev pub cancel_found : Env → ℕ → User → Option ScanRun → Db → Result (RunRead × Db)
cancel_found env now user none db = http 404 "run not found"
cancel_found env now user (some run) db = do
  cancelled ← cancel_run env now run user.subject db
  ok (read_result cancelled)

unfoldable pub cancel : Env → ℕ → User → String → Db → Result (RunRead × Db)
unfolding require_roles cancel_run to_run_read
cancel env now user run_id db = do
  operator ← require_roles (Role.platform_admin ∷ Role.scan_operator ∷ []) user
  cancel_found env now operator (find (λ r. r.id == run_id) db.runs) db

abbrev reverse_onto : List AuditEvent → List AuditEvent → List AuditEvent
reverse_onto [] done = done
reverse_onto (e ∷ es) done = reverse_onto es (e ∷ done)

-- The latest events first: events are added in the order of their instants.
unfoldable pub list_audit_events : User → ℤ → Db → Result (List AuditEvent)
unfolding require_roles
list_audit_events user limit db = do
  reader ← require_roles (Role.platform_admin ∷ Role.auditor ∷ []) user
  ok (take (clamp 500 limit) (reverse_onto db.audits []))

abbrev pub drop {ℓ} : {A : Type ℓ} → ℕ → List A → List A
drop zero xs = xs
drop (suc n) [] = []
drop (suc n) (x ∷ xs) = drop n xs

pub record HostRead : Type 0 where
  pub host : HostObservation
  pub services : List ServiceObservation

unfoldable pub read_host : Db → HostObservation → HostRead
read_host db host = record {
  host = host;
  services =
      order_by (λ a b. int_le a.port b.port)
        (select (λ s. s.host_observation_id == host.id) db.services);
}

-- A database refuses a negative OFFSET, and nothing catches that.
abbrev pub hosts_from : Env → String → ℕ → ℤ → Db → Result (List HostRead)
hosts_from env run_id limit (negsuc n) db = http 500 "Internal Server Error"
hosts_from env run_id limit (pos offset) db = ok (
    map (read_host db) (
      take limit (
        drop offset (
          order_by (λ a b. env.collate a.address b.address)
            (select (λ h. h.run_id == run_id) db.hosts)))))

unfoldable pub get_run_hosts : Env → String → ℤ → ℤ → Db → Result (List HostRead)
unfolding read_host
get_run_hosts env run_id limit offset db =
    if is_none (find (λ r. r.id == run_id) db.runs)
    then http 404 "run not found"
    else hosts_from env run_id (clamp 500 limit) offset db

pub record DiscoveryRead : Type 0 where
  pub item : DiscoveryObservation
  pub cidr : String

abbrev read_discovery :
    DiscoveryObservation → Option ScanShard → List DiscoveryRead → List DiscoveryRead
read_discovery item none rest = rest
read_discovery item (some shard) rest = record { item = item; cidr = shard.cidr } ∷ rest

-- The inner join on the shard's primary key.
unfoldable pub join_shards : List DiscoveryObservation → List ScanShard → List DiscoveryRead
join_shards [] shards = []
join_shards (d ∷ ds) shards =
    read_discovery d (find (λ s. s.id == d.shard_id) shards) (join_shards ds shards)

abbrev discovery_le : Env → DiscoveryObservation → DiscoveryObservation → Bool
discovery_le env a b =
    if a.address == b.address then int_le a.port b.port else env.collate a.address b.address

unfoldable pub get_masscan_results : Env → String → ℤ → ℤ → Db → Result (List DiscoveryRead)
unfolding join_shards
get_masscan_results env run_id limit offset db =
    if is_none (find (λ r. r.id == run_id) db.runs)
    then http 404 "run not found"
    else ok (
        take (clamp 500 limit) (
          drop (at_least 0 offset) (
            join_shards
              (order_by (discovery_le env) (select (λ d. d.run_id == run_id) db.discoveries))
              db.shards)))
