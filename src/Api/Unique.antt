-- ===== src/Api/Unique.antt =====
-- The unique constraints that the handlers of src/scanpod_enterprise/main.py look after: the names and
-- networks of scopes, the subjects of users, the names of schedules, and the name and version of a
-- profile.
pub mod Scopes
pub mod Versions
pub mod Rows
pub mod Handlers
pub mod Requests
use transport_lookout.Prelude.{ℕ, String, ◌≡◌, sym, subst, List, [], Distinct}
use transport_lookout.Model.{Db, User, InventoryScope, ScanProfile, ScanSchedule, empty}

abbrev pub scope_name : InventoryScope → String
scope_name s = s.name

abbrev pub scope_network : InventoryScope → String
scope_network s = s.cidr

abbrev pub subject_of : User → String
subject_of u = u.subject

abbrev pub schedule_name : ScanSchedule → String
schedule_name s = s.name

pub record VersionKey : Type 0 where
  pub name : String
  pub version : ℕ

abbrev pub version_key : ScanProfile → VersionKey
version_key p = record { name = p.name; version = p.version }

abbrev pub UniqueScopes : List InventoryScope → Type 0
UniqueScopes scopes = Distinct scope_name scopes × Distinct scope_network scopes

abbrev pub IsUnique : Db → Type 0
IsUnique db =
    UniqueScopes db.scopes
    × Distinct subject_of db.users
    × Distinct schedule_name db.schedules
    × Distinct version_key db.profiles

-- The tables with such a constraint.
abbrev pub keyed_tables : Db → Db
keyed_tables db = record empty {
  scopes = db.scopes;
  users = db.users;
  schedules = db.schedules;
  profiles = db.profiles;
}

pub same_keyed-IsUnique :
    (db db' : Db) → keyed_tables db' ≡ keyed_tables db → IsUnique db → IsUnique db'
same_keyed-IsUnique db db' e u = subst IsUnique (sym e) u
