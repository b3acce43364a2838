-- ===== src/Api/Profiles.antt =====
-- src/scanpod_enterprise/main.py: `add_profile`, `list_profiles` and `delete_profile`.
use transport_lookout.Prelude.{
  ℕ, ◌+◌, String, Bool, ◌||◌, not, Option, none, some, List, [], ◌∷◌, ◌++◌, ◌==◌, string_eq,
  if◌then◌else◌, leb, is_none, find, select, delete, order_by,
}
use transport_lookout.Config.{Env}
use transport_lookout.Http.{Result, ok, http, ◌>>=◌}
use transport_lookout.Model.{Db, User, Role, ScanProfile, text, number}
use transport_lookout.Audit.{audit}
use transport_lookout.Auth.{require_roles}
use transport_lookout.Schemas.{ProfileCreate}

-- `order_by(ScanProfile.version.desc()).first()` of the name
abbrev pub first_profile : List ScanProfile → Option ScanProfile
first_profile [] = none
first_profile (p ∷ ps) = some p

unfoldable pub latest_profile : String → Db → Option ScanProfile
latest_profile name db =
    first_profile
      (order_by (λ a b. leb b.version a.version) (select (λ p. p.name == name) db.profiles))

abbrev pub next_version : Option ScanProfile → ℕ
next_version none = 1
next_version (some latest) = latest.version + 1

-- The columns that the request does not name have their defaults.
abbrev pub new_profile : Env → ProfileCreate → ℕ → Db → ScanProfile
new_profile env payload version db = record {
  id = env.uuid4 db.drawn;
  name = payload.name;
  version = version;
  ports = payload.ports;
  arguments = "-sV -n";
  max_rate = payload.max_rate;
  scanner_mode = payload.scanner_mode;
  max_concurrent_shards = payload.max_concurrent_shards;
  timeout_seconds = payload.timeout_seconds;
  zone = payload.zone;
}

unfoldable pub insert_profile : Env → User → ProfileCreate → ℕ → Db → ScanProfile × Db
unfolding audit
insert_profile env user payload version db = (
  new_profile env payload version db,
  audit env user.subject "scan_profile.created" "scan_profile" (env.uuid4 db.drawn)
      (record { key = "version"; value = number version } ∷ [])
      (record db {
        profiles = db.profiles ++ new_profile env payload version db ∷ [];
        drawn = db.drawn + 1;
      }),
)

unfoldable pub add_profile : Env → User → ProfileCreate → Db → Result (ScanProfile × Db)
unfolding require_roles latest_profile insert_profile
add_profile env user payload db = do
  admin ← require_roles (Role.platform_admin ∷ []) user
  ok (insert_profile env admin payload (next_version (latest_profile payload.name db)) db)

abbrev pub profile_le : Env → ScanProfile → ScanProfile → Bool
profile_le env a b = if a.name == b.name then leb b.version a.version else env.collate a.name b.name

unfoldable pub list_profiles : Env → Db → List ScanProfile
list_profiles env db = order_by (profile_le env) db.profiles

abbrev pub profile_has_runs : Db → String → Bool
profile_has_runs db profile_id = not (is_none (find (λ r. r.profile_id == profile_id) db.runs))

abbrev pub profile_has_schedules : Db → String → Bool
profile_has_schedules db profile_id =
    not (is_none (find (λ s. s.profile_id == profile_id) db.schedules))

abbrev pub delete_found_profile : Env → User → Option ScanProfile → Db → Result Db
delete_found_profile env user none db = http 404 "profile not found"
delete_found_profile env user (some profile) db =
    if profile_has_runs db profile.id || profile_has_schedules db profile.id
    then http 409 "profile cannot be deleted while runs or schedules reference it"
    else ok (
        audit env user.subject "scan_profile.deleted" "scan_profile" profile.id
          (record { key = "name"; value = text profile.name }
            ∷ record { key = "version"; value = number profile.version }
            ∷ [])
          (record db { profiles = delete (λ p. p.id == profile.id) db.profiles }))

unfoldable pub delete_profile : Env → User → String → Db → Result Db
unfolding require_roles audit
delete_profile env user profile_id db = do
  admin ← require_roles (Role.platform_admin ∷ []) user
  delete_found_profile env admin (find (λ p. p.id == profile_id) db.profiles) db
