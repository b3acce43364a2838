-- ===== src/Api/Schedules.antt =====
-- src/scanpod_enterprise/main.py: `add_schedule`, `list_schedules` and `disable_schedule`. What `ZoneInfo`
-- does with the name of a time zone is an argument.
use transport_lookout.Prelude.{
  ℕ, ◌+◌, String, true, ◌||◌, not, Option, none, some, List, [], ◌∷◌, ◌++◌, ◌==◌, string_eq,
  if◌then◌else◌, leb, is_none, find, modify, order_by,
}
use transport_lookout.Config.{Env}
use transport_lookout.Http.{Result, ok, http, ◌>>=◌}
use transport_lookout.Model.{Db, User, Role, InventoryScope, ScanProfile, ScanSchedule, number}
use transport_lookout.Audit.{audit}
use transport_lookout.Auth.{require_roles}
use transport_lookout.Scheduler.{disabled}
use transport_lookout.Schemas.{ScheduleCreate}

-- A zone, `ZoneInfoNotFoundError`, or a `ValueError` of a name that is no relative path.
pub data ZoneLookup : Type 0 where
  known unknown refused : ZoneLookup

abbrev pub or_now : Option ℕ → ℕ → ℕ
or_now none now = now
or_now (some instant) now = instant

abbrev pub new_schedule :
    Env → ℕ → User → ScheduleCreate → InventoryScope → ScanProfile → Db → ScanSchedule
new_schedule env now user payload scope profile db = record {
  id = env.uuid4 db.drawn;
  name = payload.name;
  inventory_scope_id = scope.id;
  profile_id = profile.id;
  interval_minutes = payload.interval_minutes;
  timezone = payload.timezone;
  next_run_at = or_now payload.first_run_at now;
  enabled = true;
  created_by = user.subject;
}

unfoldable pub insert_schedule :
    Env → ℕ → User → ScheduleCreate → InventoryScope → ScanProfile → Db → ScanSchedule × Db
unfolding audit
insert_schedule env now user payload scope profile db = (
  new_schedule env now user payload scope profile db,
  audit env user.subject "schedule.created" "scan_schedule" (env.uuid4 db.drawn)
      (record { key = "interval_minutes"; value = number payload.interval_minutes } ∷ [])
      (record db {
        schedules = db.schedules ++ new_schedule env now user payload scope profile db ∷ [];
        drawn = db.drawn + 1;
      }),
)

-- With the scope and the profile that the session found.
abbrev pub add_for :
    Env
    → ℕ
    → User
    → ScheduleCreate
    → Option InventoryScope
    → Option ScanProfile
    → Db
    → Result (ScanSchedule × Db)
add_for env now user payload (some scope) (some profile) db =
    if not scope.approved || not (scope.zone == profile.zone)
    then http 422 "schedule requires an approved scope and matching profile zone"
    else if not (is_none (find (λ s. s.name == payload.name) db.schedules))
    then http 409 "schedule name already exists"
    else ok (insert_schedule env now user payload scope profile db)
add_for env now user payload _ _ db = http 404 "scope or profile not found"

-- An error that nothing catches is answered with status 500.
abbrev pub add_in_zone :
    Env → ℕ → User → ScheduleCreate → ZoneLookup → Db → Result (ScanSchedule × Db)
add_in_zone env now user payload unknown db = http 422 "unknown IANA timezone"
add_in_zone env now user payload refused db = http 500 "Internal Server Error"
add_in_zone env now user payload known db =
    add_for env now user payload (find (λ s. s.id == payload.inventory_scope_id) db.scopes)
      (find (λ p. p.id == payload.profile_id) db.profiles) db

unfoldable pub add_schedule :
    Env → (String → ZoneLookup) → ℕ → User → ScheduleCreate → Db → Result (ScanSchedule × Db)
unfolding require_roles insert_schedule
add_schedule env zone_info now user payload db = do
  operator ← require_roles (Role.platform_admin ∷ Role.scan_operator ∷ []) user
  add_in_zone env now operator payload (zone_info payload.timezone) db

unfoldable pub list_schedules : Db → List ScanSchedule
list_schedules db = order_by (λ a b. leb a.next_run_at b.next_run_at) db.schedules

abbrev pub disable_found : Env → User → Option ScanSchedule → Db → Result (ScanSchedule × Db)
disable_found env user none db = http 404 "schedule not found"
disable_found env user (some schedule) db = ok (
  disabled schedule,
  audit env user.subject "schedule.disabled" "scan_schedule" schedule.id []
      (record db { schedules = modify (λ s. s.id == schedule.id) disabled db.schedules }),
)

unfoldable pub disable_schedule : Env → User → String → Db → Result (ScanSchedule × Db)
unfolding require_roles disabled audit
disable_schedule env user schedule_id db = do
  operator ← require_roles (Role.platform_admin ∷ Role.scan_operator ∷ []) user
  disable_found env operator (find (λ s. s.id == schedule_id) db.schedules) db
