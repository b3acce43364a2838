-- ===== src/Api/Users.antt =====
-- src/scanpod_enterprise/main.py: `me`, `list_users` and `provision_user`.
pub mod Login
use transport_lookout.Prelude.{
  ◌+◌, String, not, Option, none, some, List, [], ◌∷◌, ◌++◌, ◌==◌, string_eq, if◌then◌else◌, find,
  modify, order_by,
}
use transport_lookout.Config.{Env}
use transport_lookout.Http.{Result, ok, http, ◌>>=◌}
use transport_lookout.Model.{Db, User, Role, text}
use transport_lookout.Audit.{audit}
use transport_lookout.Auth.{require_roles, has_subject}
use transport_lookout.Schemas.{UserProvision}

abbrev pub role_value : Role → String
role_value Role.platform_admin = "platform_admin"
role_value Role.inventory_manager = "inventory_manager"
role_value Role.scan_operator = "scan_operator"
role_value Role.auditor = "auditor"

unfoldable pub list_users : Env → User → Db → Result (List User)
unfolding require_roles
list_users env user db = do
  admin ← require_roles (Role.platform_admin ∷ []) user
  ok (order_by (λ a b. env.collate a.subject b.subject) db.users)

abbrev pub new_user : Env → UserProvision → Db → User
new_user env payload db = record {
  id = env.uuid4 db.drawn;
  subject = payload.subject;
  role = payload.role;
}

abbrev pub with_role : Role → User → User
with_role role u = record u { role = role }

-- The row that is there for the subject gets the role, or a new row is added.
unfoldable pub put_user : Env → UserProvision → Option User → Db → User × Db
put_user env payload none db = (
  new_user env payload db,
  record db { users = db.users ++ new_user env payload db ∷ []; drawn = db.drawn + 1 },
)
put_user env payload (some target) db = (
  with_role payload.role target,
  record db { users = modify (λ u. u.id == target.id) (with_role payload.role) db.users },
)

abbrev pub audit_user : Env → User → User × Db → User × Db
audit_user env user (target, db) = (
  target,
  audit env user.subject "user.provisioned" "user" target.id
      (record { key = "subject"; value = text target.subject }
        ∷ record { key = "role"; value = text (role_value target.role) }
        ∷ [])
      db,
)

unfoldable pub provision_user : Env → User → String → UserProvision → Db → Result (User × Db)
unfolding require_roles put_user audit
provision_user env user subject payload db = do
  admin ← require_roles (Role.platform_admin ∷ []) user
  if not (subject == payload.subject)
      then http 422 "subject path and body must match"
      else ok (audit_user env admin (put_user env payload (find (has_subject subject) db.users) db))
