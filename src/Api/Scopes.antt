-- ===== src/Api/Scopes.antt =====
-- src/scanpod_enterprise/main.py: `add_scope`, `list_scopes`, `approve_scope` and `delete_scope`. The first argument
-- after the environment is the user that the request's token names.
use transport_lookout.Prelude.{
  ◌+◌, String, Bool, true, false, ◌||◌, not, Option, none, some, List, [], ◌∷◌, ◌++◌, ◌==◌,
  string_eq, if◌then◌else◌, is_none, find, modify, delete, order_by,
}
use transport_lookout.Config.{Env}
use transport_lookout.Http.{Result, ok, http, ◌>>=◌}
use transport_lookout.Model.{Db, User, Role, InventoryScope, text}
use transport_lookout.Audit.{audit}
use transport_lookout.Auth.{require_roles}
use transport_lookout.Schemas.{ScopeCreate}
use transport_lookout.Cidr.{parse_approved_cidr}
use transport_lookout.Cidr.Ipv4.{str_network}

abbrev pub scope_named : String → String → InventoryScope → Bool
scope_named name cidr s = s.name == name || s.cidr == cidr

unfoldable pub insert_scope : Env → User → ScopeCreate → String → Db → InventoryScope × Db
unfolding audit
insert_scope env user payload cidr db = (
  scope,
  audit env user.subject "inventory_scope.created" "inventory_scope" scope.id
      (record { key = "cidr"; value = text cidr } ∷ [])
      (record db { scopes = db.scopes ++ scope ∷ []; drawn = db.drawn + 1 }),
)
  where
    scope : InventoryScope
    scope = record {
      id = env.uuid4 db.drawn;
      name = payload.name;
      cidr = cidr;
      zone = payload.zone;
      approved = false;
    }

unfoldable pub add_scope :
    Env → (String → Bool) → User → ScopeCreate → Db → Result (InventoryScope × Db)
unfolding insert_scope
add_scope env is_ipv6 user payload db = do
  manager ← require_roles (Role.platform_admin ∷ Role.inventory_manager ∷ []) user
  network ← parse_approved_cidr env is_ipv6 payload.cidr
  if not (is_none (find (scope_named payload.name (str_network network)) db.scopes))
      then http 409 "scope name or CIDR already exists"
      else ok (insert_scope env manager payload (str_network network) db)

abbrev pub approved_scope : InventoryScope → InventoryScope
approved_scope s = record s { approved = true }

abbrev pub approve_found : Env → User → Option InventoryScope → Db → Result (InventoryScope × Db)
approve_found env user none db = http 404 "scope not found"
approve_found env user (some scope) db = ok (
  approved_scope scope,
  audit env user.subject "inventory_scope.approved" "inventory_scope" scope.id []
      (record db { scopes = modify (λ s. s.id == scope.id) approved_scope db.scopes }),
)

unfoldable pub approve_scope : Env → User → String → Db → Result (InventoryScope × Db)
approve_scope env user scope_id db = do
  admin ← require_roles (Role.platform_admin ∷ []) user
  approve_found env admin (find (λ s. s.id == scope_id) db.scopes) db

abbrev pub has_runs : Db → String → Bool
has_runs db scope_id = not (is_none (find (λ r. r.inventory_scope_id == scope_id) db.runs))

abbrev pub has_schedules : Db → String → Bool
has_schedules db scope_id =
    not (is_none (find (λ s. s.inventory_scope_id == scope_id) db.schedules))

abbrev pub delete_found : Env → User → Option InventoryScope → Db → Result Db
delete_found env user none db = http 404 "scope not found"
delete_found env user (some scope) db =
    if has_runs db scope.id || has_schedules db scope.id
    then http 409 "scope cannot be deleted while runs or schedules reference it"
    else ok (
        audit env user.subject "inventory_scope.deleted" "inventory_scope" scope.id
          (record { key = "name"; value = text scope.name }
            ∷ record { key = "cidr"; value = text scope.cidr }
            ∷ [])
          (record db { scopes = delete (λ s. s.id == scope.id) db.scopes }))

unfoldable pub delete_scope : Env → User → String → Db → Result Db
delete_scope env user scope_id db = do
  manager ← require_roles (Role.platform_admin ∷ Role.inventory_manager ∷ []) user
  delete_found env manager (find (λ s. s.id == scope_id) db.scopes) db

unfoldable pub list_scopes : Env → Db → List InventoryScope
list_scopes env db = order_by (λ a b. env.collate a.name b.name) db.scopes
