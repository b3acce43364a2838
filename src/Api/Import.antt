-- ===== src/Api/Import.antt =====
-- src/scanpod_enterprise/main.py: `import_scopes_csv`. The body comes as the `csv` module reads it, or as
-- what goes wrong there; `message` is pydantic's text for an error of a field.
pub mod Inversion
pub mod Fresh
use Prim.Native.String.{◌++◌ as ◌+++◌}
use transport_lookout.Prelude.{
  ℕ, ◌+◌, String, Bool, true, false, ◌||◌, ◌&&◌, not, Option, none, some, List, [], ◌∷◌, ◌++◌, map,
  ◌==◌, nat_eq, string_eq, if◌then◌else◌, ltb, is_none, contains, length, find, find_last,
}
use transport_lookout.Config.{Env}
use transport_lookout.Http.{Result, ok, raise, http, ◌>>=◌}
use transport_lookout.Model.{Db, User, Role, InventoryScope, Field, text}
use transport_lookout.Text.{strip, or_none, or_text, decimal}
use transport_lookout.Audit.{audit}
use transport_lookout.Auth.{require_roles}
use transport_lookout.Cidr.{parse_approved_cidr}
use transport_lookout.Cidr.Ipv4.{Network, str_network}
use transport_lookout.Schemas.{ScopeCreate, FieldError, scope_errors}

pub record Cell : Type 0 where
  pub column : String
  pub content : Option String

-- `decode` or the constructor of the reader fails; reading the header fails; or a header, if the file is
-- not empty, and the rows, if none of them is malformed.
pub data CsvBody : Type 0 where
  undecodable : CsvBody
  malformed : CsvBody
  table : Option (List String) → Option (List (List Cell)) → CsvBody

abbrev content_of : Option Cell → Option String
content_of none = none
content_of (some cell) = cell.content

-- `row.get(column)`
abbrev pub get : String → List Cell → Option String
get column row = content_of (find_last (λ c. c.column == column) row)

-- The arguments of `ScopeCreate` for a row.
unfoldable pub row_scope : List Cell → ScopeCreate
unfolding strip
row_scope row = record {
  name = strip (or_none (get "name" row) "");
  cidr = strip (or_none (get "cidr" row) "");
  zone = or_text (strip (or_none (get "zone" row) "default")) "default";
}

abbrev pub row_error : ℕ → String → String
row_error n detail = "CSV row " +++ (decimal n +++ (": " +++ detail))

-- An HTTPException of the row is raised again with its number.
abbrev pub at_row {ℓ} : {A : Type ℓ} → ℕ → Result A → Result A
at_row n (raise e) = http 422 (row_error n e.detail)
at_row n (ok a) = ok a

module _ (env : Env) (is_ipv6 : String → Bool) (message : FieldError → String) where
  abbrev validated : ScopeCreate → List FieldError → Result ScopeCreate
  validated candidate [] = ok candidate
  validated candidate (e ∷ es) = http 422 (message e)

  -- `candidate.cidr = str(network)`
  abbrev pub with_network : ScopeCreate → Network → ScopeCreate
  with_network candidate network = record candidate { cidr = str_network network }

  abbrev pub parsed : ScopeCreate → Result ScopeCreate
  parsed candidate = do
    valid ← validated candidate (scope_errors candidate)
    network ← parse_approved_cidr env is_ipv6 valid.cidr
    ok (with_network valid network)

  abbrev pub unseen : ℕ → List String → List String → ScopeCreate → Result ScopeCreate
  unseen n names cidrs candidate =
      if contains names candidate.name || contains cidrs candidate.cidr
      then http 409 (row_error n "duplicate name or CIDR in file")
      else ok candidate

  -- The loop over the rows, with the names and networks of the rows before.
  unfoldable pub read_rows :
      ℕ → List String → List String → List (List Cell) → Result (List ScopeCreate)
  unfolding row_scope scope_errors decimal
  read_rows n names cidrs [] = ok []
  read_rows n names cidrs (row ∷ rows) = do
    candidate ← at_row n (parsed (row_scope row))
    fresh ← unseen n names cidrs candidate
    rest ← read_rows (n + 1) (fresh.name ∷ names) (fresh.cidr ∷ cidrs) rows
    ok (fresh ∷ rest)

  -- `name IN names OR cidr IN cidrs`
  abbrev pub clashes : List ScopeCreate → InventoryScope → Bool
  clashes items s =
      contains (map (λ (i : ScopeCreate). i.name) items) s.name
      || contains (map (λ (i : ScopeCreate). i.cidr) items) s.cidr

  unfoldable pub new_scopes : ℕ → List ScopeCreate → List InventoryScope
  new_scopes n [] = []
  new_scopes n (item ∷ items) =
      record {
        id = env.uuid4 n;
        name = item.name;
        cidr = item.cidr;
        zone = item.zone;
        approved = false;
      }
      ∷ new_scopes (n + 1) items

  unfoldable pub audit_scopes : User → List InventoryScope → Db → Db
  unfolding audit
  audit_scopes user [] db = db
  audit_scopes user (s ∷ ss) db = audit_scopes user ss (
      audit env user.subject "inventory_scope.imported" "inventory_scope" s.id
        (record { key = "cidr"; value = text s.cidr }
          ∷ record { key = "zone"; value = text s.zone }
          ∷ [])
        db)

  unfoldable pub insert_scopes : User → List ScopeCreate → Db → List InventoryScope × Db
  unfolding new_scopes audit_scopes
  insert_scopes user items db = (
    new_scopes db.drawn items,
    audit_scopes user (new_scopes db.drawn items) (record db {
      scopes = db.scopes ++ new_scopes db.drawn items;
      drawn = db.drawn + length items;
    }),
  )

  -- From the query for names and networks that are taken on.
  abbrev pub store_items : User → Db → List ScopeCreate → Result (List InventoryScope × Db)
  store_items user db items =
      if not (is_none (find (clashes items) db.scopes))
      then http 409 "one or more scope names or CIDRs already exist"
      else ok (insert_scopes user items db)

  abbrev pub too_many_rows : String
  too_many_rows = "CSV exceeds the " +++ (decimal env.inventory_import_max_rows +++ " row limit")

  unfoldable pub import_rows : User → List (List Cell) → Db → Result (List InventoryScope × Db)
  unfolding read_rows insert_scopes
  import_rows user rows db =
      if length rows == 0
      then http 422 "CSV contains no inventory scopes"
      else if ltb env.inventory_import_max_rows (length rows)
      then http 422 too_many_rows
      else (read_rows 2 [] [] rows >>= store_items user db)

  -- An error that nothing catches is answered with status 500.
  abbrev pub import_list : User → Option (List (List Cell)) → Db → Result (List InventoryScope × Db)
  import_list user none db = http 500 "Internal Server Error"
  import_list user (some rows) db = import_rows user rows db

  abbrev pub import_table :
      User
      → Option (List String)
      → Option (List (List Cell))
      → Db
      → Result (List InventoryScope × Db)
  import_table user none rows db = http 422 "CSV must include name and cidr columns"
  import_table user (some fields) rows db =
      if contains fields "name" && contains fields "cidr"
      then import_list user rows db
      else http 422 "CSV must include name and cidr columns"

  abbrev pub import_body : User → CsvBody → Db → Result (List InventoryScope × Db)
  import_body user undecodable db = http 422 "CSV must be UTF-8 encoded with a header row"
  import_body user malformed db = http 500 "Internal Server Error"
  import_body user (table fields rows) db = import_table user fields rows db

  unfoldable pub import_scopes_csv : User → CsvBody → Db → Result (List InventoryScope × Db)
  unfolding require_roles import_rows
  import_scopes_csv user body db = do
    manager ← require_roles (Role.platform_admin ∷ Role.inventory_manager ∷ []) user
    import_body manager body db
