-- ===== src/Tests/Uniqueness.antt =====
-- Two scopes are imported into the small database.
use transport_lookout.Prelude.{
  All, ◌≤◌, ◌≡◌, refl, String, Bool, false, some, List, [], ◌∷◌, ◌++◌, string_eq, find, length,
  contains, find_last,
}
use transport_lookout.Http.{ok}
use transport_lookout.Model.{Db, User, Role, InventoryScope}
use transport_lookout.Schemas.{FieldError}
use transport_lookout.Auth.{require_roles}
use transport_lookout.Api.Import.{Cell, CsvBody, table, import_scopes_csv}
use transport_lookout.Api.Unique.{UniqueScopes}
use transport_lookout.Api.Unique.Scopes.{import_scopes_csv-UniqueScopes}
use transport_lookout.Tests.Data.{env, db}
use transport_lookout.Cidr.{parse_approved_cidr}
use transport_lookout.Cidr.Ipv4.{str_network}
use transport_lookout.Schemas.{ScopeCreate}
use transport_lookout.Api.Import.{insert_scopes}

abbrev row : String → String → List Cell
row name cidr =
    record { column = "name"; content = some name }
    ∷ record { column = "cidr"; content = some cidr }
    ∷ []

abbrev body : CsvBody
body =
    table (some ("name" ∷ "cidr" ∷ []))
      (some (row "dmz" "10.1.0.0/24" ∷ row "office" "10.2.0.0/24" ∷ []))

abbrev no_message : FieldError → String
no_message e = ""

abbrev no_ipv6 : String → Bool
no_ipv6 text = false

abbrev admin : User
admin = record { id = "1"; subject = "eve"; role = Role.platform_admin }

abbrev items : List ScopeCreate
items =
    record { name = "dmz"; cidr = "10.1.0.0/24"; zone = "default" }
    ∷ record { name = "office"; cidr = "10.2.0.0/24"; zone = "default" }
    ∷ []

abbrev imported : List InventoryScope × Db
imported = insert_scopes env no_ipv6 no_message admin items db

imports_both : import_scopes_csv env no_ipv6 no_message admin body db ≡ ok (imported.0, imported.1)
unfolding import_scopes_csv require_roles contains find find_last parse_approved_cidr str_network
imports_both = refl

import_scopes_csv-UniqueScopes_example :
    (imported.1.scopes ≡ db.scopes ++ imported.0)
    × UniqueScopes imported.1.scopes
    × (length imported.0 ≤ 1000)
    × All (λ (s : InventoryScope). s.approved ≡ false) imported.0
import_scopes_csv-UniqueScopes_example =
    import_scopes_csv-UniqueScopes env no_ipv6 no_message admin body db imported.1 imported.0
      ((tt, tt), (tt, tt)) imports_both
