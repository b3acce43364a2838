-- ===== src/Api/Import/Inversion.antt =====
-- What an import that succeeds has been through.
use transport_lookout.Prelude.{
  ◌≤◌, String, Bool, ◌&&◌, not, ◌≡◌, inl, inr, none, some, List, [], ◌∷◌, arith, ◌==◌, nat_eq, ltb,
  is_none, contains, length, find, Bool-cases,
}
use transport_lookout.Config.{Env}
use transport_lookout.Http.{ok, guard-ok, bind-ok, ok-injective}
use transport_lookout.Model.{Db, User, Role, InventoryScope}
use transport_lookout.Auth.{require_roles}
use transport_lookout.Schemas.{ScopeCreate, FieldError}
use transport_lookout.Api.Import.{
  Cell, CsvBody, clashes, read_rows, insert_scopes, store_items, too_many_rows, import_rows,
  import_body, import_scopes_csv,
}

module _ (env : Env) (is_ipv6 : String → Bool) (message : FieldError → String) where
  pub import_rows_inversion :
      (user : User) (rows : List (List Cell)) (db : Db) (result : List InventoryScope × Db)
      → import_rows env is_ipv6 message user rows db ≡ ok result
      → (length rows ≤ env.inventory_import_max_rows)
        × ((items : List ScopeCreate) × (read_rows env is_ipv6 message 2 [] [] rows ≡ ok items)
            × (find (clashes env is_ipv6 message items) db.scopes ≡ none)
            × (insert_scopes env is_ipv6 message user items db ≡ result))
  unfolding import_rows
  import_rows_inversion user rows db result e =
      let (some_rows, b) =
        guard-ok (length rows == 0) 422 "CSV contains no inventory scopes" _ result e in
      let (few, c) =
        guard-ok (ltb env.inventory_import_max_rows (length rows)) 422
          (too_many_rows env is_ipv6 message) _ result b in
      let (items, d, f) =
        bind-ok (read_rows env is_ipv6 message 2 [] [] rows)
          (store_items env is_ipv6 message user db) result c in
      let (new, g) =
        guard-ok (not (is_none (find (clashes env is_ipv6 message items) db.scopes))) 409
          "one or more scope names or CIDRs already exist" _ result f in
      (ground (arith, few), (items, d, ground (arith, new), ok-injective _ result g))

  import_body_inversion :
      (user : User) (body : CsvBody) (db : Db) (result : List InventoryScope × Db)
      → import_body env is_ipv6 message user body db ≡ ok result
      → (rows : List (List Cell)) × (import_rows env is_ipv6 message user rows db ≡ ok result)
  import_body_inversion user CsvBody.undecodable db result e = absurd (cc)
  import_body_inversion user CsvBody.malformed db result e = absurd (cc)
  import_body_inversion user (CsvBody.table none rows) db result e = absurd (cc)
  import_body_inversion user (CsvBody.table (some fields) none) db result e =
      absurd (ground (arith, e))
  import_body_inversion user (CsvBody.table (some fields) (some rows)) db result e =
      elim (Bool-cases (contains fields "name" && contains fields "cidr")) [
        | inl t ↦ (rows, rw t at e)
        | inr t ↦ absurd (ground (arith, e, t))
      ]

  pub import_scopes_csv_inversion :
      (user : User) (body : CsvBody) (db : Db) (result : List InventoryScope × Db)
      → import_scopes_csv env is_ipv6 message user body db ≡ ok result
      → (manager : User) × (rows : List (List Cell)) × (import_rows env is_ipv6 message manager rows
            db
          ≡ ok result)
  unfolding import_scopes_csv
  import_scopes_csv_inversion user body db result e =
      let (manager, a, b) =
        bind-ok (require_roles (Role.platform_admin ∷ Role.inventory_manager ∷ []) user)
          (λ m. import_body env is_ipv6 message m body db) result e in
      let (rows, c) = import_body_inversion manager body db result b in (manager, rows, c)
