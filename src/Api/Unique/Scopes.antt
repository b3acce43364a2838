-- ===== src/Api/Unique/Scopes.antt =====
-- An import adds scopes of new names and networks, none of them approved.
use transport_lookout.Prelude.{
  All, All-intro, ◌+◌, ℕ, ◌≤◌, String, Bool, ◌≡◌, refl, sym, ap, ◌∙◌, ◌≢◌, inl, inr, false, none,
  List, [], ◌∷◌, ◌++◌, arith, string_eq, eq_iff, contains, length, find, map, In, Apart-In,
  Apart-intro, Distinct, Distinct-append, find-none,
}
use transport_lookout.Config.{Env}
use transport_lookout.Http.{ok}
use transport_lookout.Model.{Db, User, InventoryScope}
use transport_lookout.Schemas.{ScopeCreate, FieldError}
use transport_lookout.Api.Import.{
  Cell, CsvBody, read_rows, clashes, new_scopes, insert_scopes, import_scopes_csv,
}
use transport_lookout.Api.Import.Fresh.{
  item_name, item_network, read_rows-IsFresh, length-read_rows, audit_scopes_lem,
}
use transport_lookout.Api.Import.Inversion.{import_rows_inversion, import_scopes_csv_inversion}
use transport_lookout.Api.Unique.{scope_name, scope_network, UniqueScopes, keyed_tables}

contains-In :
    (key : ScopeCreate → String) (text : String) (items : List ScopeCreate)
    → contains (map key items) text ≡ false
    → (i : ScopeCreate) → In i items
    → key i ≢ text
unfolding contains
contains-In key text [] h i m k = absurd m
contains-In key text (x ∷ xs) h i (inl e) k =
    let t = (eq_iff (key x) text).1 (ap key (sym e) ∙ k) in absurd (ground (arith, h, t))
contains-In key text (x ∷ xs) h i (inr m) k = contains-In key text xs (ground (arith, h)) i m k

-- The row of an item, up to its identifier.
abbrev IsRowOf : ScopeCreate → InventoryScope → Type 0
IsRowOf i s = (s.name ≡ i.name) × (s.cidr ≡ i.cidr) × (s.approved ≡ false)

module _ (env : Env) (is_ipv6 : String → Bool) (message : FieldError → String) where
  In-new_scopes :
      (n : ℕ) (items : List ScopeCreate) (s : InventoryScope)
      → In s (new_scopes env is_ipv6 message n items)
      → (i : ScopeCreate) × In i items × IsRowOf i s
  unfolding new_scopes
  In-new_scopes n [] s m = absurd m
  In-new_scopes n (i ∷ items) s (inl e) = (
    i,
    inl refl,
    (ap scope_name e, ap scope_network e, ap (λ (x : InventoryScope). x.approved) e),
  )
  In-new_scopes n (i ∷ items) s (inr m) =
      let (j, k, r) = In-new_scopes (n + 1) items s m in (j, inr k, r)

  module _ (key : ScopeCreate → String) (column : InventoryScope → String)
      (same : (i : ScopeCreate) (s : InventoryScope) → IsRowOf i s → column s ≡ key i) where
    Distinct-new_scopes :
        (n : ℕ) (items : List ScopeCreate)
        → Distinct key items
        → Distinct column (new_scopes env is_ipv6 message n items)
    unfolding new_scopes
    Distinct-new_scopes n [] d = tt
    Distinct-new_scopes n (i ∷ items) d = (
      Apart-intro column _ _ (λ s m k.
          let (j, q, r) = In-new_scopes (n + 1) items s m in
          Apart-In key i j items d.0 q (sym (same i _ (refl, refl, refl)) ∙ (k ∙ same j s r))),
      Distinct-new_scopes (n + 1) items d.1,
    )

    Distinct-imported :
        (n : ℕ) (items : List ScopeCreate) (scopes : List InventoryScope)
        → Distinct key items
        → Distinct column scopes
        → ((s : InventoryScope) → In s scopes → contains (map key items) (column s) ≡ false)
        → Distinct column (scopes ++ new_scopes env is_ipv6 message n items)
    Distinct-imported n items scopes d e h =
        Distinct-append column scopes (new_scopes env is_ipv6 message n items) e
          (Distinct-new_scopes n items d)
          (λ s t m q k.
            let (i, j, r) = In-new_scopes n items t q in
            contains-In key (column s) items (h s m) i j (sym (k ∙ same i t r)))

  length-new_scopes :
      (n : ℕ) (items : List ScopeCreate)
      → length (new_scopes env is_ipv6 message n items) ≡ length items
  unfolding new_scopes
  length-new_scopes n [] = refl
  length-new_scopes n (i ∷ items) = omega (arith, length-new_scopes (n + 1) items)

  pub insert_scopes_lem :
      (user : User) (items : List ScopeCreate) (db : Db)
      → keyed_tables (insert_scopes env is_ipv6 message user items db).1
        ≡ keyed_tables
            (record db { scopes = db.scopes ++ new_scopes env is_ipv6 message db.drawn items })
  unfolding insert_scopes
  insert_scopes_lem user items db =
      let added = new_scopes env is_ipv6 message db.drawn items in
      ap keyed_tables (
        audit_scopes_lem env is_ipv6 message user added
          (record db { scopes = db.scopes ++ added; drawn = db.drawn + length items }))

  pub import_rows-UniqueScopes :
      (rows : List (List Cell)) (items : List ScopeCreate) (db : Db)
      → UniqueScopes db.scopes
      → read_rows env is_ipv6 message 2 [] [] rows ≡ ok items
      → find (clashes env is_ipv6 message items) db.scopes ≡ none
      → UniqueScopes (db.scopes ++ new_scopes env is_ipv6 message db.drawn items)
  import_rows-UniqueScopes rows items db (names, networks) read new =
      let f = read_rows-IsFresh env is_ipv6 message 2 [] [] rows items read in
      let apart : (s : InventoryScope)
          → In s db.scopes
          → clashes env is_ipv6 message items s ≡ false =
        λ s m. find-none (clashes env is_ipv6 message items) s db.scopes new m in
      (
        Distinct-imported item_name scope_name (λ i s r. r.0) db.drawn items db.scopes
            f.names_distinct names (λ s m. ground (arith, apart s m)),
        Distinct-imported item_network scope_network (λ i s r. r.1) db.drawn items db.scopes
            f.networks_distinct networks (λ s m. ground (arith, apart s m)),
      )

  pub import_scopes_csv-added :
      (user : User) (body : CsvBody) (db db' : Db) (scopes : List InventoryScope)
      → import_scopes_csv env is_ipv6 message user body db ≡ ok (scopes, db')
      → (db'.scopes ≡ db.scopes ++ scopes)
        × (length scopes ≤ env.inventory_import_max_rows)
        × All (λ s. s.approved ≡ false) scopes
  unfolding insert_scopes
  import_scopes_csv-added user body db db' scopes e =
      let (manager, rows, f) =
        import_scopes_csv_inversion env is_ipv6 message user body db (scopes, db') e in
      let (few, (items, read, new, done)) =
        import_rows_inversion env is_ipv6 message manager rows db (scopes, db') f in
      let added : new_scopes env is_ipv6 message db.drawn items ≡ scopes = ap (λ x. x.0) done in
      let size = length-new_scopes db.drawn items in
      let read_size = length-read_rows env is_ipv6 message 2 [] [] rows items read in
      (
        sym (ap (λ x. x.1.scopes) done)
            ∙ (ap (λ (x : Db). x.scopes) (insert_scopes_lem manager items db)
                ∙ ap (λ x. db.scopes ++ x) added),
        rw (← added) (omega (arith, few, size, read_size)),
        All-intro _ scopes
            (λ s m. let (i, j, r) = In-new_scopes db.drawn items s (rw (← added) at m) in r.2),
      )

  -- Where no two scopes of the table have one name or one network, this is so after an import that
  -- succeeds. The import adds the scopes that it returns at the end of the table, at most
  -- `inventory_import_max_rows` of them, and none of them is approved.
  pub import_scopes_csv-UniqueScopes :
      (user : User) (body : CsvBody) (db db' : Db) (scopes : List InventoryScope)
      → UniqueScopes db.scopes
      → import_scopes_csv env is_ipv6 message user body db ≡ ok (scopes, db')
      → (db'.scopes ≡ db.scopes ++ scopes)
        × UniqueScopes db'.scopes
        × (length scopes ≤ env.inventory_import_max_rows)
        × All (λ s. s.approved ≡ false) scopes
  unfolding insert_scopes
  import_scopes_csv-UniqueScopes user body db db' scopes u e =
      let (manager, rows, f) =
        import_scopes_csv_inversion env is_ipv6 message user body db (scopes, db') e in
      let (few, (items, read, new, done)) =
        import_rows_inversion env is_ipv6 message manager rows db (scopes, db') f in
      let added : new_scopes env is_ipv6 message db.drawn items ≡ scopes = ap (λ x. x.0) done in
      let (table, size, pending) = import_scopes_csv-added user body db db' scopes e in
      (
        table,
        rw (table, ← added) (import_rows-UniqueScopes rows items db u read new),
        size,
        pending,
      )

  -- An import writes to no other table with a unique constraint.
  pub import_scopes_csv_lem :
      (user : User) (body : CsvBody) (db db' : Db) (scopes : List InventoryScope)
      → import_scopes_csv env is_ipv6 message user body db ≡ ok (scopes, db')
      → (db'.users ≡ db.users) × (db'.schedules ≡ db.schedules) × (db'.profiles ≡ db.profiles)
  import_scopes_csv_lem user body db db' scopes e =
      let (manager, rows, f) =
        import_scopes_csv_inversion env is_ipv6 message user body db (scopes, db') e in
      let (few, (items, read, new, done)) =
        import_rows_inversion env is_ipv6 message manager rows db (scopes, db') f in
      let same : keyed_tables db'
          ≡ keyed_tables
              (record db { scopes = db.scopes ++ new_scopes env is_ipv6 message db.drawn items }) =
        sym (ap (λ x. keyed_tables x.1) done) ∙ insert_scopes_lem manager items db in
      (
        ap (λ (x : Db). x.users) same,
        ap (λ (x : Db). x.schedules) same,
        ap (λ (x : Db). x.profiles) same,
      )
