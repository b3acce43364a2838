-- ===== src/Api/Import/Fresh.antt =====
-- The rows of an import that is read have different names and networks.
use transport_lookout.Prelude.{
  ◌+◌, ℕ, String, Bool, ◌≡◌, refl, subst, inl, inr, false, ◌||◌, List, [], ◌∷◌, arith, string_eq,
  eq_iff, contains, length, In, Apart, Apart-intro, Distinct,
}
use transport_lookout.Config.{Env}
use transport_lookout.Http.{ok, guard-ok, bind-ok, ok-injective}
use transport_lookout.Model.{Db, User, InventoryScope}
use transport_lookout.Audit.{audit}
use transport_lookout.Schemas.{ScopeCreate, FieldError}
use transport_lookout.Api.Import.{
  Cell, row_error, at_row, parsed, unseen, row_scope, read_rows, audit_scopes,
}

abbrev pub item_name : ScopeCreate → String
item_name i = i.name

abbrev pub item_network : ScopeCreate → String
item_network i = i.cidr

-- What a loop over rows with these names and networks before gives.
pub record IsFresh (names cidrs : List String) (items : List ScopeCreate) : Type 0 where
  pub new_names : (i : ScopeCreate) → In i items → contains names i.name ≡ false
  pub new_networks : (i : ScopeCreate) → In i items → contains cidrs i.cidr ≡ false
  pub names_distinct : Distinct item_name items
  pub networks_distinct : Distinct item_network items

module _ (key : ScopeCreate → String) where
  -- An item of a new key before items that know of it.
  contains-Apart :
      (i : ScopeCreate) (seen : List String) (items : List ScopeCreate)
      → ((j : ScopeCreate) → In j items → contains (key i ∷ seen) (key j) ≡ false)
      → Apart key i items
  unfolding contains
  contains-Apart i seen items h =
      Apart-intro key i items
        (λ j m k. let e = (eq_iff (key i) (key j)).1 k in absurd (ground (arith, h j m, e)))

  contains-cons :
      (i : ScopeCreate) (seen : List String) (items : List ScopeCreate)
      → contains seen (key i) ≡ false
      → ((j : ScopeCreate) → In j items → contains (key i ∷ seen) (key j) ≡ false)
      → (j : ScopeCreate) → In j (i ∷ items)
      → contains seen (key j) ≡ false
  unfolding contains
  contains-cons i seen items n h j (inl e) = rw e n
  contains-cons i seen items n h j (inr m) = ground (arith, h j m)

IsFresh-cons :
    (names cidrs : List String) (i : ScopeCreate) (items : List ScopeCreate)
    → contains names i.name ≡ false
    → contains cidrs i.cidr ≡ false
    → IsFresh (i.name ∷ names) (i.cidr ∷ cidrs) items
    → IsFresh names cidrs (i ∷ items)
IsFresh-cons names cidrs i items a b f = record {
  new_names = contains-cons item_name i names items a f.new_names;
  new_networks = contains-cons item_network i cidrs items b f.new_networks;
  names_distinct = (contains-Apart item_name i names items f.new_names, f.names_distinct);
  networks_distinct =
      (contains-Apart item_network i cidrs items f.new_networks, f.networks_distinct);
}

module _ (env : Env) (is_ipv6 : String → Bool) (message : FieldError → String) where
  pub read_rows-IsFresh :
      (n : ℕ) (names cidrs : List String) (rows : List (List Cell)) (items : List ScopeCreate)
      → read_rows env is_ipv6 message n names cidrs rows ≡ ok items
      → IsFresh names cidrs items
  unfolding read_rows
  read_rows-IsFresh n names cidrs [] items e =
      subst (IsFresh names cidrs) (ok-injective [] items e) (record {
        new_names = λ i m. absurd m;
        new_networks = λ i m. absurd m;
        names_distinct = tt;
        networks_distinct = tt;
      })
  read_rows-IsFresh n names cidrs (row ∷ rows) items e =
      let (candidate, a, b) =
        bind-ok (at_row n (parsed env is_ipv6 message (row_scope row))) _ items e in
      let (fresh, c, d) = bind-ok (unseen env is_ipv6 message n names cidrs candidate) _ items b in
      let (new, same) =
        guard-ok (contains names candidate.name || contains cidrs candidate.cidr) 409
          (row_error n "duplicate name or CIDR in file") _ fresh c in
      let k = ok-injective candidate fresh same in
      let (rest, f, g) =
        bind-ok
          (read_rows env is_ipv6 message (n + 1) (fresh.name ∷ names) (fresh.cidr ∷ cidrs) rows) _
          items d in
      subst (IsFresh names cidrs) (ok-injective (fresh ∷ rest) items g) (
        IsFresh-cons names cidrs fresh rest (rw (← k) (ground (arith, new)))
          (rw (← k) (ground (arith, new)))
          (read_rows-IsFresh (n + 1) (fresh.name ∷ names) (fresh.cidr ∷ cidrs) rows rest f))

  pub length-read_rows :
      (n : ℕ) (names cidrs : List String) (rows : List (List Cell)) (items : List ScopeCreate)
      → read_rows env is_ipv6 message n names cidrs rows ≡ ok items
      → length items ≡ length rows
  unfolding read_rows
  length-read_rows n names cidrs [] items e = rw (← ok-injective [] items e) refl
  length-read_rows n names cidrs (row ∷ rows) items e =
      let (candidate, a, b) =
        bind-ok (at_row n (parsed env is_ipv6 message (row_scope row))) _ items e in
      let (fresh, c, d) = bind-ok (unseen env is_ipv6 message n names cidrs candidate) _ items b in
      let (rest, f, g) =
        bind-ok
          (read_rows env is_ipv6 message (n + 1) (fresh.name ∷ names) (fresh.cidr ∷ cidrs) rows) _
          items d in
      let k = length-read_rows (n + 1) (fresh.name ∷ names) (fresh.cidr ∷ cidrs) rows rest f in
      rw (← ok-injective (fresh ∷ rest) items g, k) refl

  module _ (user : User) where
    -- The audit events of an import leave all other tables alone.
    abbrev without_audits : Db → Db
    without_audits d = record d { audits = []; drawn = 0 }

    pub audit_scopes_lem :
        (scopes : List InventoryScope) (d : Db)
        → without_audits (audit_scopes env is_ipv6 message user scopes d) ≡ without_audits d
    unfolding audit_scopes audit
    audit_scopes_lem [] d = refl
    audit_scopes_lem (s ∷ ss) d = audit_scopes_lem ss _
