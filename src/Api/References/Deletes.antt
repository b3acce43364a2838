-- ===== src/Api/References/Deletes.antt =====
-- Requests that delete a scope or a profile.
use transport_lookout.Prelude.{
  not_found, String, false, ◌||◌, ◌≡◌, subst, Option, none, some, List, arith, ◌==◌, string_eq,
  delete, In, In-delete_intro,
}
use transport_lookout.Config.{Env}
use transport_lookout.Http.{ok, guard-ok, ok-injective}
use transport_lookout.Model.{Db, User, InventoryScope, ScanProfile}
use transport_lookout.Audit.{audit}
use transport_lookout.Api.Scopes.{has_runs, has_schedules, delete_found}
use transport_lookout.Api.Profiles.{profile_has_runs, profile_has_schedules, delete_found_profile}
use transport_lookout.Api.References.{HasReferences}

-- A reference to another row than the deleted one is kept.
keep_row :
    {A : Type 0} (key : A → String) (deleted ref : String) (rows : List A)
    → (ref == deleted) ≡ false
    → ((x : A) × In x rows × (key x ≡ ref))
    → (x : A) × In x (delete (λ x. key x == deleted) rows) × (key x ≡ ref)
keep_row key deleted ref rows other (x, m, k) =
    (x, In-delete_intro (λ x. key x == deleted) x rows m (rw (k) other), k)

abbrev scope_id : InventoryScope → String
scope_id s = s.id

abbrev profile_id : ScanProfile → String
profile_id p = p.id

module _ (env : Env) (user : User) (db db' : Db) (h : HasReferences db) where
  pub delete_found-HasReferences :
      (scope : Option InventoryScope) → delete_found env user scope db ≡ ok db' → HasReferences db'
  unfolding audit
  delete_found-HasReferences none e = absurd (cc)
  delete_found-HasReferences (some scope) e =
      let (free, stored) =
        guard-ok (has_runs db scope.id || has_schedules db scope.id) 409
          "scope cannot be deleted while runs or schedules reference it" _ db' e in
      let runs : has_runs db scope.id ≡ false = ground (arith, free) in
      let schedules : has_schedules db scope.id ≡ false = ground (arith, free) in
      subst HasReferences (ok-injective _ db' stored) (record {
        runs_refer = λ r m.
            let (s, p) = h.runs_refer r m in
            let other = not_found (λ x. x.inventory_scope_id == scope.id) r db.runs runs m in
            (keep_row scope_id scope.id r.inventory_scope_id db.scopes other s, p);
        schedules_refer = λ c m.
            let (s, p) = h.schedules_refer c m in
            let other =
              not_found (λ x. x.inventory_scope_id == scope.id) c db.schedules schedules m in
            (keep_row scope_id scope.id c.inventory_scope_id db.scopes other s, p);
      })

  pub delete_found_profile-HasReferences :
      (profile : Option ScanProfile)
      → delete_found_profile env user profile db ≡ ok db'
      → HasReferences db'
  unfolding audit
  delete_found_profile-HasReferences none e = absurd (cc)
  delete_found_profile-HasReferences (some profile) e =
      let (free, stored) =
        guard-ok (profile_has_runs db profile.id || profile_has_schedules db profile.id) 409
          "profile cannot be deleted while runs or schedules reference it" _ db' e in
      let runs : profile_has_runs db profile.id ≡ false = ground (arith, free) in
      let schedules : profile_has_schedules db profile.id ≡ false = ground (arith, free) in
      subst HasReferences (ok-injective _ db' stored) (record {
        runs_refer = λ r m.
            let (s, p) = h.runs_refer r m in
            let other = not_found (λ x. x.profile_id == profile.id) r db.runs runs m in
            (s, keep_row profile_id profile.id r.profile_id db.profiles other p);
        schedules_refer = λ c m.
            let (s, p) = h.schedules_refer c m in
            let other = not_found (λ x. x.profile_id == profile.id) c db.schedules schedules m in
            (s, keep_row profile_id profile.id c.profile_id db.profiles other p);
      })
