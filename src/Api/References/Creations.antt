-- ===== src/Api/References/Creations.antt =====
-- Requests that create runs or import scopes.
use transport_lookout.Prelude.{
  ℕ, ◌+◌, String, Bool, ◌≡◌, refl, ap, ◌∙◌, inl, inr, List, ◌++◌, string_eq, length, In-append,
  In-append_left,
}
use transport_lookout.Config.{Env}
use transport_lookout.Http.{ok}
use transport_lookout.Model.{Db, User, InventoryScope, ScanProfile, ScanRun}
use transport_lookout.Audit.{audit}
use transport_lookout.Outbox.{Broker}
use transport_lookout.Dispatch.Tables.{other_tables, dispatch_available_shards-SameTables}
use transport_lookout.Runs.{create_run, insert_run}
use transport_lookout.Runs.Shards.{create_run_inversion}
use transport_lookout.Schemas.{ScopeCreate, FieldError}
use transport_lookout.Api.Import.{insert_scopes, new_scopes}
use transport_lookout.Api.Import.Fresh.{audit_scopes_lem}
use transport_lookout.Api.References.{HasScope, HasProfile, Stays-same, Follows, Follows-same}

module _ (env : Env) (user : User) (db : Db) where
  insert_run-Follows :
      (now : ℕ) (scope : InventoryScope) (profile : ScanProfile) (actor : String)
      (cidrs : List String) (db' : Db)
      → other_tables db' ≡ other_tables (insert_run env now scope profile actor cidrs db)
      → HasScope db scope.id
      → HasProfile db profile.id
      → Follows db db'
  unfolding insert_run audit
  insert_run-Follows now scope profile actor cidrs db' e s p =
      let stays = Stays-same db db' (ap (λ (x : Db). x.scopes) e) (ap (λ (x : Db). x.profiles) e) in
      record {
        stays = stays;
        runs_follow = λ r m. elim (In-append r db.runs _ (rw (ap (λ (x : Db). x.runs) e) at m)) [
          | inl n ↦ inl (r, n, refl, refl)
          | inr n ↦ elim n [
            | inl k ↦ inr (rw k (stays.scopes_stay scope.id s, stays.profiles_stay profile.id p))
            | inr n ↦ absurd n
          ]
        ];
        schedules_follow = λ c m. inl (c, rw (ap (λ (x : Db). x.schedules) e) at m, refl, refl);
      }

  pub create_run-Follows :
      (is_ipv6 : String → Bool) (now : ℕ) (broker : Broker) (scope : InventoryScope)
      (profile : ScanProfile) (actor : String) (result : ScanRun × Db)
      → create_run env is_ipv6 now broker scope profile actor db ≡ ok result
      → HasScope db scope.id
      → HasProfile db profile.id
      → Follows db result.1
  create_run-Follows is_ipv6 now broker scope profile actor (run, db') e s p =
      let (a, z, (cidrs, c, r, q)) =
        create_run_inversion env now scope profile actor is_ipv6 broker run db db' e in
      let dispatched =
        dispatch_available_shards-SameTables env now broker (env.uuid4 db.drawn)
          (insert_run env now scope profile actor cidrs db) in
      insert_run-Follows now scope profile actor cidrs db' (ap other_tables q ∙ dispatched) s p

  module _ (is_ipv6 : String → Bool) (message : FieldError → String) where
    pub insert_scopes-Follows :
        (items : List ScopeCreate) → Follows db (insert_scopes env is_ipv6 message user items db).1
    unfolding insert_scopes
    insert_scopes-Follows items =
        let added = new_scopes env is_ipv6 message db.drawn items in
        let e =
          audit_scopes_lem env is_ipv6 message user added
            (record db { scopes = db.scopes ++ added; drawn = db.drawn + length items }) in
        Follows-same db _
          (record {
            scopes_stay = λ i (s, m, k).
                (s, rw (ap (λ (x : Db). x.scopes) e) (In-append_left s db.scopes added m), k);
            profiles_stay = λ i (p, m, k). (p, rw (ap (λ (x : Db). x.profiles) e) m, k);
          })
          (ap (λ (x : Db). x.runs) e) (ap (λ (x : Db). x.schedules) e)
