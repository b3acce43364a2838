-- ===== src/Runs/Shards.antt =====
-- What `create_run` does to the shards: it adds new ones and leases some of them.
use transport_lookout.Prelude.{
  ℕ, ◌+◌, ◌≤◌, ◌<◌, String, ◌≡◌, refl, ◌∙◌, sym, ap, ◌⊎◌, inl, inr, Bool, true, false, not, List,
  [], ◌∷◌, arith, ◌==◌, string_eq, length, In, In-append, In-append_left, Apart-intro, Distinct,
  Distinct-append,
}
use transport_lookout.Config.{Env, NoRepeat}
use transport_lookout.Http.{ok, guard-ok, bind-ok, ok-injective}
use transport_lookout.Model.{Db, InventoryScope, ScanProfile, ScanRun, ScanShard, new_shard}
use transport_lookout.Audit.{audit}
use transport_lookout.Cidr.{shard_cidr}
use transport_lookout.Outbox.{Broker}
use transport_lookout.Dispatch.{dispatch_available_shards}
use transport_lookout.Dispatch.Shards.{dispatch_available_shards-Change}
use transport_lookout.Runs.{new_run, new_shards, insert_run, create_run}
use transport_lookout.Shard.{here, Origin, earlier, created}
use transport_lookout.Shard.Change.{Drawn, IsValid, Change, Change-trans, shard_id}

module _ (env : Env) (run_id zone : String) where
  -- A new row has an identifier of the range that was drawn for the rows.
  abbrev IsNew : ℕ → ℕ → ScanShard → Type 0
  IsNew n m s =
      (k : ℕ) × (n ≤ k)
      × (k < m)
      × ((cidr : String) × (s ≡ new_shard (env.uuid4 k) run_id cidr zone))

  new_shards-IsNew :
      (n : ℕ) (cidrs : List String) (s : ScanShard)
      → In s (new_shards env run_id zone n cidrs)
      → IsNew n (n + length cidrs) s
  unfolding new_shards
  new_shards-IsNew n [] s i = absurd i
  new_shards-IsNew n (c ∷ cs) s (inl e) = (n, omega arith, omega arith, (c, e))
  new_shards-IsNew n (c ∷ cs) s (inr i) =
      let (k, lo, hi, at) = new_shards-IsNew (n + 1) cs s i in (k, omega arith, omega arith, at)

  new_shards-Distinct :
      NoRepeat env
      → (n : ℕ) (cidrs : List String) → Distinct shard_id (new_shards env run_id zone n cidrs)
  unfolding new_shards
  new_shards-Distinct fresh n [] = tt
  new_shards-Distinct fresh n (c ∷ cs) = (
    Apart-intro shard_id (new_shard (env.uuid4 n) run_id c zone) _ (λ y i e.
        let (k, lo, hi, at) = new_shards-IsNew (n + 1) cs y i in
        absurd (omega (arith, fresh n k (e ∙ (λ j. (at.1 j).id))))),
    new_shards-Distinct fresh (n + 1) cs,
  )

module _ (env : Env) (now : ℕ) (scope : InventoryScope) (profile : ScanProfile)
    (actor : String) where
  insert_run-Change :
      NoRepeat env
      → (cidrs : List String) (db : Db) → IsValid env db
      → Change env db (insert_run env now scope profile actor cidrs db)
  unfolding insert_run audit
  insert_run-Change fresh cidrs db v = record {
    valid = record {
      keys =
          Distinct-append shard_id db.shards _ v.keys
            (new_shards-Distinct env _ scope.zone fresh (db.drawn + 1) cidrs)
            (λ x y i j e.
              let (k, l, q) = v.ids x i in
              let (k', lo, hi, at) = is_new y j in
              absurd (omega (arith, fresh k k' (sym q ∙ e ∙ (λ t. (at.1 t).id)))));
      ids = λ s i. known s (In-append s db.shards _ i);
    };
    drawn_le = omega arith;
    kept = λ x i. (x, In-append_left x db.shards _ i, refl);
    origin = λ y i. found y (In-append y db.shards _ i);
  }
    where
      added : List ScanShard
      added = new_shards env (env.uuid4 db.drawn) scope.zone (db.drawn + 1) cidrs

      is_new :
          (y : ScanShard)
          → In y added
          → IsNew env (env.uuid4 db.drawn) scope.zone (db.drawn + 1) (db.drawn + 1 + length cidrs) y
      is_new y = new_shards-IsNew env (env.uuid4 db.drawn) scope.zone (db.drawn + 1) cidrs y

      known :
          (s : ScanShard)
          → In s db.shards ⊎ In s added
          → Drawn env (db.drawn + 1 + length cidrs + 1) s.id
      known s (inl i) = let (k, l, q) = v.ids s i in (k, omega arith, q)
      known s (inr i) = let (k, lo, hi, at) = is_new s i in (k, omega arith, (λ t. (at.1 t).id))

      found : (y : ScanShard) → In y db.shards ⊎ In y added → Origin env db.drawn db.shards y
      found y (inl i) = earlier y i here
      found y (inr i) =
          let (k, lo, hi, at) = is_new y i in
          rw at.1 (created k (env.uuid4 db.drawn) at.0 scope.zone (omega arith) here)

  not-false : (b : Bool) → not b ≡ false → b ≡ true
  not-false b h = ground arith

  -- A run is created only for an approved scope of the profile's zone whose network can be divided;
  -- the database is then the one with the run, a queued shard for each part and the audit event, after
  -- the run has been dispatched.
  pub create_run_inversion :
      (is_ipv6 : String → Bool) (broker : Broker) (run : ScanRun) (db db' : Db)
      → create_run env is_ipv6 now broker scope profile actor db ≡ ok (run, db')
      → (scope.approved ≡ true)
        × ((scope.zone == profile.zone) ≡ true)
        × ((cidrs : List String) × (shard_cidr env is_ipv6 scope.cidr ≡ ok cidrs)
            × (run ≡ new_run (env.uuid4 db.drawn) scope.id profile.id actor now)
            × (db'
                ≡ (dispatch_available_shards env now broker
                    (env.uuid4 db.drawn)
                    (insert_run env now scope profile actor cidrs db)).1))
  unfolding create_run
  create_run_inversion is_ipv6 broker run db db' h =
      let a = guard-ok (not scope.approved) 409 "inventory scope is not approved" _ (run, db') h in
      let b =
        guard-ok (not (scope.zone == profile.zone)) 422
          "profile and inventory scope must use the same worker zone" _ (run, db') a.1 in
      let c = bind-ok (shard_cidr env is_ipv6 scope.cidr) _ (run, db') b.1 in
      let q = ok-injective _ (run, db') c.2 in
      (
        not-false scope.approved a.0,
        not-false (scope.zone == profile.zone) b.0,
        (c.0, c.1, sym (ap (λ (r : ScanRun × Db). r.0) q), sym (ap (λ (r : ScanRun × Db). r.1) q)),
      )

  pub create_run-Change :
      NoRepeat env
      → (is_ipv6 : String → Bool) (broker : Broker) (run : ScanRun) (db db' : Db) → IsValid env db
      → create_run env is_ipv6 now broker scope profile actor db ≡ ok (run, db')
      → Change env db db'
  create_run-Change fresh is_ipv6 broker run db db' v h =
      let (approved, zone, (cidrs, e, r, q)) = create_run_inversion is_ipv6 broker run db db' h in
      let inserted = insert_run-Change fresh cidrs db v in
      rw q (
        Change-trans inserted
          (dispatch_available_shards-Change env now broker (env.uuid4 db.drawn) _ inserted.valid))
