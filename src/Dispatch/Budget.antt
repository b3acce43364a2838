-- ===== src/Dispatch/Budget.antt =====
-- The concurrency budget of a run.
use Prim.Native.Nat.{min, max}
use transport_lookout.Prelude.{
  ℕ, suc, ◌+◌, ◌-◌, ◌≤◌, String, ◌≡◌, refl, ◌∙◌, inl, inr, true, false, Option, none, some, List,
  [], ◌∷◌, arith, ◌==◌, nat_eq, string_eq, eq_iff, find, select, order_by, count, length, In,
  In-modify_intro, Apart, Apart-In, Distinct, Distinct-modify, count-modify_one, count-modify_same,
  length-take, length-order_by, length-select, Bool-cases,
}
use transport_lookout.Config.{Env}
use transport_lookout.Model.{Db, OutboxEvent, ScanRun, ScanProfile, ScanShard, shard_status_eq}
use transport_lookout.Outbox.{
  Broker, set_token, deliver, bind_token, bind_event, publish_unfenced, publish_event, publish_all,
  publish_pending_outbox, pending_events,
}
use transport_lookout.Dispatch.{
  is_closed, is_active, is_ready, capacity, ready_shards, leased_until, lease_shard, lease_all,
  dispatch_within, dispatch_with, dispatch_run, dispatch_available_shards,
}
use transport_lookout.Dispatch.Shards.{In-ready_shards, ready_shards-Distinct}
use transport_lookout.Shard.Change.{IsValid, shard_id}

-- How many shards of a run hold a slot.
abbrev pub active : String → Db → ℕ
active run_id db = count (is_active run_id) db.shards

abbrev pub ready : String → ℕ → Db → ℕ
ready run_id now db = count (is_ready run_id now) db.shards

-- Publishing binds tokens, and frees or takes no slot.
module _ (env : Env) (now : ℕ) (broker : Broker) (run_id : String) where
  active-deliver :
      (event : OutboxEvent) (db : Db)
      → active run_id (deliver now broker event db).1 ≡ active run_id db
  active-deliver event db = unfold deliver in ground arith

  active-bind_event :
      (event : OutboxEvent) (shard : ScanShard) (db : Db)
      → active run_id (bind_event env event shard db) ≡ active run_id db
  unfolding bind_event
  active-bind_event event shard db =
      count-modify_same (is_active run_id) (λ s. s.id == shard.id) (set_token (env.uuid4 db.drawn))
        (λ s. refl) db.shards

  active-publish_unfenced :
      (event : OutboxEvent) (found : Option ScanShard) (db : Db)
      → active run_id (publish_unfenced env now broker event found db).1 ≡ active run_id db
  unfolding publish_unfenced
  active-publish_unfenced event none db = refl
  active-publish_unfenced event (some shard) db = ground (
    arith,
    active-deliver (bind_token (env.uuid4 db.drawn) event) (bind_event env event shard db),
    active-bind_event event shard db,
  )

  active-publish_event :
      (event : OutboxEvent) (db : Db)
      → active run_id (publish_event env now broker event db).1 ≡ active run_id db
  unfolding publish_event
  active-publish_event event db = ground (
    arith,
    active-deliver event db,
    active-publish_unfenced event (find (λ s. s.id == event.payload.shard_id) db.shards) db,
  )

  active-publish_all :
      (events : List OutboxEvent) (n : ℕ) (db : Db)
      → active run_id (publish_all env now broker events n db).1 ≡ active run_id db
  unfolding publish_all
  active-publish_all [] n db = refl
  active-publish_all (event ∷ rest) n db =
      active-publish_all rest _ _ ∙ active-publish_event event db

  active-publish_pending_outbox :
      (limit : ℕ) (db : Db)
      → active run_id (publish_pending_outbox env now broker limit db).1 ≡ active run_id db
  unfolding publish_pending_outbox
  active-publish_pending_outbox limit db = active-publish_all (pending_events limit db) 0 db

module _ (env : Env) (now : ℕ) (run_id : String) where
  -- Each listed shard is a ready row.
  abbrev AreReady : List ScanShard → List ScanShard → Type 0
  AreReady listed rows = (x : ScanShard) → In x listed → In x rows × (is_ready run_id now x ≡ true)

  active-lease_shard :
      (shard : ScanShard) (db : Db)
      → Distinct shard_id db.shards
      → In shard db.shards
      → is_ready run_id now shard ≡ true
      → active run_id (lease_shard env now shard db) ≡ suc (active run_id db)
  unfolding lease_shard
  active-lease_shard shard db d m h =
      count-modify_one shard_id (is_active run_id) (leased_until env now (env.uuid4 db.drawn)) shard
        db.shards d m (ground arith) (unfold leased_until in ground arith)

  lease_shard-Distinct :
      (shard : ScanShard) (db : Db)
      → Distinct shard_id db.shards
      → Distinct shard_id (lease_shard env now shard db).shards
  unfolding lease_shard leased_until
  lease_shard-Distinct shard db d =
      Distinct-modify shard_id (λ s. s.id == shard.id) (leased_until env now (env.uuid4 db.drawn))
        (λ s. refl) db.shards d

  lease_shard-AreReady :
      (shard : ScanShard) (rest : List ScanShard) (db : Db)
      → Apart shard_id shard rest
      → AreReady rest db.shards
      → AreReady rest (lease_shard env now shard db).shards
  unfolding lease_shard
  lease_shard-AreReady shard rest db a h x i =
      let r = h x i in
      let miss : (x.id == shard.id) ≡ false =
        ground (arith, eq_iff x.id shard.id, Apart-In shard_id shard x rest a i) in
      (
        rw miss at (
            In-modify_intro (λ s. s.id == shard.id) (leased_until env now (env.uuid4 db.drawn)) x
              db.shards r.0),
        r.1,
      )

  active-lease_all :
      (listed : List ScanShard) (db : Db)
      → Distinct shard_id listed
      → Distinct shard_id db.shards
      → AreReady listed db.shards
      → active run_id (lease_all env now listed db) ≡ length listed + active run_id db
  unfolding lease_all
  active-lease_all [] db l d h = omega arith
  active-lease_all (shard ∷ rest) db l d h = omega (
    arith,
    active-lease_all rest (lease_shard env now shard db) l.1 (lease_shard-Distinct shard db d)
        (lease_shard-AreReady shard rest db l.0 (λ x i. h x (inr i))),
    active-lease_shard shard db d (h shard (inl refl)).0 (h shard (inl refl)).1,
  )

  pub length-ready_shards :
      (limit : ℕ) (db : Db)
      → length (ready_shards env now run_id limit db) ≡ min limit (ready run_id now db)
  unfolding ready_shards
  length-ready_shards limit db =
      let rows = select (is_ready run_id now) db.shards in
      let sorted = order_by (λ a b. env.collate a.cidr b.cidr) rows in
      rw
        (
          length-take limit sorted,
          length-order_by (λ a b. env.collate a.cidr b.cidr) rows,
          length-select (is_ready run_id now) db.shards,
        )
        refl

module _ (env : Env) (now : ℕ) (broker : Broker) (run_id : String) where
  dispatch_within-budget :
      (limit : ℕ) (db : Db)
      → IsValid env db
      → ((dispatch_within env now broker run_id limit db).0 ≡ min limit (ready run_id now db))
        × (active run_id (dispatch_within env now broker run_id limit db).1
            ≡ active run_id db + (dispatch_within env now broker run_id limit db).0)
  unfolding dispatch_within
  dispatch_within-budget limit db v = elim (Bool-cases (limit == 0)) [
    | inl e ↦ rw (e, dispatch_within) (ground arith, omega arith)
    | inr e ↦
        let listed = ready_shards env now run_id limit db in
        rw (e, dispatch_within)
          (
            length-ready_shards env now run_id limit db,
            omega (
              arith,
              active-publish_pending_outbox env now broker run_id 100 (lease_all env now listed db),
              active-lease_all env now run_id listed db
                  (ready_shards-Distinct env now run_id limit db v) v.keys
                  (In-ready_shards env now run_id limit db),
            ),
          )
  ]

  -- In a valid database, for an open run with a profile, `dispatch_available_shards` leases as many shards as the free
  -- budget and the shards that are ready allow, returns that number, and adds exactly that many to
  -- the run's leased and running shards; so these exceed the profile's budget only where they did so
  -- before.
  pub dispatch_budget :
      (run : ScanRun) (profile : ScanProfile) (db : Db)
      → IsValid env db
      → find (λ r. r.id == run_id) db.runs ≡ some run
      → is_closed run.status ≡ false
      → find (λ p. p.id == run.profile_id) db.profiles ≡ some profile
      → ((dispatch_available_shards env now broker run_id db).0
          ≡ min (profile.max_concurrent_shards - active run_id db) (ready run_id now db))
        × (active run_id (dispatch_available_shards env now broker run_id db).1
            ≡ active run_id db + (dispatch_available_shards env now broker run_id db).0)
        × (active run_id (dispatch_available_shards env now broker run_id db).1
            ≤ max profile.max_concurrent_shards (active run_id db))
  unfolding dispatch_available_shards dispatch_run dispatch_with capacity
  dispatch_budget run profile db v r o p =
      let within = dispatch_within-budget (profile.max_concurrent_shards - active run_id db) db v in
      rw (r, dispatch_run, o, p, dispatch_with) (within.0, within.1, omega arith)
