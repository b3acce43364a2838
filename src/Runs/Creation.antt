-- ===== src/Runs/Creation.antt =====
-- The rows that `create_run` leaves.
use transport_lookout.Prelude.{
  ℕ, ◌+◌, String, ◌≡◌, refl, ◌∙◌, sym, ap, inl, inr, Bool, true, none, List, [], ◌∷◌, ◌++◌,
  string_eq, eq_iff, map, modify, Bool-cases,
}
use transport_lookout.Config.{Env}
use transport_lookout.Http.{ok}
use transport_lookout.Model.{Db, InventoryScope, ScanProfile, ScanRun, ScanShard, RunStatus}
use transport_lookout.Audit.{audit}
use transport_lookout.Cidr.{shard_cidr}
use transport_lookout.Outbox.{Broker, set_token}
use transport_lookout.Dispatch.{leased_until}
use transport_lookout.Dispatch.Tables.{dispatch_available_shards-SameTables}
use transport_lookout.Dispatch.Updates.{IsKept, dispatch_available_shards-Kept}
use transport_lookout.Runs.{new_shards, insert_run, create_run}
use transport_lookout.Runs.Shards.{create_run_inversion}

-- What a shard is to scan, and how often it has been tried.
pub record Target : Type 0 where
  pub run_id : String
  pub cidr : String
  pub zone : String
  pub attempts : ℕ

abbrev pub target : ScanShard → Target
target s = record { run_id = s.run_id; cidr = s.cidr; zone = s.zone; attempts = s.attempts }

abbrev pub targets : List ScanShard → List Target
targets = map target

targets-modify :
    (p : ScanShard → Bool) (f : ScanShard → ScanShard) (xs : List ScanShard)
    → ((s : ScanShard) → target (f s) ≡ target s)
    → targets (modify p f xs) ≡ targets xs
unfolding modify
targets-modify p f [] h = refl
targets-modify p f (x ∷ xs) h = elim (Bool-cases (p x)) [
  | inl e ↦ rw (e, h x, targets-modify p f xs h) refl
  | inr e ↦ rw (e, targets-modify p f xs h) refl
]

targets-append : (xs ys : List ScanShard) → targets (xs ++ ys) ≡ targets xs ++ targets ys
targets-append [] ys = refl
targets-append (x ∷ xs) ys = ap (λ ts. target x ∷ ts) (targets-append xs ys)

targets-IsKept : IsKept (λ xs ys. targets ys ≡ targets xs)
targets-IsKept = record {
  same = λ xs. refl;
  chain = λ xs ys zs e f. f ∙ e;
  binds = λ id token xs. targets-modify _ (set_token token) xs (λ s. refl);
  leases = λ env now id token xs.
      targets-modify _ (leased_until env now token) xs (λ s. unfold leased_until in refl);
}

-- The targets of a new run: one for each network, untried.
abbrev pub new_targets : String → String → List String → List Target
new_targets run_id zone [] = []
new_targets run_id zone (cidr ∷ cidrs) =
    record { run_id = run_id; cidr = cidr; zone = zone; attempts = 0 }
    ∷ new_targets run_id zone cidrs

targets-new_shards :
    (env : Env) (run_id zone : String) (n : ℕ) (cidrs : List String)
    → targets (new_shards env run_id zone n cidrs) ≡ new_targets run_id zone cidrs
unfolding new_shards
targets-new_shards env run_id zone n [] = refl
targets-new_shards env run_id zone n (c ∷ cs) =
    ap (λ ts. record { run_id = run_id; cidr = c; zone = zone; attempts = 0 } ∷ ts)
      (targets-new_shards env run_id zone (n + 1) cs)

-- A run that has just been asked for.
pub record IsRequested (scope : InventoryScope) (profile : ScanProfile) (actor : String) (now : ℕ)
    (run : ScanRun) : Type 0 where
  pub of_scope : run.inventory_scope_id ≡ scope.id
  pub of_profile : run.profile_id ≡ profile.id
  pub is_queued : run.status ≡ RunStatus.queued
  pub by_actor : run.requested_by ≡ actor
  pub is_new : run.created_at ≡ now
  pub not_started : run.started_at ≡ none
  pub not_completed : run.completed_at ≡ none

module _ (env : Env) (now : ℕ) (scope : InventoryScope) (profile : ScanProfile)
    (actor : String) where
  -- When a run is created, its scope is approved and of the profile's zone, and the run is one that
  -- the actor has just asked for. The table of runs has it as its last row and is the same otherwise,
  -- and what the shards are to scan is what they were before, and then, for the new run in the scope's
  -- zone, each of the networks that the scope's network is divided into.
  pub create_run-IsRequested :
      (is_ipv6 : String → Bool) (broker : Broker) (run : ScanRun) (db db' : Db)
      → create_run env is_ipv6 now broker scope profile actor db ≡ ok (run, db')
      → (scope.approved ≡ true)
        × (scope.zone ≡ profile.zone)
        × IsRequested scope profile actor now run
        × (db'.runs ≡ db.runs ++ run ∷ [])
        × ((cidrs : List String) × (shard_cidr env is_ipv6 scope.cidr ≡ ok cidrs)
            × (targets db'.shards ≡ targets db.shards ++ new_targets run.id scope.zone cidrs))
  unfolding insert_run audit
  create_run-IsRequested is_ipv6 broker run db db' h =
      let (approved, zone, (cidrs, divided, created, done)) =
        create_run_inversion env now scope profile actor is_ipv6 broker run db db' h in
      let id = env.uuid4 db.drawn in
      let inserted = insert_run env now scope profile actor cidrs db in
      let tables = dispatch_available_shards-SameTables env now broker id inserted in
      let kept =
        dispatch_available_shards-Kept (λ xs ys. targets ys ≡ targets xs) targets-IsKept env now
          broker id inserted in
      let added = new_shards env id scope.zone (db.drawn + 1) cidrs in
      (
        approved,
        (eq_iff scope.zone profile.zone).0 zone,
        rw created (record {
          of_scope = refl;
          of_profile = refl;
          is_queued = refl;
          by_actor = refl;
          is_new = refl;
          not_started = refl;
          not_completed = refl;
        }),
        ap (λ (x : Db). x.runs) done
            ∙ (ap (λ (x : Db). x.runs) tables ∙ ap (λ r. db.runs ++ r ∷ []) (sym created)),
        (
          cidrs,
          divided,
          ap (λ (x : Db). targets x.shards) done
              ∙ (kept
                  ∙ (targets-append db.shards added
                      ∙ ap (λ ts. targets db.shards ++ ts)
                          (targets-new_shards env id scope.zone (db.drawn + 1) cidrs
                            ∙ ap (λ (r : ScanRun). new_targets r.id scope.zone cidrs)
                                (sym created)))),
        ),
      )
