-- ===== src/Finalize/Coverage.antt =====
-- When finalising a run leaves the inventory as it is.
use transport_lookout.Prelude.{
  ℕ, ◌≤◌, String, ◌≡◌, refl, ◌⊎◌, inl, inr, true, none, arith, ◌==◌, nat_eq, string_eq, eq_iff,
  find, find-none, Option-cases, count, count-pos, In,
}
use transport_lookout.Config.{Env}
use transport_lookout.Model.{Db, ScanRun, ScanShard, DiscoveryObservation}
use transport_lookout.Exposure.{has_discovery, incomplete_discovery_shards}
use transport_lookout.Finalize.{is_failure, finalize_terminal_run}
use transport_lookout.Finalize.Gate.{exposures-finalize}
use transport_lookout.Finalize.Outcome.{AnyFailed, is_failure_iff}

-- A candidate that Masscan has found for a shard of the run, which no report of Nmap confirms.
abbrev pub AnyUnconfirmed : String → Db → Type 0
AnyUnconfirmed run_id db =
    (s : ScanShard) × (d : DiscoveryObservation) × In s db.shards
    × In d db.discoveries
    × (s.run_id ≡ run_id)
    × (d.shard_id ≡ s.id)
    × (s.artifact_key ≡ none)

failed-counted :
    (run_id : String) (db : Db)
    → AnyFailed run_id db.shards
    → 1 ≤ count (is_failure run_id) db.shards
failed-counted run_id db (s, m, k) =
    count-pos (is_failure run_id) s db.shards m ((is_failure_iff run_id s).1 k)

unconfirmed-counted :
    (run_id : String) (db : Db)
    → AnyUnconfirmed run_id db
    → 1 ≤ incomplete_discovery_shards db run_id
unfolding incomplete_discovery_shards
unconfirmed-counted run_id db (s, d, m, n, own, of, lacks) =
    let found : has_discovery db.discoveries s.id ≡ true =
      elim (Option-cases (find (λ x. x.shard_id == s.id) db.discoveries)) [
        | inl e ↦
            let z =
              find-none (λ (x : DiscoveryObservation). x.shard_id == s.id) d db.discoveries e n in
            let t = (eq_iff d.shard_id s.id).1 of in absurd (cc)
        | inr (x, e) ↦ rw e refl
      ] in
    count-pos _ s db.shards m (rw ((eq_iff s.run_id run_id).1 own, lacks, found) refl)

module _ (env : Env) (now : ℕ) (run : ScanRun) (actor : String) (db : Db) where
  -- A run with a shard that is failed or dead_letter, or with a shard that has a discovered candidate
  -- and no artifact of Nmap, never replaces the inventory.
  pub exposures-finalize_incomplete :
      AnyFailed run.id db.shards ⊎ AnyUnconfirmed run.id db
      → (finalize_terminal_run env now run actor db).1.exposures ≡ db.exposures
  exposures-finalize_incomplete (inl failed) =
      ground (arith, exposures-finalize env now run actor db, failed-counted run.id db failed)
  exposures-finalize_incomplete (inr unconfirmed) =
      ground
        (arith, exposures-finalize env now run actor db, unconfirmed-counted run.id db unconfirmed)
