-- ===== src/Tests/Coverage.antt =====
-- A finished run whose shard has a candidate that Nmap has not confirmed.
use transport_lookout.Prelude.{◌≡◌, refl, inl, inr, none, [], ◌∷◌, pos}
use transport_lookout.Model.{Db, ScanRun, DiscoveryObservation}
use transport_lookout.Finalize.{finalize_terminal_run}
use transport_lookout.Finalize.Coverage.{exposures-finalize_incomplete}
use transport_lookout.Tests.Data.{token, env, run, done_shard, db}

abbrev finished_run : ScanRun
finished_run = record run { id = "old" }

abbrev candidate : DiscoveryObservation
candidate = record {
  id = "d";
  run_id = "old";
  shard_id = token 3;
  lease_token = none;
  address = "10.0.2.7";
  protocol = "tcp";
  port = pos 443;
}

abbrev unconfirmed_db : Db
unconfirmed_db = record db {
  runs = finished_run ∷ [];
  shards = done_shard ∷ [];
  discoveries = candidate ∷ [];
}

exposures-finalize_incomplete_example :
    (finalize_terminal_run env 60 finished_run "worker" unconfirmed_db).1.exposures
    ≡ unconfirmed_db.exposures
exposures-finalize_incomplete_example =
    exposures-finalize_incomplete env 60 finished_run "worker" unconfirmed_db
      (inr (done_shard, candidate, inl refl, inl refl, refl, refl, refl))
