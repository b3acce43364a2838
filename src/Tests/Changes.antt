-- ===== src/Tests/Changes.antt =====
-- Two completed runs of a scope: port 443 of a host closes, a second host disappears with its port.
use transport_lookout.Prelude.{
  ℤ, pos, take, order_by, select, count, contains, find, String, ◌≡◌, refl, ◌↔◌, none, some, [],
  ◌∷◌,
}
use transport_lookout.Model.{Db, ScanRun, HostObservation, ServiceObservation, RunStatus}
use transport_lookout.Diff.{Endpoint, ExposureChange, exposure_diff, changes_between}
use transport_lookout.Diff.Closures.{Closes, Explains, exposure_diff-Closes}
use transport_lookout.Diff.Openings.{Opens, Shows, exposure_diff-Opens}
use transport_lookout.Tests.Data.{db, run}

abbrev old_run : ScanRun
old_run = record run { id = "old"; status = RunStatus.completed; completed_at = some 100 }

abbrev new_run : ScanRun
new_run = record run { id = "new"; status = RunStatus.completed; completed_at = some 200 }

abbrev host : String → String → String → HostObservation
host id run_id address = record {
  id = id;
  run_id = run_id;
  shard_id = "shard";
  lease_token = none;
  address = address;
  state = "up";
  hostname = none;
}

abbrev service : String → String → ℤ → ServiceObservation
service id host_id port = record {
  id = id;
  host_observation_id = host_id;
  protocol = "tcp";
  port = port;
  state = "open";
  service = none;
  product = none;
  version = none;
}

abbrev two_runs : Db
two_runs = record db {
  runs = old_run ∷ new_run ∷ [];
  shards = [];
  hosts = host "a" "old" "10.0.0.1" ∷ host "b" "old" "10.0.0.2" ∷ host "c" "new" "10.0.0.1" ∷ [];
  services =
      service "1" "a" (pos 443)
      ∷ service "2" "a" (pos 22)
      ∷ service "3" "b" (pos 80)
      ∷ service "4" "c" (pos 22)
      ∷ [];
}

abbrev https : Endpoint
https = record { address = "10.0.0.1"; protocol = "tcp"; port = pos 443 }

exposure_diff_run :
    (exposure_diff "scope" "profile" two_runs).changes
    ≡ ExposureChange.host_disappeared "10.0.0.2"
      ∷ ExposureChange.port_closed https (record { service = none; product = none; version = none })
      ∷ []
unfolding exposure_diff take order_by select count changes_between contains find
exposure_diff_run = refl

exposure_diff-Closes_example :
    Closes https (exposure_diff "scope" "profile" two_runs).changes
    ↔ Explains https two_runs (exposure_diff "scope" "profile" two_runs)
exposure_diff-Closes_example = exposure_diff-Closes "scope" "profile" two_runs https

-- Between the runs in the other order, the port opens.
abbrev reopened : Db
reopened = record two_runs {
  runs =
      record old_run { completed_at = some 200 } ∷ record new_run { completed_at = some 100 } ∷ [];
}

exposure_diff-Opens_example :
    Opens https (exposure_diff "scope" "profile" reopened).changes
    ↔ Shows https reopened (exposure_diff "scope" "profile" reopened)
exposure_diff-Opens_example = exposure_diff-Opens "scope" "profile" reopened https
