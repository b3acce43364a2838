-- ===== src/Tests/Runs.antt =====
-- Dispatch, publication, cancellation, finalisation and the read model on the small database.
use Prim.Native.Nat.{min}
use transport_lookout.Prelude.{
  pos, ℕ, ◌+◌, ◌-◌, ◌*◌, ◌≤◌, ◌<◌, ◌≡◌, refl, ap, ◌⊎◌, inl, inr, ◌↔◌, true, false, ◌&&◌, none, some,
  List, String, [], ◌∷◌, ◌++◌, ◌==◌, nat_eq, string_eq, if◌then◌else◌, In, find, modify, count,
  delete, arith,
}
use transport_lookout.Model.{
  Db, ScanRun, ScanShard, ScanSchedule, HostObservation, ServiceObservation, RunStatus, OutboxEvent,
}
use transport_lookout.Outbox.{publish_pending_outbox}
use transport_lookout.Outbox.Accounts.{IsAccounted}
use transport_lookout.Outbox.Delivery.{publish_pending_outbox-IsAccounted}
use transport_lookout.Http.{ok}
use transport_lookout.Dispatch.{dispatch_available_shards, scan_event}
use transport_lookout.Dispatch.Budget.{active, ready, dispatch_budget}
use transport_lookout.Cancel.{cancel_run, is_waiting, cancelled_run}
use transport_lookout.Cancel.Shards.{cancelled_db}
use transport_lookout.Cancel.Stops.{cancel_stops}
use transport_lookout.Exposure.{
  is_exposure_of, observed_services, materialize_current_exposures, incomplete_discovery_shards,
}
use transport_lookout.Exposure.OpenServices.{IsOpenService, observed_services_iff}
use transport_lookout.Exposure.ReadModel.{materialize_replaces}
use transport_lookout.Finalize.{
  is_unfinished, is_failure, finished, save_run, finalize_terminal_run,
}
use transport_lookout.Finalize.Gate.{AllTerminal, finalize_iff, exposures-finalize}
use transport_lookout.Finalize.Outcome.{IsOutcome, finalize-IsOutcome}
use transport_lookout.Cidr.{shard_cidr}
use transport_lookout.Cidr.Ipv4.{str_network}
use transport_lookout.Runs.{create_run, new_run, insert_run}
use transport_lookout.Runs.Creation.{IsRequested, targets, new_targets, create_run-IsRequested}
use transport_lookout.Scheduler.{next_instant}
use transport_lookout.Scheduler.Advance.{next_instant_lem}
use transport_lookout.Tests.Data.{token, env, accepting, scope, profile, run, db, db-IsValid}

dispatch_budget_example :
    (dispatch_available_shards env 30 accepting "run" db).0
    ≡ min (2 - active "run" db) (ready "run" 30 db)
unfolding find
dispatch_budget_example =
    (dispatch_budget env 30 accepting "run" run profile db db-IsValid refl refl refl).0

abbrev event : OutboxEvent
event = scan_event "event" 30 (token 1) (token 5)

abbrev pending_db : Db
pending_db = record db { outbox = event ∷ [] }

pending_db-IsAccounted : IsAccounted pending_db
pending_db-IsAccounted = record {
  keys = (tt, tt);
  events =
      λ e i. elim i [ inl q ↦ inl (ap (λ (x : OutboxEvent). x.delivered_at) q) | inr n ↦ absurd n ];
}

publish_pending_outbox-IsAccounted_example :
    IsAccounted (publish_pending_outbox env 40 accepting 100 pending_db).1
publish_pending_outbox-IsAccounted_example =
    publish_pending_outbox-IsAccounted env 40 accepting 100 pending_db pending_db-IsAccounted

cancel_stops_example :
    ((s : ScanShard) → In s (cancelled_db env 40 run "op" db).shards → is_waiting "run" s ≡ false)
    × (dispatch_available_shards env 50 accepting "run" (cancelled_db env 40 run "op" db)
        ≡ (0, cancelled_db env 40 run "op" db))
unfolding cancel_run find
cancel_stops_example =
    cancel_stops env 40 run "op" db 50 accepting (cancelled_run 40 run) run
      (cancelled_db env 40 run "op" db) refl refl

abbrev done_run : ScanRun
done_run = record run { id = "old" }

abbrev up_host : HostObservation
up_host = record {
  id = "h";
  run_id = "old";
  shard_id = token 3;
  lease_token = none;
  address = "10.0.2.7";
  state = "up";
  hostname = none;
}

abbrev open_service : ServiceObservation
open_service = record {
  id = "s";
  host_observation_id = "h";
  protocol = "tcp";
  port = pos 443;
  state = "open";
  service = some "https";
  product = none;
  version = none;
}

abbrev observed_db : Db
observed_db = record db { hosts = up_host ∷ []; services = open_service ∷ [] }

finalize_iff_example :
    ((finalize_terminal_run env 60 done_run "worker" observed_db).0 ≡ true)
    ↔ ((is_unfinished RunStatus.running ≡ true) × AllTerminal "old" observed_db)
finalize_iff_example = finalize_iff env 60 done_run "worker" observed_db

finalize-IsOutcome_example :
    ((finalize_terminal_run env 60 done_run "worker" observed_db).0 ≡ true)
      × ((status : RunStatus) × IsOutcome "old" observed_db status
          × ((finalize_terminal_run env 60 done_run "worker" observed_db).1.runs
              ≡ modify
                  (λ r. r.id == "old")
                  (λ r. record r { status = status; completed_at = some 60 })
                  (run ∷ [])))
    ⊎ ((finalize_terminal_run env 60 done_run "worker" observed_db).0 ≡ false)
      × ((finalize_terminal_run env 60 done_run "worker" observed_db).1 ≡ observed_db)
finalize-IsOutcome_example = finalize-IsOutcome env 60 done_run "worker" observed_db

exposures-finalize_example :
    (finalize_terminal_run env 60 done_run "worker" observed_db).1.exposures ≡ (
      if (finalize_terminal_run env 60 done_run "worker" observed_db).0
        && (count (is_failure "old") observed_db.shards == 0
            && incomplete_discovery_shards observed_db "old" == 0)
      then (materialize_current_exposures env 60
          (finished RunStatus.completed 60 done_run)
          (save_run RunStatus.completed 60 done_run observed_db)).1.exposures
      else observed_db.exposures)
exposures-finalize_example = exposures-finalize env 60 done_run "worker" observed_db

materialize_replaces_example :
    delete
      (is_exposure_of done_run)
      (materialize_current_exposures env 60 done_run observed_db).1.exposures
    ≡ []
unfolding find delete
materialize_replaces_example = (materialize_replaces env 60 scope done_run observed_db refl).0

observed_services_iff_example :
    In (record { host = up_host; service = open_service }) (observed_services observed_db "old")
    ↔ IsOpenService observed_db "old" up_host open_service
observed_services_iff_example = observed_services_iff observed_db "old" up_host open_service

abbrev hourly : ScanSchedule
hourly = record {
  id = "nightly";
  name = "nightly";
  inventory_scope_id = "scope";
  profile_id = "profile";
  interval_minutes = 60;
  timezone = "UTC";
  next_run_at = 1000;
  enabled = true;
  created_by = "op";
}

next_instant_lem_example :
    (k : ℕ) × (t : ℕ) × (next_instant hourly 10000 ≡ some t)
    × (t ≡ 1000 + (k + 1) * (60 * 60))
    × (10000 < t)
    × (t ≤ 10000 + 60 * 60)
next_instant_lem_example = next_instant_lem hourly 10000 (omega arith) (omega arith)

abbrev created_db : Db
created_db =
    (dispatch_available_shards env 30 accepting (token 10)
      (insert_run env 30 scope profile "op" ("10.0.0.0/24" ∷ "10.0.1.0/24" ∷ []) db)).1

created :
    create_run env (λ text. false) 30 accepting scope profile "op" db
    ≡ ok (new_run (token 10) "scope" "profile" "op" 30, created_db)
unfolding create_run str_network
created = refl

create_run-IsRequested_example :
    (scope.approved ≡ true)
    × (scope.zone ≡ profile.zone)
    × IsRequested scope profile "op" 30 (new_run (token 10) "scope" "profile" "op" 30)
    × (created_db.runs ≡ db.runs ++ new_run (token 10) "scope" "profile" "op" 30 ∷ [])
    × ((cidrs : List String) × (shard_cidr env (λ text. false) scope.cidr ≡ ok cidrs)
        × (targets created_db.shards
            ≡ targets db.shards ++ new_targets (token 10) scope.zone cidrs))
create_run-IsRequested_example =
    create_run-IsRequested env 30 scope profile "op" (λ text. false) accepting
      (new_run (token 10) "scope" "profile" "op" 30) db created_db created
