-- ===== src/Tests/Executions.antt =====
-- A worker scans the leased shard with Nmap, polling once, while nothing else happens.
use transport_lookout.Prelude.{true, none, some, [], ◌∷◌, inl, inr}
use transport_lookout.System.{Reach}
use transport_lookout.System.Commands.{IsObserved, IsWorld}
use transport_lookout.System.Execution.{execute_shard_refines}
use transport_lookout.Session.{returned}
use transport_lookout.Results.Xml.{Element, element, nil, cons}
use transport_lookout.Worker.Command.{Process, Poll}
use transport_lookout.Worker.Scan.{World, execute_shard}
use transport_lookout.Tests.Data.{token, env, accepting, db}

abbrev poll : Poll
poll = record { others = λ db. db; now = 65; monotonic = 1015 }

abbrev process : Process
process = record {
  launch_failure = none;
  polls = poll ∷ [];
  after = λ db. db;
  returncode_zero = true;
  stderr = "";
  failed_message = "";
  timeout_message = "";
}

abbrev report : Element
report = element "nmaprun" [] (
    cons
      (element "host" [] (
        cons (element "status" (record { name = "state"; value = "up" } ∷ []) nil) (
          cons
            (element "address"
              (record { name = "addr"; value = "10.0.0.7" }
                ∷ record { name = "addrtype"; value = "ipv4" }
                ∷ [])
              nil)
            nil)))
      nil)

abbrev world : World
world = record {
  masscan = process;
  nmap = process;
  discovery = returned report;
  confirmation = returned report;
  targets_failure = none;
  discovery_failure = none;
  confirmation_failure = none;
  storing = λ db. db;
  broker = accepting;
  worker_id = "w";
  claimed_at = 50;
  monotonic = 1000;
  ended_at = 70;
}

process-IsObserved : IsObserved env process
process-IsObserved = record {
  polls_IsSystem = λ p m. elim m [ inl e ↦ rw e (λ db. Reach.start) | inr n ↦ absurd n ];
  after_IsSystem = λ db. Reach.start;
}

world-IsWorld : IsWorld env world
world-IsWorld = record {
  masscan_IsObserved = process-IsObserved;
  nmap_IsObserved = process-IsObserved;
  storing_IsSystem = λ db. Reach.start;
}

execute_shard_refines_example : Reach env db (execute_shard env world (token 1) (some (token 5)) db)
execute_shard_refines_example =
    execute_shard_refines env world world-IsWorld (token 1) (some (token 5)) db
