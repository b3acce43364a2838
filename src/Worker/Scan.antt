-- ===== src/Worker/Scan.antt =====
-- src/scanpod_enterprise/worker.py: `execute_shard` as a whole. The files that the scanners leave, what
-- storing them raises and what the other processes do meanwhile enter as data.
use Prim.Native.String.{◌++◌ as ◌+++◌}
use transport_lookout.Prelude.{
  ℕ, ◌+◌, String, Bool, true, false, not, Option, none, some, List, [], ◌∷◌, ◌++◌, ◌==◌, string_eq,
  if◌then◌else◌, find, count, length,
}
use transport_lookout.Config.{Env}
use transport_lookout.Model.{
  Db, ScanRun, ScanShard, ScanProfile, RunStatus, ShardStatus, run_status_eq, number, text,
}
use transport_lookout.Text.{strip, or_none, or_text, is_empty}
use transport_lookout.Diff.{Endpoint}
use transport_lookout.Session.{
  Session, Failure, Try, raised, returned, open_session, commit, rollback, draw, add_audit,
}
use transport_lookout.Results.{masscan_observations, candidates, artifact_key}
use transport_lookout.Results.Normalize.{normalize_nmap_xml}
use transport_lookout.Results.Xml.{Element}
use transport_lookout.Outbox.{Broker}
use transport_lookout.Dispatch.{dispatch_run}
use transport_lookout.Finalize.{finalize_terminal_run, outcome, is_failure, finished}
use transport_lookout.Worker.Lease.{
  claim_lease, current_lease, finish_lease, failed_with, artifacts,
}
use transport_lookout.Worker.Execute.{start_shard, started, fail_shard}
use transport_lookout.Worker.Command.{Process, Exit, Ran, run_command, others_act}

-- What happens outside during one execution: the two commands, the parsed files or what parsing them
-- raises, what writing the targets and storing the files raises, what the others do while results are
-- stored, and the readings of the clocks at the start and at the end.
pub record World : Type 0 where
  pub masscan : Process
  pub nmap : Process
  pub discovery : Try Element
  pub confirmation : Try Element
  pub targets_failure : Option Failure
  pub discovery_failure : Option Failure
  pub confirmation_failure : Option Failure
  pub storing : Db → Db
  pub broker : Broker
  pub worker_id : String
  pub claimed_at : ℕ
  pub monotonic : ℕ
  pub ended_at : ℕ

-- How the `try` body ends, with the artifact keys where it has scanned.
pub data Outcome : Type 0 where
  scanned : Option String → Option String → Outcome
  cancelled : Outcome
  superseded : Outcome
  failed : Failure → Outcome

pub record Scanning : Type 0 where
  pub outcome : Outcome
  pub run : ScanRun
  pub session : Session

abbrev pub scanning : Outcome → ScanRun → Session → Scanning
scanning o run s = record { outcome = o; run = run; session = s }

-- What follows a command, by the way it ended.
abbrev pub after_exit : Exit → (ScanRun → Session → Scanning) → ScanRun → Session → Scanning
after_exit Exit.ended next run s = next run s
after_exit Exit.stopped next run s = scanning cancelled run s
after_exit Exit.superseded next run s = scanning superseded run s
after_exit (Exit.failed failure) next run s = scanning (failed failure) run s

abbrev pub after_command : Ran → (ScanRun → Session → Scanning) → Scanning
after_command r next = after_exit r.exit next r.run r.session

-- `store_artifact`, which raises or gives the key.
abbrev pub after_storing : Option Failure → (Session → Scanning) → ScanRun → Session → Scanning
after_storing none next run s = next s
after_storing (some failure) next run s = scanning (failed failure) run s

module _ (env : Env) (w : World) (shard : ScanShard) (token : String) where
  abbrev pub still_owned : ScanRun → Session → Scanning → Scanning
  still_owned run s next =
      if not (current_lease shard.id token s.db) then scanning superseded run s else next

  abbrev pub after_normalize : Option String → ScanRun → Try ℕ × Session → Scanning
  after_normalize discovery_key run (raised failure, s) = scanning (failed failure) run s
  after_normalize discovery_key run (returned n, s) =
      after_storing w.confirmation_failure
        (λ s.
          scanning (scanned (some (artifact_key run.id shard.id "nmap" (some token))) discovery_key)
            run s)
        run s

  -- What follows Nmap in both modes.
  unfoldable pub confirm : Option String → ScanRun → Session → Scanning
  unfolding current_lease artifact_key normalize_nmap_xml
  confirm discovery_key run s = still_owned run s (
      after_normalize discovery_key run
        (normalize_nmap_xml env run.id shard.id token w.confirmation s))

  -- `session.add(DiscoveryObservation(…))`
  abbrev pub add_discovery : ScanRun → Endpoint → Session → Session
  add_discovery run e s = record (draw s) {
    new_discoveries =
        s.new_discoveries
        ++ record {
          id = env.uuid4 s.db.drawn;
          run_id = run.id;
          shard_id = shard.id;
          lease_token = some token;
          address = e.address;
          protocol = e.protocol;
          port = e.port;
        }
          ∷ [];
  }

  unfoldable pub add_discoveries : ScanRun → List Endpoint → Session → Session
  add_discoveries run [] s = s
  add_discoveries run (e ∷ es) s = add_discoveries run es (add_discovery run e s)

  -- From the candidates on.
  abbrev pub after_discovery : ℕ → Option String → List String → ScanRun → Session → Scanning
  after_discovery deadline key [] run s = scanning (scanned none key) run (
      add_audit env "worker" "shard.confirmation.skipped" "scan_shard" shard.id
        (record { key = "reason"; value = text "no_masscan_candidates" } ∷ []) s)
  after_discovery deadline key (c ∷ cs) run s =
      after_storing w.targets_failure
        (λ s. after_command (run_command shard.id token deadline w.nmap run s) (confirm key)) run s

  abbrev pub discovery_audit : List Endpoint → Session → Session
  discovery_audit observations s =
      add_audit env "worker" "shard.discovery.completed" "scan_shard" shard.id
        (record { key = "candidates"; value = number (length (candidates observations)) }
          ∷ record { key = "open_ports"; value = number (length observations) }
          ∷ record { key = "scanner"; value = text "masscan" }
          ∷ [])
        s

  abbrev pub after_masscan : ℕ → ScanRun → Session → Try (List Endpoint) → Scanning
  after_masscan deadline run s (raised failure) = scanning (failed failure) run s
  after_masscan deadline run s (returned observations) =
      after_storing w.discovery_failure
        (λ s.
          after_discovery deadline (some (artifact_key run.id shard.id "masscan" (some token)))
            (candidates observations) run (discovery_audit observations s))
        run (add_discoveries run observations s)

  unfoldable pub discover : ℕ → ScanRun → Session → Scanning
  unfolding current_lease masscan_observations candidates artifact_key add_discoveries confirm
      run_command
  discover deadline run s =
      still_owned run s (after_masscan deadline run s (masscan_observations env w.discovery))

  abbrev pub scan_mode : Bool → ℕ → ScanRun → Session → Scanning
  scan_mode true deadline run s =
      after_command (run_command shard.id token deadline w.masscan run s) (discover deadline)
  scan_mode false deadline run s =
      after_command (run_command shard.id token deadline w.nmap run s) (confirm none)

  -- The `try` body up to the end of the two scanner modes.
  unfoldable pub scan : ScanProfile → ScanRun → Session → Scanning
  unfolding confirm discover run_command
  scan profile run s =
      scan_mode (profile.scanner_mode == "masscan_then_nmap")
        (w.monotonic + profile.timeout_seconds) run s

  -- The run object after `finalize_terminal_run` has returned.
  abbrev pub run_after : Bool → ScanRun → Db → ScanRun
  run_after done run db =
      if done then finished (outcome (count (is_failure run.id) db.shards)) w.ended_at run else run

  -- From the `finally` block to the end: `ran` is the session's database with all that it has added.
  unfoldable pub conclude_shard : ScanRun → Db → Db
  unfolding finalize_terminal_run dispatch_run finished
  conclude_shard run db =
      let (done, db') = finalize_terminal_run env w.ended_at run "worker" db in
      (dispatch_run env w.ended_at w.broker run.id (some (run_after done run db)) db').1

  -- `if not finished`: a rollback, and nothing more.
  abbrev pub when_finished : ScanRun → Session → Bool × Db → Db
  when_finished run s (false, db) = (rollback s).db
  when_finished run s (true, db) = conclude_shard run (commit (record s { db = db })).db

  abbrev pub error_text : Failure → String
  error_text f =
      f.type_name +++ (": " +++ or_text (strip (or_none f.stderr f.message)) "no error detail")

  -- How the execution ends after each outcome.
  abbrev pub finish_scan : Outcome → ScanRun → Session → Db
  finish_scan (scanned key discovery_key) run s =
      let stored = others_act w.storing s in
      if not (current_lease shard.id token stored.db)
      then (rollback stored).db
      else when_finished run stored (
          finish_lease shard.id token ShardStatus.completed (artifacts key discovery_key) stored.db)
  finish_scan cancelled run s =
      when_finished run s (
        finish_lease shard.id token ShardStatus.cancelled (failed_with "cancelled by operator")
          s.db)
  finish_scan superseded run s = (rollback s).db
  finish_scan (failed failure) run s =
      when_finished run s (fail_shard env w.ended_at shard token (error_text failure) s.db)

  unfoldable pub finish_scanning : Scanning → Db
  unfolding finish_lease fail_shard commit rollback conclude_shard strip
  finish_scanning r = finish_scan r.outcome r.run r.session

  -- From the first commit on, with the session's run and profile.
  unfoldable pub scan_shard : ScanProfile → ScanRun → Db → Db
  unfolding scan finish_scanning dispatch_run
  scan_shard profile run db = finish_scanning (
      scan profile run
        (open_session (dispatch_run env w.claimed_at w.broker run.id (some run) db).1))

  -- With the run and the profile that the session finds after the claim; the branches without them end
  -- within `start_shard`.
  abbrev pub with_profile : ScanRun → Option ScanProfile → Db → Db
  with_profile run none db = db
  with_profile run (some profile) db = scan_shard profile (started w.claimed_at run) db

  abbrev pub with_run : Option ScanRun → Db → Db → Db
  with_run none claimed db = db
  with_run (some run) claimed db =
      if run.status == RunStatus.cancelled
      then db
      else with_profile run (find (λ p. p.id == run.profile_id) claimed.profiles) db

  unfoldable pub run_claimed : Db → Db
  unfolding scan_shard start_shard started
  run_claimed claimed =
      with_run (find (λ r. r.id == shard.run_id) claimed.runs) claimed
        (start_shard w.claimed_at shard token claimed)

abbrev pub after_claim : Env → World → String → Option ScanShard × Db → Db
after_claim env w token (none, db) = db
after_claim env w token (some shard, db) = run_claimed env w shard token db

-- One task of the queue; `if not lease_token` takes the empty text too.
unfoldable pub execute_shard : Env → World → String → Option String → Db → Db
unfolding claim_lease run_claimed
execute_shard env w shard_id none db = db
execute_shard env w shard_id (some token) db =
    if is_empty token
    then db
    else after_claim env w token (claim_lease w.claimed_at shard_id token w.worker_id db)
