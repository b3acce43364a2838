-- ===== src/System/Commands.antt =====
-- `run_command` of src/scanpod_enterprise/worker.py against the steps of the system.
use transport_lookout.Prelude.{
  ℕ, String, refl, Bool, true, false, not, Option, none, some, List, [], ◌∷◌, inl, inr, ◌==◌,
  string_eq, find, leb, if◌then◌else◌, In,
}
use transport_lookout.Config.{Env}
use transport_lookout.Model.{Db, ScanRun, RunStatus, run_status_eq}
use transport_lookout.Session.{Session, Failure, commit}
use transport_lookout.Session.Frames.{Frames, commit-Frames}
use transport_lookout.Worker.Lease.{current_lease, heartbeat}
use transport_lookout.Worker.Command.{
  Poll, Process, Ran, poll_round, poll_loop, launched, run_command, others_act,
}
use transport_lookout.Worker.Scan.{World}
use transport_lookout.System.{Step, Reach}

pub Reach-trans : {env : Env} {a b c : Db} → Reach env a b → Reach env b c → Reach env a c
Reach-trans r Reach.start = r
Reach-trans r (Reach.then q s) = Reach.then (Reach-trans r q) s

-- What a process of the system does to the database is steps of the system.
abbrev pub IsSystem : Env → (Db → Db) → Type 0
IsSystem env f = (db : Db) → Reach env db (f db)

-- So is all that others do while the command runs.
pub record IsObserved (env : Env) (p : Process) : Type 0 where
  pub polls_IsSystem : (poll : Poll) → In poll p.polls → IsSystem env poll.others
  pub after_IsSystem : IsSystem env p.after

-- So is all that others do during an execution.
pub record IsWorld (env : Env) (w : World) : Type 0 where
  pub masscan_IsObserved : IsObserved env w.masscan
  pub nmap_IsObserved : IsObserved env w.nmap
  pub storing_IsSystem : IsSystem env w.storing

module _ (env : Env) (origin : Db) where
  -- The committed database of the session is one that the system reaches.
  abbrev pub Reached : Session → Type 0
  Reached s = Reach env origin s.db

  pub Frames-Reached : {s t : Session} → Reached s → Frames s t → Reached t
  Frames-Reached {t = t} r f = Reach.then r (Step.others t.db f.shards_same f.drawn_le)

  pub others_act-Reached :
      (f : Db → Db) (s : Session) → IsSystem env f → Reached s → Reached (others_act f s)
  others_act-Reached f s h r = Reach-trans r (h s.db)

  if-Reached :
      (b : Bool) (x y : Ran)
      → Reached x.session
      → Reached y.session
      → Reached (if b then x else y).session
  if-Reached true x y p q = p
  if-Reached false x y p q = q

  module _ (shard_id token : String) (deadline : ℕ) (p : Process) (o : IsObserved env p) where
    poll_round-Reached :
        (poll : Poll) (rest : ScanRun → Session → Ran) (old : ScanRun) (row : Option ScanRun)
        (s : Session)
        → ((run : ScanRun) (t : Session) → Reached t → Reached (rest run t).session)
        → Reached s
        → Reached (poll_round shard_id token deadline p poll rest old row s).session
    unfolding poll_round
    poll_round-Reached poll rest old none s h r = r
    poll_round-Reached poll rest old (some run) s h r =
        let beating = record s { db = heartbeat poll.now shard_id token s.db } in
        let beaten : Reached (commit beating) =
          Frames-Reached {s = beating} (Reach.then r (Step.beats poll.now shard_id token))
            (commit-Frames beating) in
        if-Reached (not (current_lease shard_id token s.db)) _ _ r (
          if-Reached (run.status == RunStatus.cancelled) _ _
            (others_act-Reached p.after (commit beating) o.after_IsSystem beaten)
            (if-Reached (leb deadline poll.monotonic) _ _ beaten (h run (commit beating) beaten)))

    poll_loop-Reached :
        (polls : List Poll) (run : ScanRun) (s : Session)
        → ((poll : Poll) → In poll polls → IsSystem env poll.others)
        → Reached s
        → Reached (poll_loop shard_id token deadline p polls run s).session
    unfolding poll_loop
    poll_loop-Reached [] run s h r = others_act-Reached p.after s o.after_IsSystem r
    poll_loop-Reached (poll ∷ polls) run s h r =
        poll_round-Reached poll (poll_loop shard_id token deadline p polls) run
          (find (λ x. x.id == run.id) (poll.others s.db).runs) (others_act poll.others s)
          (λ next t q. poll_loop-Reached polls next t (λ x m. h x (inr m)) q)
          (others_act-Reached poll.others s (h poll (inl refl)) r)

    launched-Reached :
        (failure : Option Failure) (run : ScanRun) (s : Session)
        → Reached s
        → Reached (launched shard_id token deadline p failure run s).session
    unfolding launched
    launched-Reached none run s r = poll_loop-Reached p.polls run s o.polls_IsSystem r
    launched-Reached (some failure) run s r = r

    pub run_command-Reached :
        (run : ScanRun) (s : Session)
        → Reached s
        → Reached (run_command shard_id token deadline p run s).session
    unfolding run_command
    run_command-Reached run s r = launched-Reached p.launch_failure run s r
