-- ===== src/System/Scanning.antt =====
-- The scan inside `execute_shard` of src/scanpod_enterprise/worker.py against the steps of the system.
use transport_lookout.Prelude.{
  ℕ, String, refl, Bool, true, false, not, Option, none, some, List, [], ◌∷◌, inl, inr, arith,
  string_eq, Bool-cases,
}
use transport_lookout.Config.{Env}
use transport_lookout.Model.{Db, ScanRun, ScanShard, run_status_eq}
use transport_lookout.Diff.{Endpoint}
use transport_lookout.Session.{Session, Failure, Try, raised, returned}
use transport_lookout.Session.Frames.{Frames, Frames-refl, Frames-trans, add_audit-Frames}
use transport_lookout.Results.{candidates, masscan_observations}
use transport_lookout.Results.Normalize.{normalize_nmap_xml}
use transport_lookout.Results.Staging.{normalize_nmap_xml-Frames}
use transport_lookout.Worker.Lease.{current_lease}
use transport_lookout.Worker.Command.{Process, Exit, run_command}
use transport_lookout.Worker.Scan.{
  World, Scanning, after_exit, after_command, after_storing, after_normalize, after_discovery,
  after_masscan, discovery_audit, still_owned, confirm, discover, scan_mode, add_discovery,
  add_discoveries,
}
use transport_lookout.System.Commands.{
  IsObserved, IsWorld, Reached, Frames-Reached, run_command-Reached,
}

module _ (env : Env) (w : World) (shard : ScanShard) (token : String) where
  add_discoveries-Frames :
      (run : ScanRun) (es : List Endpoint) (s : Session)
      → Frames s (add_discoveries env w shard token run es s)
  unfolding add_discoveries
  add_discoveries-Frames run [] s = Frames-refl s
  add_discoveries-Frames run (e ∷ es) s =
      let first : Frames s (add_discovery env w shard token run e s) = record {
        shards_same = refl;
        drawn_le = omega arith;
      } in
      Frames-trans first (add_discoveries-Frames run es (add_discovery env w shard token run e s))

  module _ (origin : Db) (h : IsWorld env w) where
    abbrev pub Ends : Scanning → Type 0
    Ends r = Reached env origin r.session

    after_exit-Reached :
        (exit : Exit) (next : ScanRun → Session → Scanning) (run : ScanRun) (s : Session)
        → ((run : ScanRun) (t : Session) → Reached env origin t → Ends (next run t))
        → Reached env origin s
        → Ends (after_exit exit next run s)
    after_exit-Reached Exit.ended next run s f r = f run s r
    after_exit-Reached Exit.stopped next run s f r = r
    after_exit-Reached Exit.superseded next run s f r = r
    after_exit-Reached (Exit.failed failure) next run s f r = r

    after_command-Reached :
        (deadline : ℕ) (p : Process) (next : ScanRun → Session → Scanning) (run : ScanRun)
        (s : Session)
        → IsObserved env p
        → ((run : ScanRun) (t : Session) → Reached env origin t → Ends (next run t))
        → Reached env origin s
        → Ends (after_command (run_command shard.id token deadline p run s) next)
    after_command-Reached deadline p next run s o f r =
        let c = run_command shard.id token deadline p run s in
        after_exit-Reached c.exit next c.run c.session f
          (run_command-Reached env origin shard.id token deadline p o run s r)

    after_storing-Reached :
        (failure : Option Failure) (next : Session → Scanning) (run : ScanRun) (s : Session)
        → Ends (next s)
        → Reached env origin s
        → Ends (after_storing failure next run s)
    after_storing-Reached none next run s f r = f
    after_storing-Reached (some failure) next run s f r = r

    still_owned-Reached :
        (run : ScanRun) (s : Session) (next : Scanning)
        → Reached env origin s
        → Ends next
        → Ends (still_owned env w shard token run s next)
    still_owned-Reached run s next r f =
        elim (Bool-cases (not (current_lease shard.id token s.db))) [
          | inl e ↦ rw e r
          | inr e ↦ rw e f
        ]

    after_normalize-Reached :
        (key : Option String) (run : ScanRun) (n : Try ℕ × Session)
        → Reached env origin n.1
        → Ends (after_normalize env w shard token key run n)
    after_normalize-Reached key run (raised failure, s) r = r
    after_normalize-Reached key run (returned n, s) r =
        after_storing-Reached w.confirmation_failure _ run s r r

    confirm-Reached :
        (key : Option String) (run : ScanRun) (s : Session)
        → Reached env origin s
        → Ends (confirm env w shard token key run s)
    unfolding confirm
    confirm-Reached key run s r =
        let normalized = normalize_nmap_xml env run.id shard.id token w.confirmation s in
        still_owned-Reached run s _ r (
          after_normalize-Reached key run normalized (
            Frames-Reached env origin {s = s} r
              (normalize_nmap_xml-Frames env run.id shard.id token w.confirmation s)))

    after_discovery-Reached :
        (deadline : ℕ) (key : Option String) (found : List String) (run : ScanRun) (s : Session)
        → Reached env origin s
        → Ends (after_discovery env w shard token deadline key found run s)
    after_discovery-Reached deadline key [] run s r =
        Frames-Reached env origin {s = s} r (add_audit-Frames env _ _ _ _ _ s)
    after_discovery-Reached deadline key (c ∷ cs) run s r =
        after_storing-Reached w.targets_failure _ run s
          (after_command-Reached deadline w.nmap (confirm env w shard token key) run s
            h.nmap_IsObserved (confirm-Reached key) r)
          r

    after_masscan-Reached :
        (deadline : ℕ) (run : ScanRun) (s : Session) (found : Try (List Endpoint))
        → Reached env origin s
        → Ends (after_masscan env w shard token deadline run s found)
    after_masscan-Reached deadline run s (raised failure) r = r
    after_masscan-Reached deadline run s (returned es) r =
        let added = add_discoveries env w shard token run es s in
        let q : Reached env origin added =
          Frames-Reached env origin {s = s} r (add_discoveries-Frames run es s) in
        after_storing-Reached w.discovery_failure _ run added
          (after_discovery-Reached deadline _ (candidates es) run
            (discovery_audit env w shard token es added)
            (Frames-Reached env origin {s = added} q (add_audit-Frames env _ _ _ _ _ added)))
          q

    pub scan_mode-Reached :
        (both : Bool) (deadline : ℕ) (run : ScanRun) (s : Session)
        → Reached env origin s
        → Ends (scan_mode env w shard token both deadline run s)
    unfolding discover
    scan_mode-Reached true deadline run s r =
        after_command-Reached deadline w.masscan (discover env w shard token deadline) run s
          h.masscan_IsObserved
          (λ run t q.
            still_owned-Reached run t _ q
              (after_masscan-Reached deadline run t (masscan_observations env w.discovery) q))
          r
    scan_mode-Reached false deadline run s r =
        after_command-Reached deadline w.nmap (confirm env w shard token none) run s
          h.nmap_IsObserved (confirm-Reached none) r
