-- ===== src/Results/Staging.antt =====
-- `normalize_nmap_xml` only adds rows to the session.
use transport_lookout.Prelude.{
  ℕ, ◌+◌, String, refl, Option, none, some, List, [], ◌∷◌, arith, select, find,
}
use transport_lookout.Config.{Env}
use transport_lookout.Model.{HostObservation, ServiceObservation}
use transport_lookout.Session.{Session, Try, raised, returned}
use transport_lookout.Session.Frames.{Frames, Frames-refl, Frames-trans}
use transport_lookout.Results.Xml.{Element, children, has_tag, find_under}
use transport_lookout.Results.Normalize.{
  add_services, add_service, add_host, then_add, after_ports, add_ports, row_of, port_rows,
  normalize_ports, normalize_hosts, normalize_nmap_xml,
}

add_services-Frames :
    (rows : List ServiceObservation) (s : Session) → Frames s (add_services rows s)
add_services-Frames [] s = Frames-refl s
add_services-Frames (row ∷ rows) s =
    let first : Frames s (add_service row s) = record {
      shards_same = refl;
      drawn_le = omega arith;
    } in
    Frames-trans first (add_services-Frames rows (add_service row s))

add_host-Frames : (row : HostObservation) (s : Session) → Frames s (add_host row s)
add_host-Frames row s = record { shards_same = refl; drawn_le = omega arith }

then_add-Frames :
    (next : Session → Try (Unit {0}) × Session) (rows : Try (List ServiceObservation)) (s : Session)
    → ((t : Session) → Frames t (next t).1)
    → Frames s (then_add next rows s).1
then_add-Frames next (raised failure) s h = Frames-refl s
then_add-Frames next (returned rows) s h =
    Frames-trans (add_services-Frames rows s) (h (add_services rows s))

normalize_ports-Frames :
    (env : Env) (host_id : String) (ports : List Element) (s : Session)
    → Frames s (normalize_ports env host_id ports s).1
unfolding normalize_ports
normalize_ports-Frames env host_id [] s = Frames-refl s
normalize_ports-Frames env host_id (port ∷ ports) s =
    then_add-Frames (normalize_ports env host_id ports)
      (port_rows env host_id port (find (has_tag "state") (children port)) s) s
      (normalize_ports-Frames env host_id ports)

after_ports-Frames :
    (next : Session → Try ℕ × Session) (r : Try (Unit {0}) × Session)
    → ((t : Session) → Frames t (next t).1)
    → Frames r.1 (after_ports next r).1
after_ports-Frames next (raised failure, s) h = Frames-refl s
after_ports-Frames next (returned done, s) h = h s

add_ports-Frames :
    (env : Env) (host : Element) (next : ℕ → Session → Try ℕ × Session) (count : ℕ)
    (row : Try (Option HostObservation)) (s : Session)
    → ((n : ℕ) (t : Session) → Frames t (next n t).1)
    → Frames s (add_ports env host next count row s).1
add_ports-Frames env host next count (raised failure) s h = Frames-refl s
add_ports-Frames env host next count (returned none) s h = h count s
add_ports-Frames env host next count (returned (some row)) s h =
    let ports = find_under "ports" (has_tag "port") host in
    Frames-trans (add_host-Frames row s) (
      Frames-trans (normalize_ports-Frames env row.id ports (add_host row s)) (
        after_ports-Frames (next (count + 1)) (normalize_ports env row.id ports (add_host row s))
          (h (count + 1))))

normalize_hosts-Frames :
    (env : Env) (run_id shard_id token : String) (hosts : List Element) (count : ℕ) (s : Session)
    → Frames s (normalize_hosts env run_id shard_id token hosts count s).1
unfolding normalize_hosts
normalize_hosts-Frames env run_id shard_id token [] count s = Frames-refl s
normalize_hosts-Frames env run_id shard_id token (host ∷ hosts) count s =
    add_ports-Frames env host (normalize_hosts env run_id shard_id token hosts) count
      (row_of env run_id shard_id token host s) s
      (normalize_hosts-Frames env run_id shard_id token hosts)

pub normalize_nmap_xml-Frames :
    (env : Env) (run_id shard_id token : String) (document : Try Element) (s : Session)
    → Frames s (normalize_nmap_xml env run_id shard_id token document s).1
unfolding normalize_nmap_xml
normalize_nmap_xml-Frames env run_id shard_id token (raised failure) s = Frames-refl s
normalize_nmap_xml-Frames env run_id shard_id token (returned root) s =
    normalize_hosts-Frames env run_id shard_id token (select (has_tag "host") (children root)) 0 s
