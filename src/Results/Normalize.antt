-- ===== src/Results/Normalize.antt =====
-- src/scanpod_enterprise/results.py: `normalize_nmap_xml`. It adds rows to the session as it goes, and
-- those before an exception stay there.
use transport_lookout.Prelude.{
  ℕ, ◌+◌, String, Option, none, some, List, [], ◌∷◌, ◌++◌, select, find,
}
use transport_lookout.Config.{Env}
use transport_lookout.Model.{HostObservation, ServiceObservation}
use transport_lookout.Session.{Session, Try, raised, returned, ◌>>=◌, draw}
use transport_lookout.Results.{attrib, port_number, ipv4_address}
use transport_lookout.Results.Xml.{Element, children, attribute, has_tag, find_under}

abbrev or_unknown : Option String → String
or_unknown none = "unknown"
or_unknown (some text) = text

-- `node.attrib.get(name) if node is not None else None`
abbrev optional_attribute : String → Option Element → Option String
optional_attribute name none = none
optional_attribute name (some node) = attribute name node

abbrev pub port_service :
    Env → String → Element → Element → Option Element → Session → Try ServiceObservation
port_service env host_id port state service s = do
  number ← port_number env port
  returned (record {
    id = env.uuid4 s.db.drawn;
    host_observation_id = host_id;
    protocol = or_unknown (attribute "protocol" port);
    port = number;
    state = or_unknown (attribute "state" state);
    service = optional_attribute "name" service;
    product = optional_attribute "product" service;
    version = optional_attribute "version" service;
  })

abbrev pub add_service : ServiceObservation → Session → Session
add_service row s = record (draw s) { new_services = s.new_services ++ row ∷ [] }

abbrev pub add_host : HostObservation → Session → Session
add_host row s = record (draw s) { new_hosts = s.new_hosts ++ row ∷ [] }

-- The rows that one iteration of the inner loop adds, or what it raises.
abbrev pub port_rows :
    Env → String → Element → Option Element → Session → Try (List ServiceObservation)
port_rows env host_id port none s = returned []
port_rows env host_id port (some state) s = do
  row ← port_service env host_id port state (find (has_tag "service") (children port)) s
  returned (row ∷ [])

abbrev pub add_services : List ServiceObservation → Session → Session
add_services [] s = s
add_services (row ∷ rows) s = add_services rows (add_service row s)

abbrev pub then_add :
    (Session → Try (Unit {0}) × Session)
    → Try (List ServiceObservation)
    → Session
    → Try (Unit {0}) × Session
then_add next (raised failure) s = (raised failure, s)
then_add next (returned rows) s = next (add_services rows s)

-- The loop over the ports of a host.
unfoldable pub normalize_ports : Env → String → List Element → Session → Try (Unit {0}) × Session
unfolding port_number
normalize_ports env host_id [] s = (returned tt, s)
normalize_ports env host_id (port ∷ ports) s =
    then_add (normalize_ports env host_id ports)
      (port_rows env host_id port (find (has_tag "state") (children port)) s) s

abbrev or_element : Option Element → Option Element → Option Element
or_element none other = other
or_element (some e) other = some e

abbrev first_element : List Element → Option Element
first_element [] = none
first_element (e ∷ es) = some e

-- The row of a host element, `none` where the loop goes on to the next one.
abbrev pub host_row :
    Env
    → String
    → String
    → String
    → Element
    → Option Element
    → Option Element
    → Session
    → Try (Option HostObservation)
host_row env run_id shard_id token host (some address) (some state) s = do
  text ← attrib "addr" address
  returned (
      some (record {
        id = env.uuid4 s.db.drawn;
        run_id = run_id;
        shard_id = shard_id;
        lease_token = some token;
        address = text;
        state = or_unknown (attribute "state" state);
        hostname =
            optional_attribute "name"
              (first_element (find_under "hostnames" (has_tag "hostname") host));
      }))
host_row env run_id shard_id token host _ _ s = returned none

abbrev pub row_of :
    Env → String → String → String → Element → Session → Try (Option HostObservation)
row_of env run_id shard_id token host s =
    host_row env run_id shard_id token host
      (or_element (ipv4_address host) (find (has_tag "address") (children host)))
      (find (has_tag "status") (children host)) s

abbrev pub after_ports : (Session → Try ℕ × Session) → Try (Unit {0}) × Session → Try ℕ × Session
after_ports next (raised failure, s) = (raised failure, s)
after_ports next (returned done, s) = next s

-- The rest of an iteration, and the iterations after it with the count of hosts.
abbrev pub add_ports :
    Env
    → Element
    → (ℕ → Session → Try ℕ × Session)
    → ℕ
    → Try (Option HostObservation)
    → Session
    → Try ℕ × Session
add_ports env host next count (raised failure) s = (raised failure, s)
add_ports env host next count (returned none) s = next count s
add_ports env host next count (returned (some row)) s =
    after_ports (next (count + 1))
      (normalize_ports env row.id (find_under "ports" (has_tag "port") host) (add_host row s))

unfoldable pub normalize_hosts :
    Env → String → String → String → List Element → ℕ → Session → Try ℕ × Session
unfolding normalize_ports
normalize_hosts env run_id shard_id token [] count s = (returned count, s)
normalize_hosts env run_id shard_id token (host ∷ hosts) count s =
    add_ports env host (normalize_hosts env run_id shard_id token hosts) count
      (row_of env run_id shard_id token host s) s

abbrev pub normalize_root : Env → String → String → String → Try Element → Session → Try ℕ × Session
normalize_root env run_id shard_id token (raised failure) s = (raised failure, s)
normalize_root env run_id shard_id token (returned root) s =
    normalize_hosts env run_id shard_id token (select (has_tag "host") (children root)) 0 s

unfoldable pub normalize_nmap_xml :
    Env → String → String → String → Try Element → Session → Try ℕ × Session
unfolding normalize_hosts
normalize_nmap_xml env run_id shard_id token document s =
    normalize_root env run_id shard_id token document s
