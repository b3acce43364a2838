-- ===== src/Results.antt =====
-- src/scanpod_enterprise/results.py: `artifact_key`, `masscan_observations`, `masscan_candidates` and
-- `normalize_nmap_xml`, on parsed documents.
pub mod Xml
pub mod Normalize
pub mod Staging
pub mod Endpoints
pub mod Masscan
use Prim.Native.String.{◌++◌ as ◌+++◌}
use transport_lookout.Prelude.{
  ℤ, ℕ, ◌+◌, String, Bool, true, false, ◌||◌, Option, none, some, List, [], ◌∷◌, ◌++◌, ◌==◌,
  string_eq, if◌then◌else◌, is_none, not, map, select, find, order_by,
}
use transport_lookout.Config.{Env}
use transport_lookout.Model.{Db, HostObservation, ServiceObservation}
use transport_lookout.Text.{int, is_empty}
use transport_lookout.Recovery.{distinct}
use transport_lookout.Diff.{Endpoint, endpoint_beq, endpoint_le, str_le}
use transport_lookout.Session.{Failure, Try, raised, returned, ◌>>=◌}
use Xml.{Element, children, attribute, has_tag, has_value, find_under}

abbrev attempt_part : Option String → String
attempt_part none = "/"
attempt_part (some token) = if is_empty token then "/" else "/attempts/" +++ (token +++ "/")

unfoldable pub artifact_key : String → String → String → Option String → String
artifact_key run_id shard_id stage token =
    "runs/"
    +++ (run_id +++ ("/shards/" +++ (shard_id +++ (attempt_part token +++ (stage +++ ".xml")))))

abbrev key_error : String → Failure
key_error key = record { type_name = "KeyError"; stderr = none; message = "'" +++ (key +++ "'") }

abbrev required : String → Option String → Try String
required key none = raised (key_error key)
required key (some value) = returned value

-- `node.attrib[key]`
abbrev pub attrib : String → Element → Try String
attrib key e = required key (attribute key e)

abbrev read_number : Env → String → Option ℤ → Try ℤ
read_number env text none = raised (record {
  type_name = "ValueError";
  stderr = none;
  message = "invalid literal for int() with base 10: " +++ env.repr text;
})
read_number env text (some n) = returned n

-- `int(node.attrib["portid"])`
unfoldable pub port_number : Env → Element → Try ℤ
unfolding int
port_number env port = do text ← attrib "portid" port; read_number env text (int text)

abbrev pub is_open : Element → Bool
is_open port = not (is_none (find (has_value "state" "state" "open") (children port)))

-- `observations.append(…)`, before the rest of the loop
abbrev pub add_port : Env → Element → Element → Try (List Endpoint) → Try (List Endpoint)
add_port env address port rest = do
  text ← attrib "addr" address
  number ← port_number env port
  others ← rest
  returned (record { address = text; protocol = "tcp"; port = number } ∷ others)

-- The inner loop of `masscan_observations`, for the host with this address element.
unfoldable pub open_ports : Env → Element → List Element → Try (List Endpoint)
unfolding port_number
open_ports env address [] = returned []
open_ports env address (port ∷ ports) =
    let rest = open_ports env address ports in
    if is_open port then add_port env address port rest else rest

abbrev pub host_ports : Env → Option Element → Element → Try (List Endpoint)
host_ports env none host = returned []
host_ports env (some address) host =
    open_ports env address (find_under "ports" (has_value "port" "protocol" "tcp") host)

abbrev pub ipv4_address : Element → Option Element
ipv4_address host = find (has_value "address" "addrtype" "ipv4") (children host)

unfoldable pub open_hosts : Env → List Element → Try (List Endpoint)
unfolding open_ports
open_hosts env [] = returned []
open_hosts env (host ∷ hosts) = do
  here ← host_ports env (ipv4_address host) host
  others ← open_hosts env hosts
  returned (here ++ others)

unfoldable pub has_endpoint : List Endpoint → Endpoint → Bool
has_endpoint [] e = false
has_endpoint (x ∷ xs) e = endpoint_beq x e || has_endpoint xs e

unfoldable pub add_new : Endpoint → List Endpoint → List Endpoint
unfolding has_endpoint
add_new x xs = if has_endpoint xs x then xs else x ∷ xs

-- `set(observations)`
unfoldable pub distinct_endpoints : List Endpoint → List Endpoint
unfolding add_new
distinct_endpoints [] = []
distinct_endpoints (x ∷ xs) = add_new x (distinct_endpoints xs)

unfoldable pub masscan_observations : Env → Try Element → Try (List Endpoint)
unfolding open_hosts distinct_endpoints
masscan_observations env document = do
  root ← document
  observations ← open_hosts env (select (has_tag "host") (children root))
  returned (order_by endpoint_le (distinct_endpoints observations))

-- `sorted({address for address, _, _ in observations})`
unfoldable pub candidates : List Endpoint → List String
unfolding distinct str_le
candidates observations =
    order_by str_le (distinct (map (λ (e : Endpoint). e.address) observations))

unfoldable pub masscan_candidates : Env → Try Element → Try (List String)
unfolding masscan_observations candidates
masscan_candidates env document = do
  observations ← masscan_observations env document
  returned (candidates observations)
