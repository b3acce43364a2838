-- ===== src/Diff.antt =====
-- src/scanpod_enterprise/services.py: `exposure_diff`. A dict is a list of its entries, and a set of
-- addresses a list.
pub mod Items
pub mod Closures
pub mod Openings
use transport_lookout.Prelude.{
  ℤ, int_le, int_eq, ℕ, String, ◌≡◌, ◌↔◌, Bool, true, false, ◌&&◌, not, Option, none, some, List,
  [], ◌∷◌, ◌++◌, map, ◌==◌, nat_eq, string_eq, if◌then◌else◌, arith, ltb, leb, is_none, contains,
  select, find, take, order_by, Comparable, eq_iff,
}
use transport_lookout.Cidr.Ipv4.{codes}
use transport_lookout.Model.{
  Db, ScanRun, HostObservation, ServiceObservation, RunStatus, run_status_eq,
}
use transport_lookout.Recovery.{distinct}
use transport_lookout.Exposure.{
  Observed, is_up, observed_services, incomplete_discovery_shards, latest_first,
}

-- `str.__le__`, by code points.
abbrev pub codes_le : List ℕ → List ℕ → Bool
codes_le [] ys = true
codes_le (x ∷ xs) [] = false
codes_le (x ∷ xs) (y ∷ ys) =
    let rest = codes_le xs ys in if ltb x y then true else if ltb y x then false else rest

unfoldable pub str_le : String → String → Bool
str_le a b = codes_le (codes a) (codes b)

-- The tuple `(address, protocol, port)`.
pub record Endpoint : Type 0 where
  pub address : String
  pub protocol : String
  pub port : ℤ

abbrev pub endpoint_beq : Endpoint → Endpoint → Bool
endpoint_beq a b = a.address == b.address && a.protocol == b.protocol && a.port == b.port

abbrev pub endpoint_le : Endpoint → Endpoint → Bool
endpoint_le a b =
    if a.address == b.address
    then if a.protocol == b.protocol then int_le a.port b.port else str_le a.protocol b.protocol
    else str_le a.address b.address

-- One entry of the dict of observations.
pub record Item : Type 0 where
  pub key : Endpoint
  pub service : ServiceObservation

abbrev pub item_of : Observed → Item
item_of o = record {
  key = record { address = o.host.address; protocol = o.service.protocol; port = o.service.port };
  service = o.service;
}

-- `items[key] = service`
unfoldable pub put : Item → List Item → List Item
put item [] = item ∷ []
put item (x ∷ xs) =
    let rest = put item xs in if endpoint_beq x.key item.key then item ∷ xs else x ∷ rest

unfoldable pub put_all : List Item → List Observed → List Item
unfolding put
put_all items [] = items
put_all items (o ∷ os) = put_all (put (item_of o) items) os

abbrev pub lookup : Endpoint → List Item → Option Item
lookup key = find (λ x. endpoint_beq x.key key)

abbrev pub has_key : List Item → Endpoint → Bool
has_key items key = not (is_none (lookup key items))

-- The two results of the local function `observations`.
unfoldable pub observed_items : Db → ScanRun → List Item
unfolding put_all observed_services
observed_items db run = put_all [] (observed_services db run.id)

unfoldable pub up_hosts : Db → ScanRun → List String
up_hosts db run = map (λ (h : HostObservation). h.address) (select (is_up run.id) db.hosts)

-- The three columns of a service that a change shows.
pub record Details : Type 0 where
  pub service : Option String
  pub product : Option String
  pub version : Option String

abbrev pub details : Item → Details
details i = record {
  service = i.service.service;
  product = i.service.product;
  version = i.service.version;
}

abbrev pub text_beq : Option String → Option String → Bool
text_beq none none = true
text_beq (some a) (some b) = a == b
text_beq _ _ = false

abbrev pub details_beq : Details → Details → Bool
details_beq a b =
    text_beq a.service b.service && text_beq a.product b.product && text_beq a.version b.version

-- One dict of the list of changes, by its `change_type`.
pub data ExposureChange : Type 0 where
  host_disappeared : String → ExposureChange
  port_opened : Endpoint → Details → ExposureChange
  port_closed : Endpoint → Details → ExposureChange
  service_changed : Endpoint → Details → Details → ExposureChange

unfoldable pub sorted_items : List Item → List Item
sorted_items = order_by (λ a b. endpoint_le a.key b.key)

unfoldable pub disappeared : List String → List String → List ExposureChange
unfolding str_le distinct
disappeared current previous =
    map host_disappeared
      (order_by str_le (distinct (select (λ a. not (contains current a)) previous)))

abbrev pub open_item : Item → ExposureChange
open_item i = port_opened i.key (details i)

abbrev pub close_item : Item → ExposureChange
close_item i = port_closed i.key (details i)

unfoldable pub opened : List Item → List Item → List ExposureChange
unfolding sorted_items
opened current previous =
    map open_item (sorted_items (select (λ i. not (has_key previous i.key)) current))

-- Only where the address is still up.
unfoldable pub closed : List Item → List String → List Item → List ExposureChange
unfolding sorted_items
closed current hosts previous = map close_item (
    select (λ i. contains hosts i.key.address)
      (sorted_items (select (λ i. not (has_key current i.key)) previous)))

-- What the last loop appends for one key, with `previous_items[key]`.
abbrev pub change_item : Item → Option Item → List ExposureChange → List ExposureChange
change_item i none rest = rest
change_item i (some old) rest =
    if details_beq (details i) (details old)
    then rest
    else service_changed i.key (details i) (details old) ∷ rest

unfoldable pub changed_items : List Item → List Item → List ExposureChange
changed_items previous [] = []
changed_items previous (i ∷ is) = change_item i (lookup i.key previous) (changed_items previous is)

unfoldable pub changed : List Item → List Item → List ExposureChange
unfolding sorted_items changed_items
changed current previous =
    changed_items previous (sorted_items (select (λ i. has_key previous i.key) current))

pub record ExposureDiff : Type 0 where
  pub current : Option ScanRun
  pub previous : Option ScanRun
  pub changes : List ExposureChange
  pub coverage_complete : Bool

unfoldable pub changes_between : Db → ScanRun → ScanRun → List ExposureChange
unfolding observed_items up_hosts disappeared opened closed changed
changes_between db current previous =
    disappeared (up_hosts db current) (up_hosts db previous)
    ++ (opened (observed_items db current) (observed_items db previous)
        ++ (closed (observed_items db current) (up_hosts db current) (observed_items db previous)
            ++ changed (observed_items db current) (observed_items db previous)))

-- The changes where the coverage gate lets them through.
abbrev pub changes_since : Db → ScanRun → Option ScanRun → List ExposureChange
changes_since db current none = map open_item (sorted_items (observed_items db current))
changes_since db current (some previous) = changes_between db current previous

unfoldable pub diff_run : Db → ScanRun → Option ScanRun → ExposureDiff
unfolding incomplete_discovery_shards
diff_run db current previous =
    if not (incomplete_discovery_shards db current.id == 0)
    then record {
      current = some current;
      previous = previous;
      changes = [];
      coverage_complete = false;
    }
    else record {
      current = some current;
      previous = previous;
      changes = changes_since db current previous;
      coverage_complete = true;
    }

unfoldable pub diff_runs : Db → List ScanRun → ExposureDiff
unfolding diff_run
diff_runs db [] = record { current = none; previous = none; changes = []; coverage_complete = true }
diff_runs db (current ∷ []) = diff_run db current none
diff_runs db (current ∷ previous ∷ rest) = diff_run db current (some previous)

abbrev pub is_completed_of : String → String → ScanRun → Bool
is_completed_of scope_id profile_id r =
    r.inventory_scope_id == scope_id
    && r.profile_id == profile_id
    && r.status == RunStatus.completed

unfoldable pub exposure_diff : String → String → Db → ExposureDiff
unfolding diff_runs
exposure_diff scope_id profile_id db =
    diff_runs db (take 2 (latest_first (select (is_completed_of scope_id profile_id) db.runs)))
