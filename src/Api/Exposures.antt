-- ===== src/Api/Exposures.antt =====
-- src/scanpod_enterprise/main.py: `filtered_exposures`, `deduplicated_exposures`, `list_exposures`, the
-- rows of `export_exposures`, and `exposure_summary`. The database's ILIKE on a pattern
-- `%…%` is an argument.
pub mod Dedup
pub mod Coverage
use Prim.Native.Nat.{min, max}
use transport_lookout.Prelude.{
  int_le, int_eq, ℕ, ◌+◌, String, Bool, true, false, ◌||◌, ◌&&◌, Option, none, some, List, [], ◌∷◌,
  map, ◌==◌, nat_eq, string_eq, if◌then◌else◌, leb, length, select, take, order_by, ℤ, pos, negsuc,
  at_least, clamp,
}
use transport_lookout.Config.{Env}
use transport_lookout.Model.{Db, CurrentExposure}
use transport_lookout.Text.{is_empty}
use transport_lookout.Recovery.{distinct}
use transport_lookout.Diff.{text_beq}
use transport_lookout.Api.Runs.{drop}

-- The query parameters.
pub record Filter : Type 0 where
  pub scope_id : Option String
  pub host : Option String
  pub port : Option ℤ
  pub service : Option String

-- `if value: query.filter(…)`: an empty text and a port of 0 filter nothing.
abbrev text_filter : (String → Bool) → Option String → Bool
text_filter test none = true
text_filter test (some text) = if is_empty text then true else test text

abbrev port_filter : ℤ → Option ℤ → Bool
port_filter port none = true
port_filter port (some p) = p == pos 0 || port == p

-- A NULL is like nothing.
abbrev like : (String → String → Bool) → Option String → String → Bool
like ilike none part = false
like ilike (some text) part = ilike text part

abbrev pub matches : (String → String → Bool) → Filter → CurrentExposure → Bool
matches ilike f e =
    text_filter (λ s. e.inventory_scope_id == s) f.scope_id
    && text_filter (λ h. e.address == h) f.host
    && port_filter e.port f.port
    && text_filter (like ilike e.service) f.service

unfoldable pub filtered_exposures : (String → String → Bool) → Filter → Db → List CurrentExposure
filtered_exposures ilike f db = select (matches ilike f) db.exposures

-- `PARTITION BY address, protocol, port, service`, in which a NULL is equal to a NULL.
abbrev pub same_partition : CurrentExposure → CurrentExposure → Bool
same_partition a b =
    a.address == b.address
    && a.protocol == b.protocol
    && a.port == b.port
    && text_beq a.service b.service

-- The row of rank 1 of two, with the window functions' values.
abbrev pub later : CurrentExposure → CurrentExposure → CurrentExposure
later a b = if leb b.last_seen_at a.last_seen_at then a else b

unfoldable pub merge : CurrentExposure → CurrentExposure → CurrentExposure
merge a b = record (later a b) {
  first_seen_at = min a.first_seen_at b.first_seen_at;
  last_seen_at = max a.last_seen_at b.last_seen_at;
  scan_count = a.scan_count + b.scan_count;
}

-- A row joins the row of its partition.
unfoldable pub add_ranked : CurrentExposure → List CurrentExposure → List CurrentExposure
unfolding merge
add_ranked e [] = e ∷ []
add_ranked e (x ∷ xs) =
    let rest = add_ranked e xs in if same_partition e x then merge e x ∷ xs else x ∷ rest

unfoldable pub ranked : List CurrentExposure → List CurrentExposure
unfolding add_ranked
ranked [] = []
ranked (e ∷ es) = add_ranked e (ranked es)

abbrev exposure_le : Env → CurrentExposure → CurrentExposure → Bool
exposure_le env a b =
    if a.address == b.address then int_le a.port b.port else env.collate a.address b.address

unfoldable pub deduplicated_exposures :
    Env → (String → String → Bool) → Filter → Db → List CurrentExposure
unfolding ranked filtered_exposures
deduplicated_exposures env ilike f db =
    order_by (exposure_le env) (ranked (filtered_exposures ilike f db))

unfoldable pub list_exposures :
    Env → (String → String → Bool) → Filter → ℤ → ℤ → Db → List CurrentExposure
unfolding deduplicated_exposures
list_exposures env ilike f limit offset db =
    take (clamp 500 limit) (drop (at_least 0 offset) (deduplicated_exposures env ilike f db))

-- The rows that `export_exposures` writes as CSV or JSON.
unfoldable pub export_rows : Env → (String → String → Bool) → Filter → Db → List CurrentExposure
unfolding deduplicated_exposures
export_rows env ilike f db = take 10000 (deduplicated_exposures env ilike f db)

pub record ExposureSummary : Type 0 where
  pub open_hosts : ℕ
  pub open_services : ℕ
  pub unique_ports : ℕ
  pub latest_observation_at : Option ℕ

abbrev has_port : List CurrentExposure → ℤ → Bool
has_port [] port = false
has_port (e ∷ es) port = e.port == port || has_port es port

-- `count(distinct(port))`
unfoldable pub count_ports : List CurrentExposure → ℕ
count_ports [] = 0
count_ports (e ∷ es) = (if has_port es e.port then 0 else 1) + count_ports es

abbrev latest_of : Option ℕ → ℕ → Option ℕ
latest_of none t = some t
latest_of (some s) t = some (max s t)

unfoldable pub latest : List CurrentExposure → Option ℕ
latest [] = none
latest (e ∷ es) = latest_of (latest es) e.last_seen_at

abbrev no_filter : Filter
no_filter = record { scope_id = none; host = none; port = none; service = none }

unfoldable pub exposure_summary : Env → Db → ExposureSummary
unfolding deduplicated_exposures distinct count_ports latest
exposure_summary env db =
    let exposures = deduplicated_exposures env (λ text part. true) no_filter db in
    record {
      open_hosts = length (distinct (map (λ (e : CurrentExposure). e.address) exposures));
      open_services = length exposures;
      unique_ports = count_ports exposures;
      latest_observation_at = latest exposures;
    }
