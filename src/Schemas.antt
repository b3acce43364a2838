-- ===== src/Schemas.antt =====
-- src/scanpod_enterprise/schemas.py: the bodies of requests and the constraints on their fields. What
-- `\d` matches in a pattern is an argument: the patterns are those of a library.
use Prim.Native.Char.{code}
use Prim.Native.String.{count}
use transport_lookout.Prelude.{
  ℕ, String, Bool, true, false, ◌&&◌, ◌||◌, not, Option, List, [], ◌∷◌, ◌++◌, ◌==◌, string_eq,
  if◌then◌else◌, ltb,
}
use transport_lookout.Model.{Role}
use transport_lookout.Text.{split_on, is_empty, has_part, remove_prefix}

pub record ScopeCreate : Type 0 where
  pub name : String
  pub cidr : String
  pub zone : String

pub record ProfileCreate : Type 0 where
  pub name : String
  pub ports : String
  pub max_rate : ℕ
  pub scanner_mode : String
  pub max_concurrent_shards : ℕ
  pub timeout_seconds : ℕ
  pub zone : String

pub record RunCreate : Type 0 where
  pub inventory_scope_id : String
  pub profile_id : String

pub record ScheduleCreate : Type 0 where
  pub name : String
  pub inventory_scope_id : String
  pub profile_id : String
  pub interval_minutes : ℕ
  pub timezone : String
  pub first_run_at : Option ℕ

pub record UserProvision : Type 0 where
  pub subject : String
  pub role : Role

pub data Fault : Type 0 where
  too_short too_long too_small too_large no_match not_a_choice udp_ports : Fault

pub record FieldError : Type 0 where
  pub field : String
  pub fault : Fault

abbrev error_if : Bool → String → Fault → List FieldError
error_if b field fault = if b then record { field = field; fault = fault } ∷ [] else []

-- `Field(min_length=…, max_length=…)`
abbrev pub length_errors : String → ℕ → ℕ → String → List FieldError
length_errors field lo hi text =
    error_if (ltb (count text) lo) field Fault.too_short
    ++ error_if (ltb hi (count text)) field Fault.too_long

-- `Field(ge=…, le=…)`
abbrev pub range_errors : String → ℕ → ℕ → ℕ → List FieldError
range_errors field lo hi n =
    error_if (ltb n lo) field Fault.too_small ++ error_if (ltb hi n) field Fault.too_large

unfoldable pub scope_errors : ScopeCreate → List FieldError
scope_errors s = length_errors "name" 3 120 s.name ++ length_errors "zone" 1 64 s.zone

unfoldable pub all_digits : (ℕ → Bool) → String → Bool
all_digits is_digit String.[] = true
all_digits is_digit (String.◌∷◌ c s) = is_digit (code c) && all_digits is_digit s

-- `\d+`
abbrev pub is_number : (ℕ → Bool) → String → Bool
is_number is_digit text = not (is_empty text) && all_digits is_digit text

-- `\d+(-\d+)?`
abbrev pub is_range : (ℕ → Bool) → List String → Bool
is_range is_digit (lo ∷ []) = is_number is_digit lo
is_range is_digit (lo ∷ hi ∷ []) = is_number is_digit lo && is_number is_digit hi
is_range is_digit _ = false

-- `([TU]:)?\d+(-\d+)?`
unfoldable pub is_port_part : (ℕ → Bool) → String → Bool
unfolding all_digits split_on remove_prefix
is_port_part is_digit part =
    is_range is_digit (split_on b'-' part)
    || is_range is_digit (split_on b'-' (remove_prefix "T:" part))
    || is_range is_digit (split_on b'-' (remove_prefix "U:" part))

abbrev pub all_port_parts : (ℕ → Bool) → List String → Bool
all_port_parts is_digit [] = true
all_port_parts is_digit (p ∷ ps) = is_port_part is_digit p && all_port_parts is_digit ps

-- The pattern of `ports`. `ports_are_nonempty` turns the text into capitals, which a text of the
-- pattern has already.
unfoldable pub is_ports : (ℕ → Bool) → String → Bool
unfolding is_port_part split_on
is_ports is_digit ports = all_port_parts is_digit (split_on b',' ports)

abbrev pub is_scanner_mode : String → Bool
is_scanner_mode mode = mode == "nmap" || mode == "masscan_then_nmap"

unfoldable pub profile_field_errors : (ℕ → Bool) → ProfileCreate → List FieldError
unfolding is_ports
profile_field_errors is_digit p =
    length_errors "name" 3 120 p.name
    ++ (error_if (not (is_ports is_digit p.ports)) "ports" Fault.no_match
        ++ (range_errors "max_rate" 1 10000 p.max_rate
            ++ (error_if (not (is_scanner_mode p.scanner_mode)) "scanner_mode" Fault.not_a_choice
                ++ (range_errors "max_concurrent_shards" 1 128 p.max_concurrent_shards
                    ++ (range_errors "timeout_seconds" 30 14400 p.timeout_seconds
                        ++ length_errors "zone" 1 64 p.zone)))))

-- `masscan_profiles_are_tcp_only`, which runs when all fields are right.
abbrev pub model_errors : ProfileCreate → List FieldError → List FieldError
model_errors p [] =
    error_if (p.scanner_mode == "masscan_then_nmap" && has_part "U:" p.ports) "" Fault.udp_ports
model_errors p (e ∷ es) = e ∷ es

unfoldable pub profile_errors : (ℕ → Bool) → ProfileCreate → List FieldError
unfolding profile_field_errors has_part
profile_errors is_digit p = model_errors p (profile_field_errors is_digit p)

unfoldable pub schedule_errors : ScheduleCreate → List FieldError
schedule_errors s =
    length_errors "name" 3 120 s.name ++ range_errors "interval_minutes" 15 10080 s.interval_minutes

unfoldable pub user_errors : UserProvision → List FieldError
user_errors u = length_errors "subject" 1 255 u.subject
