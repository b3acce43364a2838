-- ===== src/Tests/Exposures.antt =====
-- One endpoint that two profiles have seen, and another.
use transport_lookout.Prelude.{
  pos, refl, ◌≡◌, true, none, some, [], ◌∷◌, inl, inr, String, Bool, In,
}
use transport_lookout.Model.{Db, empty, CurrentExposure}
use transport_lookout.Api.Exposures.{Filter, deduplicated_exposures, filtered_exposures}
use transport_lookout.Api.Exposures.Dedup.{AllLone, scans, deduplicated_exposures-AllLone}
use transport_lookout.Api.Exposures.Coverage.{Covers, filtered-IsCovered}
use transport_lookout.Tests.Data.{env}

abbrev web : CurrentExposure
web = record {
  id = "1";
  inventory_scope_id = "scope";
  profile_id = "fast";
  latest_run_id = "run";
  zone = "default";
  address = "10.0.0.7";
  protocol = "tcp";
  port = pos 443;
  service = some "https";
  product = none;
  version = none;
  first_seen_at = 10;
  last_seen_at = 50;
  scan_count = 3;
}

abbrev web_again : CurrentExposure
web_again = record web {
  id = "2";
  profile_id = "slow";
  first_seen_at = 5;
  last_seen_at = 40;
  scan_count = 2;
}

abbrev ssh : CurrentExposure
ssh = record web { id = "3"; port = pos 22; service = some "ssh" }

abbrev seen : Db
seen = record empty { exposures = web ∷ web_again ∷ ssh ∷ [] }

abbrev in_scope : Filter
in_scope = record { scope_id = some "scope"; host = none; port = none; service = none }

abbrev like_any : String → String → Bool
like_any text part = true

deduplicated_exposures-AllLone_example :
    AllLone (deduplicated_exposures env like_any in_scope seen)
    × (scans (deduplicated_exposures env like_any in_scope seen)
        ≡ scans (filtered_exposures like_any in_scope seen))
deduplicated_exposures-AllLone_example = deduplicated_exposures-AllLone env like_any in_scope seen

filtered-IsCovered_example :
    (row : CurrentExposure) × In row (deduplicated_exposures env like_any in_scope seen)
    × Covers web_again row
filtered-IsCovered_example =
    filtered-IsCovered env like_any in_scope seen web_again (inr (inl refl)) refl
