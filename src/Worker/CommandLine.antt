-- ===== src/Worker/CommandLine.antt =====
-- src/scanpod_enterprise/worker.py: `nmap_confirmation_command` and the other command lines of
-- `execute_shard`.
use transport_lookout.Prelude.{String, List, [], ◌∷◌, ◌++◌, map}
use transport_lookout.Model.{ScanProfile}
use transport_lookout.Text.{words, split_on, join, remove_prefix, decimal}

unfoldable pub nmap_confirmation_command : ScanProfile → String → String → List String
unfolding words decimal
nmap_confirmation_command profile output targets =
    "nmap" ∷ "-Pn" ∷ "-oX" ∷ output ∷ "-iL" ∷ targets ∷ "-p" ∷ profile.ports ∷ []
    ++ (words profile.arguments ++ "--max-rate" ∷ decimal profile.max_rate ∷ [])

-- `",".join(item.removeprefix("T:") for item in profile.ports.split(","))`
unfoldable pub discovery_ports : ScanProfile → String
unfolding split_on join remove_prefix
discovery_ports profile = join "," (map (remove_prefix "T:") (split_on b',' profile.ports))

unfoldable pub masscan_command : ScanProfile → String → String → List String
unfolding discovery_ports decimal
masscan_command profile cidr output =
    "masscan"
    ∷ cidr
    ∷ "-p"
    ∷ discovery_ports profile
    ∷ "--rate"
    ∷ decimal profile.max_rate
    ∷ "--wait"
    ∷ "5"
    ∷ "-oX"
    ∷ output
    ∷ []

unfoldable pub nmap_command : ScanProfile → String → String → List String
unfolding words decimal
nmap_command profile cidr output =
    "nmap" ∷ "-oX" ∷ output ∷ "-p" ∷ profile.ports ∷ []
    ++ (words profile.arguments ++ "--max-rate" ∷ decimal profile.max_rate ∷ cidr ∷ [])
