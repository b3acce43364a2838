-- ===== src/Cidr.antt =====
-- src/scanpod_enterprise/services.py: `parse_approved_cidr` and `shard_cidr`.
pub mod Ipv4
pub mod Sharding
use transport_lookout.Prelude.{
  ℕ, ◌≤◌, String, Bool, true, false, ◌||◌, not, Option, none, some, List, [], ◌∷◌, map, ltb, leb,
  if◌then◌else◌, length,
}
use transport_lookout.Config.{Env}
use transport_lookout.Http.{Result, ok, http, ◌>>=◌}
use transport_lookout.Cidr.Ipv4.{Network, ip_network, str_network, subnets, put_number, put_text}

-- `is_ipv6` says which texts `ipaddress` takes for a network of version 6. They are refused too, and
-- only the wording differs.
abbrev pub too_large : Env → String
unfolding put_text put_number
too_large env =
    put_text "only IPv4 networks /" (put_number env.max_cidr_prefix " or smaller are allowed")

unfoldable pub checked_network : Env → (String → Bool) → String → Option Network → Result Network
checked_network env is_ipv6 cidr none =
    if is_ipv6 cidr then http 422 (too_large env) else http 422 "cidr must be a canonical network"
checked_network env is_ipv6 cidr (some network) =
    if ltb network.prefixlen env.max_cidr_prefix then http 422 (too_large env) else ok network

unfoldable pub parse_approved_cidr : Env → (String → Bool) → String → Result Network
unfolding checked_network ip_network
parse_approved_cidr env is_ipv6 cidr = checked_network env is_ipv6 cidr (ip_network cidr)

-- `ipaddress` raises a ValueError for a prefix above 32, which nothing catches.
unfoldable pub shard_network : Env → Network → Result (List Network)
unfolding subnets
shard_network env network =
    if leb env.shard_prefix network.prefixlen
    then ok (network ∷ [])
    else if ltb 32 env.shard_prefix
    then http 500 "Internal Server Error"
    else if ltb env.max_shards_per_run (length (subnets network env.shard_prefix))
    then http 422 "run would create too many shards"
    else ok (subnets network env.shard_prefix)

unfoldable pub shard_cidr : Env → (String → Bool) → String → Result (List String)
unfolding parse_approved_cidr shard_network
shard_cidr env is_ipv6 cidr = do
  network ← parse_approved_cidr env is_ipv6 cidr
  shards ← shard_network env network
  ok (map str_network shards)
