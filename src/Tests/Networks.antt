-- ===== src/Tests/Networks.antt =====
-- Networks and their shards.
use transport_lookout.Prelude.{
  ◌-◌, ◌^◌, ◌≤◌, String, ◌≡◌, refl, Bool, false, List, [], ◌∷◌, if◌then◌else◌, count, arith,
}
use transport_lookout.Http.{ok, http}
use transport_lookout.Cidr.{shard_cidr, shard_network, parse_approved_cidr}
use transport_lookout.Cidr.Ipv4.{Network, in_network, str_network, put_text, put_number}
use transport_lookout.Cidr.Sharding.{shard_network-partition, length-shard_network}
use transport_lookout.Tests.Data.{env}

abbrev no_ipv6 : String → Bool
no_ipv6 text = false

shards_of_23 : shard_cidr env no_ipv6 "10.0.0.0/23" ≡ ok ("10.0.0.0/24" ∷ "10.0.1.0/24" ∷ [])
unfolding shard_cidr str_network
shards_of_23 = refl

refused :
    (parse_approved_cidr env no_ipv6 "10.0.0.1/24" ≡ http 422 "cidr must be a canonical network")
    × (parse_approved_cidr env no_ipv6 "10.0.0.0/255.0.0.0"
        ≡ http 422 "only IPv4 networks /16 or smaller are allowed")
    × (parse_approved_cidr env no_ipv6 "010.0.0.0/24" ≡ http 422 "cidr must be a canonical network")
unfolding parse_approved_cidr put_text put_number
refused = (refl, refl, refl)

abbrev net : Network
net = record { network_address = 167772160; prefixlen = 23 }

abbrev halves : List Network
halves =
    record { network_address = 167772160; prefixlen = 24 }
    ∷ record { network_address = 167772416; prefixlen = 24 }
    ∷ []

halved : shard_network env net ≡ ok halves
unfolding shard_network
halved = refl

shard_network-partition_example :
    count (in_network 167772420) halves ≡ (if in_network 167772420 net then 1 else 0)
shard_network-partition_example =
    shard_network-partition env net halves 167772420 (omega arith) halved

length-shard_network_example : (2 ≡ 2 ^ (24 - 23)) × (2 ≤ 4096)
length-shard_network_example =
    length-shard_network env net halves (omega arith) (omega arith) halved
