-- ===== src/Cidr/Sharding.antt =====
-- The shards of a network divide it.
use native.Mathlib.Nat.{pow-suc, pow-zero, mul-div_cancel}
use transport_lookout.Prelude.{
  ℕ, zero, suc, ◌+◌, ◌-◌, ◌*◌, ◌/◌, ◌^◌, ◌≤◌, ◌<◌, ◌≡◌, refl, ◌∙◌, inl, inr, Bool, ◌&&◌, List, [],
  ◌∷◌, arith, ltb, leb, if◌then◌else◌, length, count, Bool-cases,
}
use transport_lookout.Config.{Env}
use transport_lookout.Http.{ok}
use transport_lookout.Cidr.{shard_network}
use transport_lookout.Cidr.Ipv4.{Network, block_size, subnets_from, subnets, in_network}

abbrev span : ℕ → ℕ → ℕ → Bool
span start size a = leb start a && ltb a (start + size)

-- Consecutive blocks cover their span, each address once.
count-subnets_from :
    (a start step p rounds : ℕ)
    → block_size p ≡ step
    → count (in_network a) (subnets_from start step p rounds)
      ≡ (if span start (rounds * step) a then 1 else 0)
unfolding count subnets_from in_network
count-subnets_from a start step p zero h = grind arith
count-subnets_from a start step p (suc rounds) h =
    grind (arith, count-subnets_from a (start + step) step p rounds h)

pow_add : (m n : ℕ) → 2 ^ (m + n) ≡ 2 ^ m * 2 ^ n
pow_add zero n = grind (arith, pow-zero 2)
pow_add (suc m) n =
    let e : suc m + n ≡ suc (m + n) = omega arith in
    rw e (grind (arith, pow-suc 2 (m + n), pow-suc 2 m, pow_add m n))

pow_pos : (n : ℕ) → 0 < 2 ^ n
pow_pos zero = omega arith
pow_pos (suc n) = grind (arith, pow-suc 2 n, pow_pos n)

-- The block of a shorter prefix is a whole number of the blocks of a longer one.
block_size-mul :
    (p q : ℕ) → p ≤ q → q ≤ 32 → block_size p / block_size q * block_size q ≡ block_size p
unfolding block_size
block_size-mul p q h l =
    let e : 32 - p ≡ (q - p) + (32 - q) = omega arith in
    rw (e, pow_add (q - p) (32 - q), mul-div_cancel (2 ^ (q - p)) (pow_pos (32 - q)))

-- With a shard prefix of at most 32, each address of a divided network is in exactly one shard, and no other address is in any.
pub shard_network-partition :
    (env : Env) (network : Network) (shards : List Network) (a : ℕ)
    → env.shard_prefix ≤ 32
    → shard_network env network ≡ ok shards
    → count (in_network a) shards ≡ (if in_network a network then 1 else 0)
shard_network-partition env network shards a h e =
    elim (Bool-cases (leb env.shard_prefix network.prefixlen)) [
      | inl whole ↦
          let one : shards ≡ network ∷ [] = unfold shard_network in ground arith in
          rw one (unfold count in refl)
      | inr divided ↦
          let many : shards ≡ subnets network env.shard_prefix =
            unfold shard_network in ground arith in
          rw many (
            unfold subnets in_network in
            ground (
              arith,
              count-subnets_from a network.network_address (block_size env.shard_prefix)
                  env.shard_prefix (block_size network.prefixlen / block_size env.shard_prefix)
                  refl,
              block_size-mul network.prefixlen env.shard_prefix (ground arith) h,
            ))
    ]

length-subnets_from : (start step p rounds : ℕ) → length (subnets_from start step p rounds) ≡ rounds
unfolding subnets_from
length-subnets_from start step p zero = refl
length-subnets_from start step p (suc rounds) =
    omega (arith, length-subnets_from (start + step) step p rounds)

blocks : (p q : ℕ) → p ≤ q → q ≤ 32 → block_size p / block_size q ≡ 2 ^ (q - p)
unfolding block_size
blocks p q h l =
    let e : 32 - p ≡ (q - p) + (32 - q) = omega arith in
    rw (e, pow_add (q - p) (32 - q)) (mul-div_cancel (2 ^ (q - p)) (pow_pos (32 - q)))

-- With a shard prefix of at most 32, a network of a shorter prefix that is divided gives one shard for each value of the bits between the two prefixes, and
-- never more shards than the setting allows.
pub length-shard_network :
    (env : Env) (network : Network) (shards : List Network)
    → env.shard_prefix ≤ 32
    → network.prefixlen < env.shard_prefix
    → shard_network env network ≡ ok shards
    → (length shards ≡ 2 ^ (env.shard_prefix - network.prefixlen))
      × (length shards ≤ env.max_shards_per_run)
length-shard_network env network shards h l e =
    let n = length (subnets network env.shard_prefix) in
    let many : (shards ≡ subnets network env.shard_prefix) × (n ≤ env.max_shards_per_run) =
      unfold shard_network in (ground arith, ground arith) in
    rw many.0 (
      (unfold subnets in
          length-subnets_from network.network_address (block_size env.shard_prefix) env.shard_prefix
            (block_size network.prefixlen / block_size env.shard_prefix)
          ∙ blocks network.prefixlen env.shard_prefix (omega arith) h),
      many.1,
    )
