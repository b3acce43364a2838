-- ===== src/Cidr/Ipv4.antt =====
-- What src/scanpod_enterprise/services.py uses of the standard library's `ipaddress`: IPv4 networks,
-- read in the strict mode from text, printed, and divided.
use Prim.Native.Char.{Char, code}
use transport_lookout.Prelude.{
  ℕ, zero, suc, ◌+◌, ◌-◌, ◌*◌, ◌/◌, ◌%◌, ◌^◌, String, Bool, ◌&&◌, ◌||◌, Option, none, some, List,
  [], ◌∷◌, ltb, leb, ◌==◌, nat_eq, if◌then◌else◌, length,
}

pub record Network : Type 0 where
  pub network_address : ℕ
  pub prefixlen : ℕ

abbrev pub codes : String → List ℕ
codes String.[] = []
codes (String.◌∷◌ c s) = code c ∷ codes s

abbrev push_front : ℕ → List (List ℕ) → List (List ℕ)
push_front x [] = (x ∷ []) ∷ []
push_front x (w ∷ ws) = (x ∷ w) ∷ ws

-- `text.split(c)`
unfoldable pub split : ℕ → List ℕ → List (List ℕ)
split c [] = [] ∷ []
split c (x ∷ xs) = let rest = split c xs in if x == c then [] ∷ rest else push_front x rest

abbrev pub is_digit : ℕ → Bool
is_digit c = leb b'0' c && leb c b'9'

unfoldable pub digits_value : ℕ → List ℕ → Option ℕ
digits_value acc [] = some acc
digits_value acc (c ∷ cs) =
    let rest = digits_value (acc * 10 + (c - b'0')) cs in if is_digit c then rest else none

-- `int(text)` of a text that is not empty and all ASCII digits
unfoldable pub to_int : List ℕ → Option ℕ
unfolding digits_value
to_int [] = none
to_int (c ∷ cs) = digits_value 0 (c ∷ cs)

abbrev pub at_most : ℕ → Option ℕ → Option ℕ
at_most bound none = none
at_most bound (some n) = if leb n bound then some n else none

-- `_parse_octet`: at most three digits, no leading zero, at most 255.
unfoldable pub parse_octet : List ℕ → Option ℕ
unfolding to_int
parse_octet [] = none
parse_octet (c ∷ []) = at_most 255 (to_int (c ∷ []))
parse_octet (c ∷ d ∷ cs) =
    if c == b'0' || ltb 3 (length (c ∷ d ∷ cs)) then none else at_most 255 (to_int (c ∷ d ∷ cs))

abbrev pub join_octets : Option ℕ → Option ℕ → Option ℕ → Option ℕ → Option ℕ
join_octets (some a) (some b) (some c) (some d) = some (a * 2 ^ 24 + b * 2 ^ 16 + c * 2 ^ 8 + d)
join_octets _ _ _ _ = none

abbrev pub parse_octets : List (List ℕ) → Option ℕ
parse_octets (a ∷ b ∷ c ∷ d ∷ []) =
    join_octets (parse_octet a) (parse_octet b) (parse_octet c) (parse_octet d)
parse_octets _ = none

-- `_ip_int_from_string`
unfoldable pub parse_address : List ℕ → Option ℕ
unfolding split parse_octet
parse_address text = parse_octets (split b'.' text)

-- `_prefix_from_ip_int`: the prefix whose netmask is the address.
abbrev pub mask_prefix : ℕ → ℕ → Option ℕ
mask_prefix zero ip = if ip == 0 then some 0 else none
mask_prefix (suc p) ip = if ip == 2 ^ 32 - 2 ^ (32 - suc p) then some (suc p) else mask_prefix p ip

abbrev pub or_else : Option ℕ → Option ℕ → Option ℕ
or_else (some n) other = some n
or_else none other = other

-- `_prefix_from_ip_string`: a netmask or, failing that, a hostmask.
abbrev pub mask_text : Option ℕ → Option ℕ
mask_text none = none
mask_text (some ip) = or_else (mask_prefix 32 ip) (mask_prefix 32 (2 ^ 32 - 1 - ip))

-- `_make_netmask`
unfoldable pub parse_prefix : List ℕ → Option ℕ
unfolding to_int parse_address
parse_prefix text = or_else (at_most 32 (to_int text)) (mask_text (parse_address text))

unfoldable pub block_size : ℕ → ℕ
block_size prefixlen = 2 ^ (32 - prefixlen)

-- The strict mode refuses an address with host bits.
abbrev pub make_network : Option ℕ → Option ℕ → Option Network
make_network (some address) (some prefixlen) =
    if address % block_size prefixlen == 0
    then some (record { network_address = address; prefixlen = prefixlen })
    else none
make_network _ _ = none

abbrev pub parse_parts : List (List ℕ) → Option Network
parse_parts (address ∷ []) = make_network (parse_address address) (some 32)
parse_parts (address ∷ mask ∷ []) = make_network (parse_address address) (parse_prefix mask)
parse_parts _ = none

-- `ip_network(text, strict=True)` where the text is of version 4.
unfoldable pub ip_network : String → Option Network
unfolding split parse_address parse_prefix block_size
ip_network text = parse_parts (split b'/' (codes text))

unfoldable pub digit : ℕ → Char
digit n =
    if n == 0
    then "0"
    else if n == 1
    then "1"
    else if n == 2
    then "2"
    else if n == 3
    then "3"
    else if n == 4
    then "4"
    else if n == 5
    then "5"
    else if n == 6
    then "6"
    else if n == 7
    then "7"
    else if n == 8
    then "8"
    else "9"

-- The decimal form of a number below 1000, in front of a text.
unfoldable pub put_number : ℕ → String → String
unfolding digit
put_number n rest =
    if ltb n 10
    then String.◌∷◌ (digit n) rest
    else if ltb n 100
    then String.◌∷◌ (digit (n / 10)) (String.◌∷◌ (digit (n % 10)) rest)
    else String.◌∷◌ (digit (n / 100))
        (String.◌∷◌ (digit (n / 10 % 10)) (String.◌∷◌ (digit (n % 10)) rest))

unfoldable pub put_text : String → String → String
put_text String.[] rest = rest
put_text (String.◌∷◌ c s) rest = String.◌∷◌ c (put_text s rest)

abbrev put_char : Char → String → String
put_char = String.◌∷◌

-- `str(network)`
unfoldable pub str_network : Network → String
unfolding put_number
str_network n = put_number (n.network_address / 2 ^ 24) (
    put_char "." (
      put_number (n.network_address / 2 ^ 16 % 256) (
        put_char "." (
          put_number (n.network_address / 2 ^ 8 % 256) (
            put_char "." (
              put_number (n.network_address % 256)
                (put_char "/" (put_number n.prefixlen String.[]))))))))

-- The loop of `subnets`, `rounds` long.
unfoldable pub subnets_from : ℕ → ℕ → ℕ → ℕ → List Network
subnets_from start step new_prefix zero = []
subnets_from start step new_prefix (suc rounds) =
    record { network_address = start; prefixlen = new_prefix }
    ∷ subnets_from (start + step) step new_prefix rounds

-- `network.subnets(new_prefix=…)`: range(network_address, broadcast_address + 1, step)
unfoldable pub subnets : Network → ℕ → List Network
unfolding subnets_from block_size
subnets network new_prefix =
    subnets_from network.network_address (block_size new_prefix) new_prefix
      (block_size network.prefixlen / block_size new_prefix)

-- `address in network`
unfoldable pub in_network : ℕ → Network → Bool
unfolding block_size
in_network a n = leb n.network_address a && ltb a (n.network_address + block_size n.prefixlen)
