-- ===== src/Text.antt =====
-- What the program uses of Python's `str`, on native texts.
use Prim.Native.Char.{Char, code}
use Prim.Native.String.{◌++◌ as ◌+++◌}
use text.Mathlib.Text.{starts_with}
use transport_lookout.Prelude.{
  ℤ, pos, negated, ℕ, zero, suc, ◌/◌, ◌%◌, ◌+◌, ◌-◌, ◌*◌, String, Bool, true, false, ◌&&◌, ◌||◌,
  Option, none, some, List, [], ◌∷◌, ◌==◌, nat_eq, string_eq, leb, ltb, if◌then◌else◌,
}
use transport_lookout.Cidr.Ipv4.{digit}

-- `str.isspace` of one character
abbrev pub is_space : ℕ → Bool
is_space c =
    leb 9 c && leb c 13
    || leb 28 c && leb c 32
    || c == 133
    || c == 160
    || c == 5760
    || leb 8192 c && leb c 8202
    || c == 8232
    || c == 8233
    || c == 8239
    || c == 8287
    || c == 12288

abbrev pub is_empty : String → Bool
is_empty String.[] = true
is_empty (String.◌∷◌ c s) = false

-- `text.isascii()`
unfoldable pub is_ascii : String → Bool
is_ascii String.[] = true
is_ascii (String.◌∷◌ c s) = ltb (code c) 128 && is_ascii s

unfoldable pub lstrip : String → String
lstrip String.[] = String.[]
lstrip (String.◌∷◌ c s) = let rest = lstrip s in if is_space (code c) then rest else String.◌∷◌ c s

unfoldable pub rstrip : String → String
rstrip String.[] = String.[]
rstrip (String.◌∷◌ c s) =
    let rest = rstrip s in
    if is_space (code c) && is_empty rest then String.[] else String.◌∷◌ c rest

-- `text.strip()`
unfoldable pub strip : String → String
unfolding lstrip rstrip
strip text = rstrip (lstrip text)

-- `text or default`
abbrev pub or_text : String → String → String
or_text text default = if is_empty text then default else text

-- `value or default` of a text that may be None
abbrev pub or_none : Option String → String → String
or_none none default = default
or_none (some text) default = or_text text default

abbrev cons_word : Char → List String → List String
cons_word c [] = String.◌∷◌ c String.[] ∷ []
cons_word c (w ∷ ws) = String.◌∷◌ c w ∷ ws

-- `text.split(c)`
unfoldable pub split_on : ℕ → String → List String
split_on c String.[] = String.[] ∷ []
split_on c (String.◌∷◌ d s) =
    let rest = split_on c s in if code d == c then String.[] ∷ rest else cons_word d rest

abbrev pub drop_empty : List String → List String
drop_empty [] = []
drop_empty (w ∷ ws) = let rest = drop_empty ws in if is_empty w then rest else w ∷ rest

unfoldable pub split_spaces : String → List String
split_spaces String.[] = String.[] ∷ []
split_spaces (String.◌∷◌ d s) =
    let rest = split_spaces s in if is_space (code d) then String.[] ∷ rest else cons_word d rest

-- `text.split()`
unfoldable pub words : String → List String
unfolding split_spaces
words text = drop_empty (split_spaces text)

-- `separator.join(texts)`
unfoldable pub join : String → List String → String
join separator [] = ""
join separator (t ∷ []) = t
join separator (t ∷ u ∷ ts) = t +++ (separator +++ join separator (u ∷ ts))

abbrev is_digit : ℕ → Bool
is_digit c = leb b'0' c && leb c b'9'

-- The digits after one, which single underscores may group.
unfoldable pub read_digits : ℕ → String → Option ℕ
read_digits acc String.[] = some acc
read_digits acc (String.◌∷◌ c String.[]) =
    if is_digit (code c) then some (acc * 10 + (code c - b'0')) else none
read_digits acc (String.◌∷◌ c (String.◌∷◌ d s)) =
    let digit = read_digits (acc * 10 + (code c - b'0')) (String.◌∷◌ d s) in
    let grouped = read_digits (acc * 10 + (code d - b'0')) s in
    if is_digit (code c)
    then digit
    else if code c == b'_' && is_digit (code d)
    then grouped
    else none

abbrev read_first : String → Option ℕ
read_first String.[] = none
read_first (String.◌∷◌ c s) = if is_digit (code c) then read_digits (code c - b'0') s else none

abbrev signed : (ℕ → ℤ) → Option ℕ → Option ℤ
signed sign none = none
signed sign (some n) = some (sign n)

abbrev read_signed : String → Option ℤ
read_signed String.[] = none
read_signed (String.◌∷◌ c s) =
    if code c == b'-'
    then signed negated (read_first s)
    else if code c == b'+'
    then signed pos (read_first s)
    else signed pos (read_first (String.◌∷◌ c s))

-- `int(text)` of a number of ASCII digits, in the forms that Python takes. A text with other digits
-- counts as none.
unfoldable pub int : String → Option ℤ
unfolding strip read_digits
int text = read_signed (strip text)

-- `str(n)`, with a digit of fuel more than there are digits.
unfoldable pub decimal_from : ℕ → ℕ → String → String
unfolding digit
decimal_from zero n rest = rest
decimal_from (suc fuel) n rest =
    let more = decimal_from fuel (n / 10) (String.◌∷◌ (digit (n % 10)) rest) in
    if n / 10 == 0 then String.◌∷◌ (digit (n % 10)) rest else more

unfoldable pub decimal : ℕ → String
unfolding decimal_from
decimal n = decimal_from (n + 1) n ""

-- `part in text`
unfoldable pub has_part : String → String → Bool
has_part part String.[] = is_empty part
has_part part (String.◌∷◌ c s) = starts_with (String.◌∷◌ c s) part || has_part part s

abbrev pub drop_text : String → String → String
drop_text String.[] s = s
drop_text (String.◌∷◌ c p) String.[] = String.[]
drop_text (String.◌∷◌ c p) (String.◌∷◌ d s) = drop_text p s

-- `text.removeprefix(prefix)`
unfoldable pub remove_prefix : String → String → String
remove_prefix prefix text = if starts_with text prefix then drop_text prefix text else text
