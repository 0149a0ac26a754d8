-- ===== src/Strings.antt =====
-- What the program uses of Go's `strings` and `strconv`: Split at a byte, TrimPrefix,
-- LastIndexByte, FormatInt (also as fmt.Sprint of an integer) and ParseInt in base 10.
pub mod Split
pub mod Decimal
use peerd_oci.Prelude.{
  ℕ, Bytes, Option, Bool, List, ◌∷◌, none, [], Error, some, if◌then◌else◌, suc, ◌-◌, invalid_syntax,
  ◌==◌, ◌/◌, ltb, ◌^◌, ◌+◌, ◌||◌, value_out_of_range, false, ◌++◌, leb, true, ◌%◌, ◌*◌, zero,
}
use peerd_oci.Int64.{ℤ, pos, negsuc}

-- `Split(s, sep)` for a separator of one byte: there is always a part.
push_byte : ℕ → List Bytes → List Bytes
push_byte c [] = (c ∷ []) ∷ []
push_byte c (p ∷ ps) = (c ∷ p) ∷ ps

unfoldable pub split : ℕ → Bytes → List Bytes
unfolding push_byte
split sep [] = [] ∷ []
split sep (c ∷ s) = let rest = split sep s in if c == sep then [] ∷ rest else push_byte c rest

unfoldable pub trim_prefix_byte : ℕ → Bytes → Bytes
trim_prefix_byte b [] = []
trim_prefix_byte b (c ∷ s) = if c == b then s else c ∷ s

-- What stands behind the last `b`, if there is one: `s[LastIndexByte(s, b)+1:]`.
unfoldable pub after_last : ℕ → Bytes → Option Bytes
after_last b [] = none
after_last b (c ∷ s) = elim (after_last b s) [
  | some rest ↦ some rest
  | none ↦ if c == b then some s else none
]

-- The decimal digits of a number; a number below 10 ^ fuel has at most `fuel` of them.
unfoldable pub digits : ℕ → ℕ → Bytes
digits zero n = []
digits (suc fuel) n =
    let front = digits fuel (n / 10) in
    if ltb n 10 then (b'0' + n) ∷ [] else front ++ (b'0' + n % 10) ∷ []

-- `FormatInt(n, 10)`: an int64 has at most 19 digits.
unfoldable pub format_int : ℤ → Bytes
format_int (pos n) = digits 20 n
format_int (negsuc n) = b'-' ∷ digits 20 (suc n)

pub data Scan : Type 0 where
  value : ℕ → Scan
  bad big : Scan

-- The digits of `ParseUint` behind those read so far.
unfoldable pub scan : Bytes → ℕ → Scan
scan [] n = value n
scan (c ∷ s) n =
    let d = c - b'0' in
    if ltb c b'0' || ltb b'9' c
    then bad
    else if leb (2 ^ 64) (n * 10 + d)
    then big
    else scan s (n * 10 + d)

-- The result of `ParseInt` beside its error: zero on bad syntax, the nearest int64 out of range.
abbrev pub Parsed : Type 0
Parsed = ℤ × Option Error

unfoldable pub signed : Bool → Scan → Parsed
signed minus bad = (pos 0, some invalid_syntax)
signed false big = (pos (2 ^ 63 - 1), some value_out_of_range)
signed true big = (negsuc (2 ^ 63 - 1), some value_out_of_range)
signed false (value n) =
    if ltb n (2 ^ 63) then (pos n, none) else (pos (2 ^ 63 - 1), some value_out_of_range)
signed true (value zero) = (pos 0, none)
signed true (value (suc n)) =
    if ltb n (2 ^ 63) then (negsuc n, none) else (negsuc (2 ^ 63 - 1), some value_out_of_range)

-- The digits behind the sign: there must be one.
unfoldable pub unsigned : Bytes → Scan
unfolding scan
unsigned [] = bad
unsigned (c ∷ s) = scan (c ∷ s) 0

-- `ParseInt(s, 10, 64)`, and `Atoi(s)`.
unfoldable pub parse_int : Bytes → Parsed
unfolding signed unsigned
parse_int [] = (pos 0, some invalid_syntax)
parse_int (c ∷ s) =
    if c == b'+'
    then signed false (unsigned s)
    else if c == b'-'
    then signed true (unsigned s)
    else signed false (unsigned (c ∷ s))
