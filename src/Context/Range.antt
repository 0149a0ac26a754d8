-- ===== src/Context/Range.antt =====
-- `RangeStartIndex` of context.go: which range headers it accepts, and the index it returns.
use peerd_oci.Int64.{pos}
use peerd_oci.Prelude.{
  Bytes, List, ℕ, codes, ◌<◌, ◌++◌, ◌≡◌, ◌⊎◌, ◌^◌, ◌∷◌, ok, none, All, [], arith, Bool-cases, ◌∙◌,
  refl, bytes_eq, ap, inl, bytes_eq_sound, ◌==◌, All-append, false, bytes_eq_refl, inr, ltb, ltb→lt,
  subst,
}
use peerd_oci.Context.{range_start_index, range_of, start_of, ℤ}
use peerd_oci.Strings.{bad, big, value, split, parse_int, signed, unsigned, format_int, Scan, value}
use peerd_oci.Strings.Split.{Lacks, split-Lacks, split-append, split_two}
use peerd_oci.Strings.Decimal.{parse_int-format_int, format_int-IsDigit, IsDigit}

-- The header value "bytes=start-end".
abbrev pub byte_range : Bytes → Bytes → Bytes
byte_range start end = codes "bytes" ++ b'=' ∷ (start ++ b'-' ∷ end)

start_of-ok :
    (ranges : List Bytes) (z : ℤ)
    → start_of ranges ≡ ok z
    → (d : Bytes) × (e : Bytes) × (ranges ≡ d ∷ e ∷ []) × (parse_int d ≡ (z, none))
unfolding start_of
start_of-ok (d ∷ e ∷ []) z h = (d, e, refl, ground arith)
start_of-ok [] z h = cc
start_of-ok (d ∷ []) z h = cc
start_of-ok (d ∷ e ∷ x ∷ xs) z h = cc

range_of-ok :
    (parts : List Bytes) (z : ℤ)
    → range_of parts ≡ ok z
    → (r : Bytes) × (parts ≡ codes "bytes" ∷ r ∷ []) × (start_of (split b'-' r) ≡ ok z)
unfolding range_of
range_of-ok (u ∷ r ∷ []) z h = elim (Bool-cases (bytes_eq u (codes "bytes"))) [
  | inl same ↦ (r, ap (λ x. x ∷ r ∷ []) (bytes_eq_sound _ _ same), ground arith)
  | inr other ↦ absurd (ground arith)
]
range_of-ok [] z h = cc
range_of-ok (u ∷ []) z h = cc
range_of-ok (u ∷ r ∷ x ∷ xs) z h = cc

signed-nonneg :
    (u : Scan) (z : ℤ) → signed false u ≡ (z, none) → (n : ℕ) × (z ≡ pos n) × (n < 2 ^ 63)
unfolding signed
signed-nonneg bad z e = absurd (ground arith)
signed-nonneg big z e = absurd (ground arith)
signed-nonneg (value n) z e = elim (Bool-cases (ltb n (2 ^ 63))) [
  | inl small ↦ (n, ground arith, ltb→lt _ _ small)
  | inr large ↦ absurd (ground arith)
]

-- Without a minus sign a number that is read is not negative.
parse_int-nonneg :
    (d : Bytes) (z : ℤ)
    → Lacks b'-' d
    → parse_int d ≡ (z, none)
    → (n : ℕ) × (z ≡ pos n) × (n < 2 ^ 63)
unfolding parse_int
parse_int-nonneg [] z h e = absurd (ground arith)
parse_int-nonneg (c ∷ s) z h e = elim (Bool-cases (c == b'+')) [
  | inl plus ↦ signed-nonneg (unsigned s) z (ground arith)
  | inr other ↦ signed-nonneg (unsigned (c ∷ s)) z (ground arith)
]

-- `RangeStartIndex` accepts only values of the form "bytes=start-end", without a further equals sign or
-- dash, and returns the number that `start` spells, which is an int64 that is not negative.
pub range_start_index_sound :
    (s : Bytes) (z : ℤ)
    → range_start_index s ≡ ok z
    → (n : ℕ) × (start : Bytes) × (end : Bytes) × (s ≡ byte_range start end)
      × Lacks b'=' (start ++ b'-' ∷ end)
      × Lacks b'-' start
      × Lacks b'-' end
      × (parse_int start ≡ (pos n, none))
      × (z ≡ pos n)
      × (n < 2 ^ 63)
unfolding range_start_index
range_start_index_sound [] z h = absurd (ground arith)
range_start_index_sound (c ∷ s) z h =
    let (r, parts, inner) = range_of-ok (split b'=' (c ∷ s)) z h in
    let (d, e, ranges, read) = start_of-ok (split b'-' r) z inner in
    let (whole, _, one_eq) = split_two b'=' (c ∷ s) (codes "bytes") r parts in
    let (both, plain, one_dash) = split_two b'-' r d e ranges in
    let (n, same, small) = parse_int-nonneg d z plain read in
    (
      n,
      d,
      e,
      whole ∙ ap (λ x. codes "bytes" ++ b'=' ∷ x) both,
      subst (Lacks b'=') both one_eq,
      plain,
      one_dash,
      rw (← same) read,
      same,
      small,
    )

pub digit-Lacks : (b : ℕ) (s : Bytes) → b < b'0' ⊎ b'9' < b → All IsDigit s → Lacks b s
digit-Lacks b [] out h = tt
digit-Lacks b (c ∷ s) out h = (omega arith, digit-Lacks b s out h.1)

-- `RangeStartIndex` reads back every start index that is printed in decimal into a range header,
-- whatever stands behind the dash, also nothing, if that holds no equals sign and no dash.
pub range_start_index-format_int :
    (n : ℕ) (end : Bytes)
    → n < 2 ^ 63
    → Lacks b'=' end
    → Lacks b'-' end
    → range_start_index (byte_range (format_int (pos n)) end) ≡ ok (pos n)
unfolding range_start_index range_of start_of
range_start_index-format_int n end small eq dash =
    let start = format_int (pos n) in
    let ds = format_int-IsDigit n in
    let no_eq =
      All-append _ start (b'-' ∷ end) (digit-Lacks b'=' start (omega arith) ds) (omega arith, eq) in
    let halves : split b'=' (byte_range start end) ≡ codes "bytes" ∷ (start ++ b'-' ∷ end) ∷ [] =
      split-append b'=' (codes "bytes") (start ++ b'-' ∷ end) (omega arith)
      ∙ ap (λ x. codes "bytes" ∷ x) (split-Lacks b'=' (start ++ b'-' ∷ end) no_eq) in
    let ends : split b'-' (start ++ b'-' ∷ end) ≡ start ∷ end ∷ [] =
      split-append b'-' start end (digit-Lacks b'-' start (omega arith) ds)
      ∙ ap (λ x. start ∷ x) (split-Lacks b'-' end dash) in
    ap range_of halves ∙ rw (bytes_eq_refl, ends, parse_int-format_int n small)
