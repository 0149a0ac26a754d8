-- ===== src/Strings/Decimal.antt =====
-- The decimal print of a number is read back.
use native.Mathlib.Nat.{pow-suc}
use peerd_oci.Prelude.{
  ℕ, Bytes, ◌≤◌, ◌++◌, ◌<◌, ◌≡◌, ◌^◌, ◌∷◌, arith, ◌*◌, suc, ◌+◌, ◌-◌, [], zero, refl, ◌/◌, All,
  none, ◌%◌, Bool-cases, ltb, inl, inr, All-append, false, lt→ltb,
}
use peerd_oci.Strings.{digits, format_int, Scan, value, bad, big, scan, signed, parse_int}
use peerd_oci.Int64.{pos}

abbrev pub IsDigit : ℕ → Type 0
IsDigit c = (b'0' ≤ c) × (c ≤ b'9')

abbrev then_scan : Scan → Bytes → Scan
then_scan (value n) s = scan s n
then_scan bad s = bad
then_scan big s = big

scan-append : (s t : Bytes) (n : ℕ) → scan (s ++ t) n ≡ then_scan (scan s n) t
unfolding scan
scan-append [] t n = refl
scan-append (c ∷ s) t n = ground (arith, scan-append s t (n * 10 + (c - b'0')))

below_tenth : (fuel n : ℕ) → n < 10 ^ suc fuel → n / 10 < 10 ^ fuel
below_tenth fuel n h = let e = pow-suc 10 fuel in omega arith

scan-digits : (fuel n : ℕ) → n < 10 ^ fuel → n < 2 ^ 64 → scan (digits fuel n) 0 ≡ value n
unfolding digits scan
scan-digits zero n h k = ground arith
scan-digits (suc fuel) n h k =
    let small : n / 10 < 10 ^ fuel = below_tenth fuel n h in
    ground (
      arith,
      scan-append (digits fuel (n / 10)) ((b'0' + n % 10) ∷ []) 0,
      scan-digits fuel (n / 10) small (omega arith),
    )

digits-IsDigit : (fuel n : ℕ) → All IsDigit (digits fuel n)
unfolding digits
digits-IsDigit zero n = tt
digits-IsDigit (suc fuel) n = elim (Bool-cases (ltb n 10)) [
  | inl small ↦ ground arith
  | inr more ↦
      rw more
        (All-append IsDigit (digits fuel (n / 10)) _ (digits-IsDigit fuel (n / 10)) (omega arith))
]

-- A print has a first byte, and it is a digit.
digits_cons : (fuel n : ℕ) → (c : ℕ) × (s : Bytes) × (digits (suc fuel) n ≡ c ∷ s) × IsDigit c
unfolding digits
digits_cons zero n = elim (Bool-cases (ltb n 10)) [
  | inl small ↦ (b'0' + n, [], rw small, ground arith)
  | inr more ↦ (b'0' + n % 10, [], rw more, omega arith)
]
digits_cons (suc fuel) n = elim (Bool-cases (ltb n 10)) [
  | inl small ↦ (b'0' + n, [], rw small, ground arith)
  | inr more ↦
      let (c, s, e, d) = digits_cons fuel (n / 10) in
      (c, s ++ (b'0' + n % 10) ∷ [], rw (more, e), d)
]

parse_int-scan : (c : ℕ) (s : Bytes) → IsDigit c → parse_int (c ∷ s) ≡ signed false (scan (c ∷ s) 0)
unfolding parse_int
parse_int-scan c s d = ground arith

-- Every int64 that is not negative is read back from its print, with no error.
pub parse_int-format_int : (n : ℕ) → n < 2 ^ 63 → parse_int (format_int (pos n)) ≡ (pos n, none)
unfolding format_int signed
parse_int-format_int n h =
    let (c, s, e, d) = digits_cons 19 n in
    let back = scan-digits 20 n (omega arith) (omega arith) in
    rw (e, parse_int-scan c s d, ← e, back, lt→ltb _ _ h)

-- A print is not empty.
pub format_int_cons : (n : ℕ) → (c : ℕ) × (s : Bytes) × (format_int (pos n) ≡ c ∷ s)
unfolding format_int
format_int_cons n = let (c, s, e, _) = digits_cons 19 n in (c, s, e)

-- Different int64 that are not negative have different prints.
pub format_int_inj :
    (m n : ℕ) → m < 2 ^ 63 → n < 2 ^ 63 → format_int (pos m) ≡ format_int (pos n) → m ≡ n
format_int_inj m n small small' e =
    let same : pos m ≡ pos n = cc (parse_int-format_int m small, parse_int-format_int n small') in
    cc

pub format_int-IsDigit : (n : ℕ) → All IsDigit (format_int (pos n))
unfolding format_int
format_int-IsDigit n = digits-IsDigit 20 n
