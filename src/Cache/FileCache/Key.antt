-- ===== src/Cache/FileCache/Key.antt =====
-- The keys of the blocks of a file are different.
use peerd_oci.Strings.Decimal.{format_int_cons, format_int_inj}
use peerd_oci.Prelude.{
  ◌∷◌, ◌++◌, ◌≡◌, Bytes, [], bytes_eq, if◌then◌else◌, ℕ, sym, drop-append_self, ◌<◌, refl, ◌∙◌, ◌^◌,
  ap, ◌≢◌, drop, false, length, Bool-cases, inl, bytes_eq_sound, inr,
}
use peerd_oci.Strings.{format_int}
use peerd_oci.Cache.FileCache.{join, get_key, pos}

-- One step of `join`.
abbrev under : Bytes → Bytes → Bytes
under p rest = if bytes_eq p [] then rest else if bytes_eq rest [] then p else p ++ b'/' ∷ rest

under_cons : (p : Bytes) (c : ℕ) (s : Bytes) → (c' : ℕ) × (s' : Bytes) × (under p (c ∷ s) ≡ c' ∷ s')
unfolding bytes_eq
under_cons [] c s = (c, s, refl)
under_cons (a ∷ p) c s = (a, p ++ b'/' ∷ c ∷ s, refl)

pub append_cancel : (p x y : Bytes) → p ++ x ≡ p ++ y → x ≡ y
append_cancel p x y e = sym (drop-append_self p x) ∙ ap (drop (length p)) e ∙ drop-append_self p y

under_inj : (p : Bytes) (c d : ℕ) (s t : Bytes) → under p (c ∷ s) ≡ under p (d ∷ t) → c ∷ s ≡ d ∷ t
unfolding bytes_eq
under_inj [] c d s t e = e
under_inj (a ∷ p) c d s t e =
    let rest : b'/' ∷ c ∷ s ≡ b'/' ∷ d ∷ t = append_cancel (a ∷ p) _ _ e in cc

get_key-under :
    (path name : Bytes) (m c : ℕ) (s : Bytes)
    → format_int (pos m) ≡ c ∷ s
    → get_key path name (pos m) ≡ under path (under name (c ∷ s))
unfolding get_key join bytes_eq
get_key-under path name m c s e = ap (λ x. join (path ∷ name ∷ x ∷ [])) e

-- The keys of two blocks of a file are the same only if the blocks start at the same offset.
get_key_inj :
    (path name : Bytes) (m n : ℕ)
    → m < 2 ^ 63
    → n < 2 ^ 63
    → get_key path name (pos m) ≡ get_key path name (pos n)
    → m ≡ n
get_key_inj path name m n small small' e =
    let (c, s, first) = format_int_cons m in
    let (d, t, second) = format_int_cons n in
    let (c', s', e1) = under_cons name c s in
    let (d', t', e2) = under_cons name d t in
    let same : under path (c' ∷ s') ≡ under path (d' ∷ t') =
      ap (under path) (sym e1)
      ∙ sym (get_key-under path name m c s first)
      ∙ e
      ∙ get_key-under path name n d t second
      ∙ ap (under path) e2 in
    let names : under name (c ∷ s) ≡ under name (d ∷ t) =
      e1 ∙ under_inj path c' d' s' t' same ∙ sym e2 in
    format_int_inj m n small small' (first ∙ under_inj name c d s t names ∙ sym second)

pub get_key_ne :
    (path name : Bytes) (m n : ℕ)
    → m < 2 ^ 63
    → n < 2 ^ 63
    → m ≢ n
    → bytes_eq (get_key path name (pos m)) (get_key path name (pos n)) ≡ false
get_key_ne path name m n small small' other =
    elim (Bool-cases (bytes_eq (get_key path name (pos m)) (get_key path name (pos n)))) [
      | inl same ↦ absurd (other (get_key_inj path name m n small small' (bytes_eq_sound _ _ same)))
      | inr differ ↦ differ
    ]
