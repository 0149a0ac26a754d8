-- ===== src/Urlparser/Digest.antt =====
-- What a digest is that `ParseDigest` returns, on every kind of URL.
use mathlib.Core.List.{cons-ne-nil}
use peerd_oci.Prelude.{
  List, Bytes, ◌≡◌, All, some, codes, [], ◌∷◌, ◌++◌, ok, ap, arith, some-injective, Option-cases,
  ◌≢◌, inl, inr, refl,
}
use peerd_oci.Urlparser.{parse_digest, alphanumeric, first_digest, regexes, submatch}
use peerd_oci.Urlparser.Regexp.{Atom, find_submatch}
use peerd_oci.Urlparser.Regexp.Captures.{IsCapture, find_submatch-IsCapture, Captures}

submatch_inv :
    (ms : List Bytes) {g : Bytes} → submatch ms ≡ some g → (whole : Bytes) × (ms ≡ whole ∷ g ∷ [])
unfolding submatch
submatch_inv (whole ∷ x ∷ []) h = (whole, ap (λ y. whole ∷ y ∷ []) (some-injective _ _ h))
submatch_inv [] h = absurd (ground arith)
submatch_inv (whole ∷ []) h = absurd (ground arith)
submatch_inv (whole ∷ x ∷ y ∷ ys) h = absurd (ground arith)

abbrev CaptureDigest : Bytes → Bytes → Type 0
CaptureDigest url d = (g : Bytes) × (d ≡ codes "sha256:" ++ g) × IsCapture 64 alphanumeric url g

first_digest_sound :
    (rs : List (List Atom)) (url : Bytes) {d : Bytes}
    → All (Captures 64 alphanumeric url) rs
    → first_digest rs url ≡ ok d
    → CaptureDigest url d
unfolding first_digest
first_digest_sound [] url c h = absurd (ground arith)
first_digest_sound (r ∷ rs) url (c, cs) h = elim (Option-cases (submatch (find_submatch r url))) [
  | inl miss ↦ first_digest_sound rs url cs (ground arith)
  | inr (g, hit) ↦
      let (whole, e) = submatch_inv (find_submatch r url) hit in
      (
        g,
        ground arith,
        find_submatch-IsCapture 64 alphanumeric url r url {whole = whole} {gs = []} c ([], refl) e,
      )
]

regexes-Captures : (url : Bytes) → All (Captures 64 alphanumeric url) regexes
unfolding regexes
regexes-Captures url = ((refl, refl, tt), ((refl, refl, tt), ((refl, refl, tt), tt)))

-- A digest that `ParseDigest` returns is "sha256:" and 64 letters or digits that stand in the URL;
-- an empty URL has none.
pub parse_digest_sound :
    (url : Bytes) {d : Bytes}
    → parse_digest url ≡ ok d
    → (url ≢ []) × (g : Bytes) × (d ≡ codes "sha256:" ++ g) × IsCapture 64 alphanumeric url g
unfolding parse_digest
parse_digest_sound [] h = absurd (ground arith)
parse_digest_sound (c ∷ s) h =
    let (g, e, found) = first_digest_sound regexes (c ∷ s) (regexes-Captures (c ∷ s)) h in
    (cons-ne-nil c s, g, e, found)
