-- ===== src/Urlparser.antt =====
-- pkg/urlparser: the digest of a blob, found in its URL by regular expressions.
pub mod Regexp
pub mod Digest
use peerd_oci.Prelude.{
  leb, ◌||◌, Bytes, not, List, ◌&&◌, ◌∷◌, ◌==◌, codes, Option, Outcome, ◌++◌, [], some, err, none,
  unknown_url, empty_url, ok,
}
use peerd_oci.Urlparser.Regexp.{Atom, one, plus, star, optional, times, group, Class, find_submatch}

abbrev lower_case : Class
lower_case c = leb b'a' c && leb c b'z'

abbrev digit : Class
digit c = leb b'0' c && leb c b'9'

-- `[a-zA-Z0-9]`.
abbrev pub alphanumeric : Class
alphanumeric c = lower_case c || (leb b'A' c && leb c b'Z') || digit c

abbrev also : Class → Bytes → Class
also p [] c = p c
also p (d ∷ ds) c = c == d || also p ds c

-- `.`, which does not match a line feed.
abbrev any_byte : Class
any_byte c = not (c == 10)

abbrev literal : Bytes → List Atom
literal [] = []
literal (c ∷ s) = one (λ d. d == c) ∷ literal s

-- Azure Container Registry data endpoints.
registry_regexp : List Atom
registry_regexp =
    literal (codes "https://")
    ++ plus (also alphanumeric (codes ".")) ∷ literal (codes ".azurecr.")
    ++ plus (also lower_case (codes ".")) ∷ optional (λ d. d == b'/') ∷ literal (codes "?")
    ++ plus (also alphanumeric (codes ".&=-")) ∷ literal (codes "&d=sha256:")
    ++ group 64 alphanumeric ∷ star (λ d. d == b'.') ∷ []

-- The path of a blob: the container, the first two characters of the digest, and the digest.
blob_path : List Atom
blob_path =
    plus (also alphanumeric (codes "-")) ∷ literal (codes "//docker/registry/v2/blobs/sha256/")
    ++ times 2 (λ c. lower_case c || digit c) ∷ literal (codes "/")
    ++ group 64 alphanumeric ∷ literal (codes "/data")
    ++ star any_byte ∷ []

-- Microsoft Artifact Registry data endpoints: the dots of the host match any byte.
artifact_regexp : List Atom
unfolding blob_path
artifact_regexp =
    literal (codes "https://")
    ++ plus alphanumeric ∷ literal (codes ".data")
    ++ one any_byte ∷ literal (codes "mcr")
    ++ one any_byte ∷ literal (codes "microsoft")
    ++ one any_byte ∷ literal (codes "com/")
    ++ blob_path

-- Azure Blob Storage endpoints.
storage_regexp : List Atom
unfolding blob_path
storage_regexp =
    literal (codes "https://")
    ++ plus alphanumeric ∷ literal (codes ".blob.")
    ++ plus (also lower_case (codes ".")) ∷ literal (codes "/")
    ++ blob_path

unfoldable pub regexes : List (List Atom)
unfolding registry_regexp artifact_regexp storage_regexp
regexes = registry_regexp ∷ artifact_regexp ∷ storage_regexp ∷ []

-- `len(matches) == 2`: the whole match and one group.
submatch : List Bytes → Option Bytes
submatch (whole ∷ g ∷ []) = some g
submatch matches = none

first_digest : List (List Atom) → Bytes → Outcome Bytes
unfolding submatch find_submatch
first_digest [] url = err unknown_url
first_digest (r ∷ rs) url = elim (submatch (find_submatch r url)) [
  | some g ↦ ok (codes "sha256:" ++ g)
  | none ↦ first_digest rs url
]

unfoldable pub parse_digest : Bytes → Outcome Bytes
unfolding first_digest
parse_digest [] = err empty_url
parse_digest (c ∷ s) = first_digest regexes (c ∷ s)
