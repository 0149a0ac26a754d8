-- ===== src/Http.antt =====
-- What the program uses of Go's `net/http`: header maps with canonical names, outbound requests,
-- and responses.
use peerd_oci.Int64.{ℤ}
use peerd_oci.Prelude.{
  List, ℕ, Bool, Bytes, Option, if◌then◌else◌, ◌∷◌, true, [], ◌≡◌, bytes_eq, leb, ◌==◌, false, some,
  ◌&&◌, none, ◌-◌, ◌+◌,
}
use peerd_oci.Prelude.Dict
use peerd_oci.Prelude.Dict.{Dict}

-- `http.Header`: the values of a name, in order.
abbrev pub Header : Type 0
Header = Dict (List Bytes)

-- `CanonicalMIMEHeaderKey`, for names of letters, digits and dashes: a letter is upper case at the
-- start and behind a dash, else lower case.
upper : ℕ → ℕ
upper c = if leb b'a' c && leb c b'z' then c - 32 else c

lower : ℕ → ℕ
lower c = if leb b'A' c && leb c b'Z' then c + 32 else c

canonical_from : Bool → Bytes → Bytes
unfolding upper lower
canonical_from start [] = []
canonical_from start (c ∷ s) = (if start then upper c else lower c) ∷ canonical_from (c == b'-') s

unfoldable pub canonical : Bytes → Bytes
unfolding canonical_from
canonical s = canonical_from true s

-- `Header.Get`: the first value, or the empty string.
first_value : Option (List Bytes) → Bytes
first_value none = []
first_value (some []) = []
first_value (some (v ∷ vs)) = v

unfoldable pub header_get : Bytes → Header → Bytes
unfolding first_value
header_get k h = first_value (Dict.lookup (canonical k) h)

unfoldable pub header_set : Bytes → Bytes → Header → Header
header_set k v h = Dict.insert (canonical k) (v ∷ []) h

unfoldable pub header_del : Bytes → Header → Header
header_del k h = Dict.erase (canonical k) h

pub header_get-set_self : (k v : Bytes) (h : Header) → header_get k (header_set k v h) ≡ v
unfolding header_get header_set
header_get-set_self k v h = rw (Dict.lookup-insert_self)

pub header_get-set_ne :
    (k q v : Bytes) (h : Header)
    → bytes_eq (canonical k) (canonical q) ≡ false
    → header_get q (header_set k v h) ≡ header_get q h
unfolding header_get header_set
header_get-set_ne k q v h differ =
    rw (Dict.lookup-insert_ne (canonical k) (canonical q) (v ∷ []) h differ)

pub record Request : Type 0 where
  pub method : Bytes
  pub url : Bytes
  pub header : Header

-- A response: `content_length` is -1 where it is not known, and reading the body yields its bytes.
pub record Response : Type 0 where
  pub status : ℕ
  pub content_length : ℤ
  pub header : Header
  pub body : Bytes
