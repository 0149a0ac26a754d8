-- ===== src/Context.antt =====
-- pkg/context/context.go: the context of a request, the headers that peers exchange, and the start
-- of the byte range that a request asks for.
pub mod Range
pub mod Outbound
use peerd_oci.Prelude.{
  Bytes, Bool, List, codes, bytes_eq, if◌then◌else◌, ◌++◌, Outcome, [], ◌∷◌, err,
  invalid_range_format, no_range_header, Option, none, Error, some, ok,
}
use peerd_oci.Prelude.Dict
use peerd_oci.Prelude.Dict.{Dict}
use peerd_oci.Http.{Header, header_get, header_set}
use peerd_oci.Strings.{split, parse_int, trim_prefix_byte}
use peerd_oci.Int64.{ℤ}

-- Context keys.
abbrev pub correlation_id_ctx_key : Bytes
correlation_id_ctx_key = codes "correlation_id"

abbrev pub digest_ctx_key : Bytes
digest_ctx_key = codes "digest"

abbrev pub file_chunk_ctx_key : Bytes
file_chunk_ctx_key = codes "file_chunk"

abbrev pub blob_url_ctx_key : Bytes
blob_url_ctx_key = codes "blob_url"

abbrev pub blob_range_ctx_key : Bytes
blob_range_ctx_key = codes "blob_range"

-- Request headers.
abbrev pub p2p_header_key : Bytes
p2p_header_key = codes "X-MS-Peerd-RequestFromPeer"

abbrev pub correlation_header_key : Bytes
correlation_header_key = codes "X-MS-Peerd-CorrelationId"

abbrev pub node_header_key : Bytes
node_header_key = codes "X-MS-Peerd-Node"

-- The request as the router of the web framework hands it over, with the values that handlers set.
pub record Context : Type 0 where
  pub method : Bytes
  pub param_url : Bytes
  pub raw_query : Bytes
  pub header : Header
  pub keys : Dict Bytes

-- `c.Set(key, value)` and `c.GetString(key)`.
unfoldable pub ctx_set : Bytes → Bytes → Context → Context
ctx_set k v c = record c { keys = Dict.insert k v c.keys }

unfoldable pub get_string : Bytes → Context → Bytes
get_string k c = elim (Dict.lookup k c.keys) [ none ↦ [] | some v ↦ v ]

unfoldable pub is_request_from_a_peer : Context → Bool
is_request_from_a_peer c = bytes_eq (header_get p2p_header_key c.header) (codes "true")

-- `fresh` is the new UUID.
unfoldable pub fill_correlation_id : Bytes → Context → Context
fill_correlation_id fresh c =
    let given = header_get correlation_header_key c.header in
    ctx_set correlation_id_ctx_key (if bytes_eq given [] then fresh else given) c

-- `node_name` is the host name of this node.
unfoldable pub set_outbound_headers : Bytes → Header → Context → Header
set_outbound_headers node_name h c = header_set node_header_key node_name (
    header_set correlation_header_key (get_string correlation_id_ctx_key c)
      (header_set p2p_header_key (codes "true") h))

unfoldable pub blob_url : Context → Bytes
blob_url c = trim_prefix_byte b'/' c.param_url ++ b'?' ∷ c.raw_query

-- `if err != nil { return 0, err }`.
or_error : ℤ → Option Error → Outcome ℤ
or_error n none = ok n
or_error n (some e) = err e

-- What stands between "=" and "-".
start_of : List Bytes → Outcome ℤ
unfolding or_error
start_of (start ∷ end ∷ []) = let (n, failed) = parse_int start in or_error n failed
start_of ranges = err invalid_range_format

range_of : List Bytes → Outcome ℤ
unfolding start_of
range_of (unit ∷ range ∷ []) =
    if bytes_eq unit (codes "bytes") then start_of (split b'-' range) else err invalid_range_format
range_of parts = err invalid_range_format

unfoldable pub range_start_index : Bytes → Outcome ℤ
unfolding range_of
range_start_index [] = err no_range_header
range_start_index (c ∷ s) = range_of (split b'=' (c ∷ s))
