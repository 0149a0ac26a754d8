-- ===== src/Tests/Handlers.antt =====
-- The handler, the router and the election at concrete inputs.
use peerd_oci.Urlparser.{parse_digest}
use peerd_oci.Reader.{Network}
use peerd_oci.Handlers.Engine.{serve_request, serve_request-Answers}
use peerd_oci.Context.{ctx_set, correlation_id_ctx_key, correlation_header_key, Context}
use peerd_oci.Http.{Header, header_set, header_get}
use peerd_oci.Handlers.Files.Peers.{handle-peer_miss}
use peerd_oci.Router.Negative.{Resolved, peers_of-Resolved}
use peerd_oci.Files.Key.{file_chunk_key-split}
use peerd_oci.Store.Agreement.{store_key-at}
use peerd_oci.Int64.{pos}
use peerd_oci.Files.{cache_block_size}
use peerd_oci.Prelude.Dict.{Dict}
use peerd_oci.Provider.{advertise, advertise-ends, after_each}
use peerd_oci.Router.{Content, LookupCache, Router, AddrInfo, peers_of}
use peerd_oci.Handlers.Files.{
  handle, aborted, served, response_header, fill, serve, fill_keys, answer_of,
}
use peerd_oci.Cache.FileCache.{get_key}
use peerd_oci.Store.Service.{key_parts}
use peerd_oci.Math.Align.{block_start}
use peerd_oci.Store.Key.{store_key}
use peerd_oci.Store.File.{Session}
use peerd_oci.Prelude.{
  Bytes, ℕ, ok, ◌++◌, List, All, ◌∷◌, ◌≡◌, codes, [], none, true, ◌+◌, some, arith, err, false,
  refl, ◌∙◌, ap, advertise_failure, bytes_eq,
}
use peerd_oci.Prelude.Dict
use peerd_oci.Tests.Requests.{
  network, range_of_7, peer_request_7, peer_request_7-digest, digest, from_a_peer, request,
}
use peerd_oci.Tests.Files.{session, any_order}
use peerd_oci.Tests.Caches.{item_map, cache_path}
use peerd_oci.Strings.{split, format_int}

abbrev empty_session : Session (Dict ℕ) ℕ
empty_session = record (session (codes "f")) {
  cache = record (session (codes "f")).cache { blocks = [] };
}

abbrev key_of_7 : Bytes
key_of_7 = digest ++ b'_' ∷ format_int (pos (block_start 7 cache_block_size))

stored_key : store_key peer_request_7 ≡ ok (key_of_7, digest)
stored_key =
    store_key-at peer_request_7 digest 7 (omega arith) refl peer_request_7-digest range_of_7

abbrev start_of_7 : ℕ
start_of_7 = block_start 7 cache_block_size

key_of_7_parts : key_parts (split b'_' key_of_7) ≡ ok (digest, pos start_of_7)
unfolding key_parts
key_of_7_parts =
    let (_, halves, number) =
      file_chunk_key-split digest 7 cache_block_size (omega arith) (omega arith) (omega arith) in
    ap key_parts halves ∙ ap (λ r. ok (digest, r.0)) number

nothing_cached :
    Dict.lookup (get_key cache_path digest (pos start_of_7)) empty_session.cache.blocks ≡ none
unfolding Dict.lookup
nothing_cached = refl

handle-peer_miss_example :
    handle item_map network cache_path (codes "n") any_order true [] peer_request_7 empty_session
    ≡ (ok (aborted 404), empty_session)
handle-peer_miss_example =
    handle-peer_miss item_map network cache_path (codes "n") any_order true [] peer_request_7
      key_of_7 digest digest (pos start_of_7) empty_session from_a_peer stored_key key_of_7_parts
      nothing_cached

-- A network with no providers, and a cache of lookups that keeps all.
abbrev no_providers : Content
no_providers = record {
  State = ℕ;
  content_id = λ key. ok key;
  find_providers = λ id n. ([], n + 1);
  provide = λ id n. (err advertise_failure, n + 1);
}

abbrev lookups : LookupCache
lookups = record { State = Dict Bytes; get = Dict.lookup; set_with_ttl = Dict.insert }

abbrev router : Router ℕ (Dict Bytes)
router = record { content = 0; lookups = [] }

abbrev two_nodes : List AddrInfo
two_nodes =
    record { id = codes "me"; addrs = some (codes "10.0.0.1") ∷ [] }
    ∷ record { id = codes "b"; addrs = some (codes "10.0.0.2") ∷ [] }
    ∷ []

peers_of-Resolved_example :
    All
      (Resolved (codes "me") (codes "5001"))
      (peers_of (codes "me") (codes "5001") false two_nodes)
peers_of-Resolved_example = peers_of-Resolved (codes "me") (codes "5001") two_nodes

advertise-ends_example :
    advertise no_providers lookups (codes "me") (codes "5001") (codes "k" ∷ codes "l" ∷ []) router
    ≡ (
      ok tt,
      after_each no_providers lookups
          (codes "me")
          (codes "5001")
          (codes "k" ∷ codes "l" ∷ [])
          router,
    )
advertise-ends_example =
    advertise-ends no_providers lookups (codes "me") (codes "5001") (codes "k" ∷ codes "l" ∷ [])
      router (λ key. tt) (λ id s. tt)

-- A request of a client for the blob, in which nothing is said of an id.
abbrev client_request : Context
client_request = record peer_request_7 {
  header = header_set (codes "Range") (codes "bytes=7-9") [];
}

abbrev client_response : Header
client_response =
    response_header (codes "n") (ctx_set correlation_id_ctx_key (codes "1") request) []

client_served :
    (serve_request item_map network cache_path
      (codes "n")
      any_order
      (codes "1")
      false
      client_request
      (session [])).0
    ≡ ok (served client_response)
unfolding serve_request handle fill serve store_key bytes_eq ctx_set
    peerd_oci.Context.fill_correlation_id peerd_oci.Context.range_start_index header_get Dict.lookup
    header_set Dict.insert peerd_oci.Http.canonical peerd_oci.Http.header_del split
    peerd_oci.Strings.parse_int format_int peerd_oci.Files.file_chunk_key peerd_oci.Math.align_down
    peerd_oci.Int64.div64 peerd_oci.Int64.mul64 peerd_oci.Action.◌>>=◌ peerd_oci.Action.continue
    peerd_oci.Action.settle peerd_oci.Action.modify peerd_oci.Action.gets peerd_oci.Action.attempt
    peerd_oci.Action.pure peerd_oci.Action.lift peerd_oci.Store.Service.open_store key_parts
    peerd_oci.Context.get_string peerd_oci.Context.is_request_from_a_peer peerd_oci.Context.blob_url
    peerd_oci.Strings.trim_prefix_byte parse_digest peerd_oci.Urlparser.regexes fill_keys
    response_header answer_of peerd_oci.Store.File.fstat peerd_oci.Store.File.fstat_locked
    peerd_oci.Store.File.file_state peerd_oci.Store.File.lock_stat peerd_oci.Store.File.unlock_stat
    peerd_oci.Store.File.set_size peerd_oci.Store.File.on_cache peerd_oci.Store.File.remote_size
    peerd_oci.Cache.FileCache.size peerd_oci.Cache.FileCache.put_size peerd_oci.Reader.fstat_remote
    peerd_oci.Reader.origin_request peerd_oci.Reader.remote_request peerd_oci.Reader.fstat_request
    peerd_oci.Reader.do_request peerd_oci.Reader.wrapped peerd_oci.Reader.size_of_response
    peerd_oci.Cache.SyncMap.get peerd_oci.Int64.wrap64 peerd_oci.Strings.digits
    peerd_oci.Cache.FileCache.metainfo_key peerd_oci.Cache.Item.on_env
client_served = refl

serve_request-Answers_example : header_get correlation_header_key client_response ≡ codes "1"
unfolding bytes_eq header_get Dict.lookup header_set Dict.insert peerd_oci.Http.canonical
serve_request-Answers_example =
    serve_request-Answers item_map network cache_path (codes "n") any_order (codes "1") false
      client_request (session []) (served client_response) client_served
