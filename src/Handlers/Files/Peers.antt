-- ===== src/Handlers/Files/Peers.antt =====
-- `Handle` on a request of a peer.
use peerd_oci.Action.Steps.{bind-ok, attempt-err}
use peerd_oci.Store.Service.Peers.{open_store-peer_miss}
use peerd_oci.Cache.FileCache.{get_key}
use peerd_oci.Store.Service.{key_parts}
use peerd_oci.Action.{pure, attempt}
use peerd_oci.Context.{
  is_request_from_a_peer, blob_url, ctx_set, Context, get_string, blob_range_ctx_key,
  file_chunk_ctx_key, blob_url_ctx_key,
}
use peerd_oci.Prelude.Dict
use peerd_oci.Store.Key.{store_key}
use peerd_oci.Context.{ctx_set}
use peerd_oci.Strings.{split}
use peerd_oci.Prelude.{
  ok, Bytes, List, bytes_eq, Bool, codes, ◌≡◌, false, Option, true, none, [], refl, some, ap, ◌∙◌,
  err,
}
use peerd_oci.Handlers.Files.{
  fill, handle, Blocks, Network, SyncMap, ℤ, store_key, ctx_set, blob_url, serve, answer_of,
  refusal, pure, fill_keys, Header, Session, aborted, open_store, not_exist,
}

-- The context of the request, filled.
abbrev filled : Bytes → Bytes → Context → Context
filled key d c = fill_keys key d (ctx_set (codes "handler") (codes "files") c)

fill-ok : (c : Context) (key d : Bytes) → store_key c ≡ ok (key, d) → fill c ≡ ok (filled key d c)
unfolding fill
fill-ok c key d keyed =
    let same : store_key (ctx_set (codes "handler") (codes "files") c) ≡ ok (key, d) =
      unfold store_key ctx_set blob_url in keyed in
    rw (same, fill)

chunk_apart :
    (bytes_eq blob_range_ctx_key file_chunk_ctx_key ≡ false)
    × (bytes_eq blob_url_ctx_key file_chunk_ctx_key ≡ false)
unfolding bytes_eq
chunk_apart = (refl, refl)

get_string-filled :
    (c : Context) (key d : Bytes) → get_string file_chunk_ctx_key (filled key d c) ≡ key
unfolding get_string fill_keys ctx_set
get_string-filled c key d =
    let (range_apart, url_apart) = chunk_apart in
    let value : Option Bytes → Bytes = λ v. elim v [ none ↦ [] | some b ↦ b ] in
    ap value (
      Dict.lookup-insert_ne blob_range_ctx_key file_chunk_ctx_key _ _ range_apart
      ∙ Dict.lookup-insert_ne blob_url_ctx_key file_chunk_ctx_key _ _ url_apart
      ∙ Dict.lookup-insert_self file_chunk_ctx_key key _)

filled-is_request_from_a_peer :
    (c : Context) (key d : Bytes)
    → is_request_from_a_peer c ≡ true
    → is_request_from_a_peer (filled key d c) ≡ true
unfolding is_request_from_a_peer fill_keys ctx_set
filled-is_request_from_a_peer c key d h = h

module _ (B : Blocks) (N : Network) (path node : Bytes) (order : SyncMap ℤ → List Bytes) where
  -- A request of a peer for a block that is not in the cache is answered with status 404, and nothing
  -- is fetched or changed: requests do not go from peer to peer.
  pub handle-peer_miss :
      (prefetchable : Bool) (h : Header) (c : Context) (key d name : Bytes) (off : ℤ)
      (s : Session B.State N.State)
      → is_request_from_a_peer c ≡ true
      → store_key c ≡ ok (key, d)
      → key_parts (split b'_' key) ≡ ok (name, off)
      → B.get (get_key path name off) s.cache.blocks ≡ none
      → handle B N path node order prefetchable h c s ≡ (ok (aborted 404), s)
  unfolding handle serve answer_of refusal pure
  handle-peer_miss prefetchable h c key d name off s from_peer keyed parts missing =
      let c' = filled key d c in
      let open_c = open_store B N path node order prefetchable c' in
      let refused : open_c s ≡ (err not_exist, s) =
        open_store-peer_miss B N path node order prefetchable c' name off s
          (filled-is_request_from_a_peer c key d from_peer)
          (ap (λ k. key_parts (split b'_' k)) (get_string-filled c key d) ∙ parts) missing in
      rw (fill-ok c key d keyed, handle)
        (bind-ok (attempt open_c) _ s (attempt-err open_c s refused))
