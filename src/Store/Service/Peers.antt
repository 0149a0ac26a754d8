-- ===== src/Store/Service/Peers.antt =====
-- `Open` on a request of a peer.
use peerd_oci.Action.Steps.{bind-ok}
use peerd_oci.Store.File.{on_cache, Session}
use peerd_oci.Cache.FileCache.{exists, get_key}
use peerd_oci.Action.{gets, raise, pure, lift}
use peerd_oci.Strings.{split}
use peerd_oci.Prelude.{ok, Bytes, List, Bool, ◌≡◌, none, true, ok, false, ap, err, not_exist, ◌∙◌}
use peerd_oci.Store.Service.{
  open_store, key_parts, Blocks, Network, SyncMap, ℤ, on_cache, lift, exists, raise, Context,
  is_request_from_a_peer, split, get_string, file_chunk_ctx_key,
}

module _ (B : Blocks) (N : Network) (path node : Bytes) (order : SyncMap ℤ → List Bytes) where
  exists-miss :
      (name : Bytes) (off : ℤ) (s : Session B.State N.State)
      → B.get (get_key path name off) s.cache.blocks ≡ none
      → on_cache B N path node order (exists B path name off) s ≡ (ok false, s)
  unfolding on_cache exists gets pure
  exists-miss name off s missing =
      ap (λ r. (r.0, record s { cache = r.1 }))
        (bind-ok (gets (λ w. B.get (get_key path name off) w.blocks)) _ s.cache
          (ap (λ v. (ok v, s.cache)) missing))

  -- `Open` refuses a request of a peer for a block that is not in the cache: the error says that the
  -- file does not exist, nothing is fetched, and nothing changes.
  pub open_store-peer_miss :
      (prefetchable : Bool) (c : Context) (name : Bytes) (off : ℤ) (s : Session B.State N.State)
      → is_request_from_a_peer c ≡ true
      → key_parts (split b'_' (get_string file_chunk_ctx_key c)) ≡ ok (name, off)
      → B.get (get_key path name off) s.cache.blocks ≡ none
      → open_store B N path node order prefetchable c s ≡ (err not_exist, s)
  unfolding open_store lift raise
  open_store-peer_miss prefetchable c name off s from_peer parts missing =
      bind-ok (lift (key_parts (split b'_' (get_string file_chunk_ctx_key c)))) _ s
        (ap (λ r. (r, s)) parts)
      ∙ rw from_peer (
          bind-ok (on_cache B N path node order (exists B path name off)) _ s
            (exists-miss name off s missing))
