-- ===== src/Tests/Files.antt =====
-- Reads of a file at concrete inputs.
use peerd_oci.Store.Advertised.{prefetch_segment-exists}
use peerd_oci.Store.Service.{prefetch_segment, key_parts}
use peerd_oci.Cache.FileCache.{exists}
use peerd_oci.Strings.{split}
use peerd_oci.Files.Fetch.{fetch_file-origin, origin_get}
use peerd_oci.Files.{fetch_file}
use peerd_oci.Tests.Requests.{hello, from_a_peer, origin_answers, peer_request_7}
use peerd_oci.Tests.Caches.{no_block, no_key, key_f}
use peerd_oci.Store.File.Bounds.{read_at-Fits}
use peerd_oci.Cache.FileCache.{metainfo_key}
use peerd_oci.Action.{continue, pure, lift}
use peerd_oci.Store.File.ReadAt.{read_at-cached, read_at-other_block}
use peerd_oci.Store.File.Fstat.{sized, fstat-after_error, after_calls}
use peerd_oci.Prelude.Dict.{Dict}
use peerd_oci.Int64.{pos, ℤ}
use peerd_oci.Cache.SyncMap.{SyncMap}
use peerd_oci.Store.File.{Session, fstat, read_at, remote_size}
use peerd_oci.Files.{cache_block_size}
use peerd_oci.Reader.{
  fstat_request, remote_request, do_request, wrapped, fstat_remote, origin_request,
}
use peerd_oci.Prelude.Dict
use peerd_oci.Cache.SyncMap
use peerd_oci.Prelude.{
  Bytes, ℕ, codes, true, err, [], ◌≡◌, map, transport_failure, ok, List, bytes_eq, arith, false,
  blocked, inl, refl, some, none, only_single_chunk, length, ◌≤◌, ◌∷◌,
}
use peerd_oci.Tests.Caches.{item_map, cache_path, one_block, one_block-Holds, one_block-found}
use peerd_oci.Tests.Requests.{network, no_network, request}
use peerd_oci.Store.File.{read, ReadResult}
use peerd_oci.Action.{◌>>◌}

-- The file "f" of a store.
abbrev pub session : Bytes → Session (Dict ℕ) ℕ
session name = record {
  cache = one_block 0 0;
  queue = [];
  blobs = [];
  started = [];
  file = record {
    name = name;
    cur = pos 0;
    size = pos 0;
    stat_locked = false;
    chunk_offset = pos 0;
    reader = request;
  };
}

abbrev pub any_order : SyncMap ℤ → List Bytes
any_order sm = map (λ e. e.0) sm.entries

pub size_of_f : SyncMap.get (metainfo_key (codes "f")) (one_block 0 0).sizes ≡ some (pos 5)
unfolding SyncMap.get
size_of_f = Dict.lookup-insert_self (metainfo_key (codes "f")) (pos 5) []

pub size_of_g : SyncMap.get (metainfo_key (codes "g")) (one_block 0 0).sizes ≡ none
unfolding SyncMap.get metainfo_key Dict.lookup Dict.insert bytes_eq
size_of_g = refl

origin_fails :
    remote_size item_map no_network cache_path (codes "n") any_order request 0
    ≡ (err transport_failure, 1)
unfolding remote_size fstat_remote origin_request remote_request fstat_request do_request
    peerd_oci.Action.◌>>=◌ peerd_oci.Action.continue pure wrapped
origin_fails = refl

read_at-cached_example :
    read_at item_map network cache_path (codes "n") any_order (pos 10) (pos 1) (session (codes "f"))
    ≡ (
      ok (record { data_read = codes "ello"; at_end = true }),
      sized item_map network cache_path (codes "n") any_order (pos 5) (session (codes "f")),
    )
read_at-cached_example =
    read_at-cached item_map network cache_path (codes "n") any_order (session (codes "f"))
      (codes "hello") (omega arith) size_of_f 1 (omega arith) 10 0 _ (omega arith) (inl refl)
      one_block-found (one_block-Holds 0 0)

fstat-after_error_example :
    ((fstat item_map no_network cache_path (codes "n") any_order (session (codes "g"))).0
      ≡ err transport_failure)
    × ((fstat item_map no_network cache_path
          (codes "n")
          any_order
          (session (codes "g"))).1.file.stat_locked
        ≡ true)
    × ((k : ℕ)
        → (fstat item_map no_network cache_path (codes "n") any_order (
            after_calls item_map no_network cache_path
              (codes "n")
              any_order
              k
              (fstat item_map no_network cache_path
                (codes "n")
                any_order
                (session (codes "g"))).1)).0
          ≡ blocked)
fstat-after_error_example =
    fstat-after_error item_map no_network cache_path (codes "n") any_order (session (codes "g"))
      transport_failure 1 size_of_g refl origin_fails

-- The file "f", opened for a peer that asked for its second block.
abbrev second_block : Session (Dict ℕ) ℕ
second_block = record (session (codes "f")) {
  file = record (session (codes "f")).file { chunk_offset = pos cache_block_size };
}

read_at-other_block_example :
    read_at item_map network cache_path (codes "n") any_order (pos 10) (pos 1) second_block ≡ (
      err only_single_chunk,
      sized item_map network cache_path (codes "n") any_order (pos 5) second_block,
    )
read_at-other_block_example =
    read_at-other_block item_map network cache_path (codes "n") any_order second_block (pos 5)
      cache_block_size 10 1 size_of_f refl (omega arith) (omega arith)
      (λ h. absurd (omega (arith, h)))

-- The file "f", whose size is known, at its first byte.
abbrev pub known_file : Session (Dict ℕ) ℕ
known_file = sized item_map network cache_path (codes "n") any_order (pos 5) (session (codes "f"))

read_at-Fits_example :
    ((r : ReadResult)
      → (read_at item_map network cache_path (codes "n") any_order (pos 2) (pos 1) known_file).0
        ≡ ok r
      → length r.data_read ≤ 2)
    × ((r : ReadResult)
        → (read item_map network cache_path (codes "n") any_order (pos 2) known_file).0 ≡ ok r
        → length r.data_read ≤ 2)
read_at-Fits_example =
    read_at-Fits item_map network cache_path (codes "n") any_order 2 (pos 1) known_file

-- A worker, before the block of the file "f" is there. Its segment is of a request of a peer, so that it
-- asks the origin.
abbrev worker : Session (Dict ℕ) ℕ
worker = record (session (codes "f")) { cache = no_block }

hel_fetched :
    fetch_file network (codes "n") peer_request_7 (pos 0) (pos 3) 0 ≡ (ok (codes "hel"), 1)
hel_fetched =
    fetch_file-origin network (codes "n") peer_request_7 (pos 0) 3 0 1 hello from_a_peer refl
      (origin_answers (origin_get network (codes "n") peer_request_7 (pos 0) 3) 0) (inl refl)

prefetch_segment-exists_example :
    (t : Session (Dict ℕ) ℕ) × (k : Bytes) × (prefetch_segment item_map network cache_path
        (codes "n")
        any_order
        (record { name = codes "f"; offset = pos 0; count = pos 3; reader = peer_request_7 })
        worker
      ≡ (ok tt, t))
    × (t.blobs ≡ k ∷ [])
    × (key_parts (split b'_' k) ≡ ok (codes "f", pos 0))
    × (exists item_map cache_path (codes "f") (pos 0) t.cache ≡ (ok true, t.cache))
prefetch_segment-exists_example =
    prefetch_segment-exists item_map network cache_path (codes "n") any_order (codes "f") 0 3
      peer_request_7 (codes "hel") (Dict.insert key_f 1 []) 1 worker refl refl no_key no_key refl
      (Dict.lookup-insert_self key_f 1 []) hel_fetched refl (omega arith)
      ((λ e. absurd (omega (arith, e))), tt) refl (omega arith) (omega arith)
