-- ===== src/Tests/Caches.antt =====
-- The cache and the files of the store at concrete inputs.
use peerd_oci.Cache.FileCache.Fetch.{get_or_create_refill}
use peerd_oci.Cache.FileCache.Sizes.{get_or_create-size}
use peerd_oci.Action.{Action}
use peerd_oci.Prelude.Dict.{Dict}
use peerd_oci.Int64.{pos}
use peerd_oci.Cache.FileCache.Hit.{Holds, get_or_create_hit}
use peerd_oci.Cache.FileCache.{get_key, get_or_create, Blocks, metainfo_key}
use peerd_oci.Cache.Item.{World}
use peerd_oci.Os.{File}
use peerd_oci.Prelude.{
  Bytes, ℕ, codes, ◌≡◌, true, if◌then◌else◌, some, ok, err, refl, ◌==◌, [], ◌+◌, bytes_mismatch, ap,
  false, arith, none,
}
use peerd_oci.Prelude.Dict

-- A cache of items that takes every item.
abbrev pub item_map : Blocks
item_map = record { State = Dict ℕ; get = Dict.lookup; set = λ k p m. (true, Dict.insert k p m) }

abbrev pub cache_path : Bytes
cache_path = codes "/cache"

abbrev block_file : File
block_file = record { name = codes "/cache/f/0"; inode = 0; position = 0 }

-- A cache with one block, the first of the file "f", whose open file is at `position`, in a state
-- `e` of the network. The size of the file is 5.
abbrev pub one_block : ℕ → ℕ → World (Dict ℕ) ℕ
one_block position e = record {
  disk = record {
    content = λ i. if i == 0 then codes "hello" else [];
    names = [];
    next = 1;
    faults = [];
  };
  items = λ p. record {
    key = codes "/cache/f/0";
    file = some (record block_file { position = position });
    locked = false;
  };
  next_item = 1;
  fd_count = pos 1;
  blocks = Dict.insert (get_key cache_path (codes "f") (pos 0)) 0 [];
  sizes = record {
    entries = Dict.insert (metainfo_key (codes "f")) (pos 5) [];
    capacity = 10;
    eviction_percentage = 5;
  };
  locked = false;
  env = e;
}

pub one_block-found :
    Dict.lookup (get_key cache_path (codes "f") (pos 0)) (one_block 0 0).blocks ≡ some 0
one_block-found = Dict.lookup-insert_self (get_key cache_path (codes "f") (pos 0)) 0 []

pub one_block-Holds :
    (position e : ℕ)
    → Holds (one_block position e) 0 (record block_file { position = position }) (codes "hello")
one_block-Holds position e = record { unlocked = refl; opened = refl; content = refl; calm = refl }

-- A fetch that counts its calls.
abbrev fetch_abc : Action ℕ Bytes
fetch_abc n = (ok (codes "abc"), n + 1)

get_or_create_refill_example :
    (get_or_create item_map cache_path (codes "f") (pos 0) (pos 3) fetch_abc (one_block 5 0)).0
    ≡ err bytes_mismatch
get_or_create_refill_example =
    get_or_create_refill item_map cache_path (one_block 5 0) 0 (record block_file { position = 5 })
      (codes "hello") (one_block-Holds 5 0) (codes "f") (pos 0) 3 fetch_abc (codes "abc") 1
      one_block-found (λ h. absurd (omega arith)) refl refl (omega arith)

get_or_create-size_example : pos 5 ≡ pos 5
get_or_create-size_example =
    get_or_create-size item_map cache_path (codes "f") (pos 0) (pos 5) fetch_abc (one_block 0 0)
      {b = codes "hello"}
      (ap (λ r. r.0)
        (get_or_create_hit item_map cache_path (one_block 0 0) 0 block_file (codes "hello")
          (one_block-Holds 0 0) (codes "f") (pos 0) fetch_abc one_block-found))

-- A cache with no block.
abbrev pub no_block : World (Dict ℕ) ℕ
no_block = record (one_block 0 0) { blocks = [] }

abbrev pub key_f : Bytes
key_f = get_key cache_path (codes "f") (pos 0)

pub no_key : {V : Type 0} → Dict.lookup {V = V} key_f [] ≡ none
unfolding Dict.lookup
no_key = refl
