-- ===== src/Store/File/Serves.antt =====
-- A cache that serves a file: each block is there with its bytes, unfilled, left on the disk, or absent.
pub mod Calls
pub mod Fetches
pub mod Start
use peerd_oci.Cache.FileCache.Fails.{lost}
use peerd_oci.Cache.FileCache.Key.{get_key_ne}
use native.Mathlib.Decide.{ℕ_discrete}
use peerd_oci.Action.{Action}
use peerd_oci.Cache.FileCache.Hit.{Holds, get_or_create_hit}
use peerd_oci.Os.{File}
use peerd_oci.Prelude.Dict
use peerd_oci.Cache.FileCache.Miss.{made_from}
use peerd_oci.Os.{update}
use peerd_oci.Prelude.{◌⊎◌, ◌≢◌}
use peerd_oci.Prelude.{length-slice, ◌-◌, arith}
use peerd_oci.Store.File.ReadAt.{start-le-stop, stop-le, lt-stop}
use peerd_oci.Math.Align.{block_start-le, lt-block_start-add}
use peerd_oci.Prelude.Dict.{Dict}
use peerd_oci.Files.{cache_block_size}
use peerd_oci.Math.Align.{block_start, lt-block_start-add, block_start-le}
use peerd_oci.Cache.FileCache.Miss.{new_file, made, made-Holds, get_or_create_miss}
use peerd_oci.Cache.FileCache.Fetch.{refilled, moved, refilled-Holds}
use peerd_oci.Store.File.ReadAt.{block_end, lt-stop, start-le-stop, stop-le}
use peerd_oci.Cache.FileCache.{Blocks, get_key, get_or_create}
use peerd_oci.Cache.Item.{World}
use peerd_oci.Int64.{pos}
use peerd_oci.Prelude.{
  ◌≡◌, Bytes, ℕ, true, slice, some, none, false, bytes_eq, [], length, ◌<◌, ◌∙◌, arith, ◌^◌,
  Outcome, ◌-◌, ok, ◌≤◌, length-slice, subst, refl, if◌then◌else◌, ◌≢◌, List, ◌==◌, Bool-cases, ap,
  bytes_eq_refl, inl, sym, bytes_eq_sound, inr,
}

-- A library that takes every item, and gives up none.
pub record Lossless (B : Blocks) : Type 0 where
  pub takes :
      (key : Bytes) (p : ℕ) (s : B.State)
      → (r : B.State) × (B.set key p s ≡ (true, r))
        × (B.get key r ≡ some p)
        × ((other : Bytes) → bytes_eq key other ≡ false → B.get other r ≡ B.get other s)

-- The bytes of the block at `start` in a file with the bytes `d`.
abbrev pub block_bytes : Bytes → ℕ → Bytes
block_bytes d start = slice d start (block_end start (length d))

-- The item `p` with the file `f` is that of the key, and on the disk the key is the name of this file or
-- of none.
pub record Owns (B : Blocks) {E : Type 0} (owner : ℕ → Bytes) (w : World B.State E) (key : Bytes)
    (p : ℕ) (f : File) : Type 0 where
  pub item_key : (w.items p).key ≡ key
  pub named : f.name ≡ key
  pub file_owner : owner f.inode ≡ key
  pub item_made : p < w.next_item
  pub file_made : f.inode < w.disk.next
  pub on_disk :
      (Dict.lookup key w.disk.names ≡ none) ⊎ (Dict.lookup key w.disk.names ≡ some f.inode)

module _ (d : Bytes) (o : ℕ) (inside : o < length d) where
  abbrev start : ℕ
  start = block_start o cache_block_size

  pub block_bytes-length : length (block_bytes d start) ≡ block_end start (length d) - start
  block_bytes-length =
      let le : start ≤ length d = omega (arith, block_start-le o cache_block_size) in
      length-slice d start (block_end start (length d)) (start-le-stop start (length d) le)
        (stop-le start (length d))

  pub block_bytes_some : 0 < length (block_bytes d start)
  block_bytes_some =
      let lt =
        lt-stop start o (length d) (lt-block_start-add o cache_block_size (omega arith)) inside in
      omega (arith, lt, block_bytes-length, block_start-le o cache_block_size)

-- A name that is not there is not there after another was removed.
lookup-erase :
    {V : Type 0} (k q : Bytes) (m : Dict V)
    → Dict.lookup q m ≡ none
    → Dict.lookup q (Dict.erase k m) ≡ none
lookup-erase k q m nameless = elim (Bool-cases (bytes_eq k q)) [
  | inl same ↦
      ap (λ x. Dict.lookup x (Dict.erase k m)) (sym (bytes_eq_sound k q same))
      ∙ Dict.lookup-erase_self k m
  | inr other ↦ Dict.lookup-erase_ne k q m other ∙ nameless
]

-- The block of a key: absent from the cache and from the disk, left on the disk by an earlier run,
-- with the bytes `b` or another number of bytes, unfilled since its fetch failed, or present with the
-- bytes `b`. The owner of a file's contents is the key of its item.
pub data BlockState (B : Blocks) {E : Type 0} (owner : ℕ → Bytes) (w : World B.State E)
    (key b : Bytes) : Type 0 where
  absent :
      B.get key w.blocks ≡ none → Dict.lookup key w.disk.names ≡ none → BlockState B owner w key b
  left_behind :
      (i : ℕ)
      → B.get key w.blocks ≡ none
      → Dict.lookup key w.disk.names ≡ some i
      → (w.disk.content i ≡ b) ⊎ (length (w.disk.content i) ≢ length b)
      → owner i ≡ key
      → i < w.disk.next
      → BlockState B owner w key b
  unfilled :
      (p : ℕ) (f : File) (c : Bytes)
      → B.get key w.blocks ≡ some p
      → Holds w p f c
      → length c ≢ length b
      → f.position ≡ 0
      → Owns B owner w key p f
      → BlockState B owner w key b
  present :
      (p : ℕ) (f : File)
      → B.get key w.blocks ≡ some p
      → Holds w p f b
      → Owns B owner w key p f
      → BlockState B owner w key b

-- The cache serves the file `name` with the bytes `d`: the lock is free, the disk in order, and no
-- block has other bytes than the file.
pub record Serves (B : Blocks) (path : Bytes) {E : Type 0} (w : World B.State E) (name d : Bytes)
    : Type 0 where
  pub free : w.locked ≡ false
  pub calm : w.disk.faults ≡ []
  pub owner : ℕ → Bytes
  pub blocks :
      (o : ℕ)
      → o < length d
      → BlockState B owner w
          (get_key path name (pos (block_start o cache_block_size)))
          (block_bytes d (block_start o cache_block_size))

module _ (B : Blocks) (path : Bytes) {E : Type 0} (owner : ℕ → Bytes) (w : World B.State E)
    (key : Bytes) where
  -- The owners after a new file was made for the key.
  abbrev pub owner_after : ℕ → Bytes
  owner_after i = if i == w.disk.next then key else owner i

  module _ (r : B.State) where
    made-BlockState :
        (other c : Bytes)
        → bytes_eq key other ≡ false
        → B.get other r ≡ B.get other w.blocks
        → BlockState B owner w other c
        → BlockState B owner_after (made B path w key r) other c
    made-BlockState other c differ same (absent nowhere nameless) =
        absent (same ∙ nowhere)
          (Dict.lookup-insert_ne key other w.disk.next w.disk.names differ ∙ nameless)
    made-BlockState other c differ same (left_behind i nowhere there bytes mine old) =
        let kept : update w.disk.content w.disk.next [] i ≡ w.disk.content i = ground arith in
        left_behind i (same ∙ nowhere)
          (Dict.lookup-insert_ne key other w.disk.next w.disk.names differ ∙ there) (rw kept bytes)
          (ground arith) (omega arith)
    made-BlockState other c differ same (unfilled p f z found h size start own) =
        let kept = Dict.lookup-insert_ne key other w.disk.next w.disk.names differ in
        unfilled p f z (same ∙ found) (ground (arith, h, own)) size start
          (ground (arith, own, kept))
    made-BlockState other c differ same (present p f found h own) =
        let kept = Dict.lookup-insert_ne key other w.disk.next w.disk.names differ in
        present p f (same ∙ found) (ground (arith, h, own)) (ground (arith, own, kept))

    made-Owns : Owns B owner_after (made B path w key r) key w.next_item (new_file key w.disk)
    made-Owns = ground (arith, Dict.lookup-insert_self key w.disk.next w.disk.names)

  -- A file of an earlier run was opened for the key.
  module _ (r : B.State) (f : File) where
    reopened-BlockState :
        (other c : Bytes)
        → B.get other r ≡ B.get other w.blocks
        → BlockState B owner w other c
        → BlockState B owner (made_from B path w key r f w.disk) other c
    reopened-BlockState other c same (absent nowhere nameless) = absent (same ∙ nowhere) nameless
    reopened-BlockState other c same (left_behind i nowhere there bytes mine old) =
        left_behind i (same ∙ nowhere) there bytes mine old
    reopened-BlockState other c same (unfilled p g z found h size start own) =
        unfilled p g z (same ∙ found) (ground (arith, h, own)) size start (ground (arith, own))
    reopened-BlockState other c same (present p g found h own) =
        present p g (same ∙ found) (ground (arith, h, own)) (ground (arith, own))

  module _ (p : ℕ) (f : File) (own : Owns B owner w key p f) (e : E) where
    -- Items and files of other keys are other ones.
    file_apart :
        (other : Bytes) (i : ℕ) → bytes_eq key other ≡ false → owner i ≡ other → i ≢ f.inode
    file_apart other i differ mine same =
        cc (ap (bytes_eq key) (sym own.file_owner ∙ ap owner (sym same) ∙ mine), bytes_eq_refl key)

    apart :
        (other : Bytes) (q : ℕ) (g : File)
        → bytes_eq key other ≡ false
        → Owns B owner w other q g
        → (q ≢ p) × (g.inode ≢ f.inode)
    apart other q g differ its =
        let ne : key ≢ other = λ same. cc (ap (bytes_eq key) same, bytes_eq_refl key) in
        (
          λ same. ne (sym own.item_key ∙ ap (λ x. (w.items x).key) (sym same) ∙ its.item_key),
          λ same. ne (sym own.file_owner ∙ ap owner (sym same) ∙ its.file_owner),
        )

    refilled-BlockState :
        (b other c : Bytes)
        → bytes_eq key other ≡ false
        → BlockState B owner w other c
        → BlockState B owner (refilled p f w b e) other c
    refilled-BlockState b other c differ (absent nowhere nameless) = absent nowhere nameless
    refilled-BlockState b other c differ (left_behind i nowhere there bytes mine old) =
        let files : i ≢ f.inode = file_apart other i differ mine in
        let kept : (refilled p f w b e).disk.content i ≡ w.disk.content i = ground arith in
        left_behind i nowhere there (rw kept bytes) mine old
    refilled-BlockState b other c differ (unfilled q g z found h size start its) =
        let (items, files) = apart other q g differ its in
        unfilled q g z found (ground (arith, h)) size start (ground (arith, its))
    refilled-BlockState b other c differ (present q g found h its) =
        let (items, files) = apart other q g differ its in
        present q g found (ground (arith, h)) (ground (arith, its))

    still_named :
        (other : Bytes)
        → bytes_eq key other ≡ false
        → Dict.lookup other (Dict.erase f.name w.disk.names) ≡ Dict.lookup other w.disk.names
    still_named other differ =
        Dict.lookup-erase_ne f.name other w.disk.names
          (ap (λ x. bytes_eq x other) own.named ∙ differ)

    lost-BlockState :
        (other c : Bytes)
        → bytes_eq key other ≡ false
        → BlockState B owner w other c
        → BlockState B owner (lost p f w e) other c
    lost-BlockState other c differ (absent nowhere nameless) =
        absent nowhere (lookup-erase f.name other w.disk.names nameless)
    lost-BlockState other c differ (left_behind i nowhere there bytes mine old) =
        left_behind i nowhere (still_named other differ ∙ there) bytes mine old
    lost-BlockState other c differ (unfilled q g z found h size start its) =
        let (items, files) = apart other q g differ its in
        unfilled q g z found (ground (arith, h)) size start
          (ground (arith, its, still_named other differ))
    lost-BlockState other c differ (present q g found h its) =
        let (items, files) = apart other q g differ its in
        present q g found (ground (arith, h)) (ground (arith, its, still_named other differ))
