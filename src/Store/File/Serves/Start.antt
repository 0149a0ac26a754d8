-- ===== src/Store/File/Serves/Start.antt =====
-- The cache that a node starts with.
use peerd_oci.Store.File.Serves.{Serves, absent, block_start, cache_block_size, pos}
use peerd_oci.Cache.Item.{World}
use peerd_oci.Os.{Disk}
use peerd_oci.Cache.FileCache.{Blocks, metainfo_key, get_key}
use peerd_oci.Cache.FileCache.Start.{new_cache, empty_cache}
use peerd_oci.Cache.SyncMap.{new_sync_map}
use peerd_oci.Cache.FileCache.Miss.{mkdir_all-calm}
use peerd_oci.Prelude.{◌≡◌, Bytes, [], none, ok, some, refl, arith, ℕ, ◌<◌, length, inl, inr}
use peerd_oci.Prelude.Dict
use peerd_oci.Store.File.Serves.{left_behind, block_bytes, BlockState, unfilled, present}
use peerd_oci.Prelude.{◌⊎◌, ◌≢◌, Option-cases, subst, ap, sym, ◌∙◌}
use peerd_oci.Cache.SyncMap

-- The contents of the file `i` are the block of the offset `o` in a file with the bytes `d`, or have
-- another length.
abbrev pub FromBefore : Disk → Bytes → ℕ → ℕ → Type 0
FromBefore disk d o i =
    let b = block_bytes d (block_start o cache_block_size) in
    (disk.content i ≡ b) ⊎ (length (disk.content i) ≢ length b)

-- `NewCache` returns a cache that serves a file, with no size in it, if the files on the disk have the
-- bytes of their blocks or another number of bytes, and no two names share their contents. The disk is
-- in order, and the library returns a cache with no entries.
pub new_cache_from-Serves :
    (B : Blocks) (path : Bytes) {E : Type 0} (env : E) (disk : Disk) (r : B.State) (name d : Bytes)
    (owner : ℕ → Bytes)
    → disk.faults ≡ []
    → ((o i : ℕ)
        → o < length d
        → Dict.lookup (get_key path name (pos (block_start o cache_block_size))) disk.names ≡ some i
        → (owner i ≡ get_key path name (pos (block_start o cache_block_size))) × (i < disk.next))
    → ((o i : ℕ)
        → o < length d
        → Dict.lookup (get_key path name (pos (block_start o cache_block_size))) disk.names ≡ some i
        → FromBefore disk d o i)
    → ((key : Bytes) → B.get key r ≡ none)
    → (w : World B.State E) × (new_cache (ok r) env disk ≡ (some w, disk))
      × Serves B path w name d
      × (SyncMap.get (metainfo_key name) w.sizes ≡ none)
unfolding new_cache empty_cache Dict.lookup SyncMap.get new_sync_map
new_cache_from-Serves B path env disk r name d owner calm owned before empty_library = (
  empty_cache disk r env,
  ground (arith, mkdir_all-calm disk calm),
  record {
    free = refl;
    calm = calm;
    owner = owner;
    blocks = λ o inside.
        let key = get_key path name (pos (block_start o cache_block_size)) in
        elim (Option-cases (Dict.lookup key disk.names)) [
          | inl nameless ↦ absent (empty_library key) nameless
          | inr (i, there) ↦
              let (mine, old) = owned o i inside there in
              left_behind i (empty_library key) there (before o i inside there) mine old
        ];
  },
  refl,
)

-- What the next process finds under the key of a block.
BlockState-on_disk :
    (B : Blocks) {E : Type 0} (owner : ℕ → Bytes) (w : World B.State E) (key b : Bytes) (i : ℕ)
    → BlockState B owner w key b
    → Dict.lookup key w.disk.names ≡ some i
    → (w.disk.content i ≡ b) ⊎ (length (w.disk.content i) ≢ length b)
BlockState-on_disk B owner w key b i (absent nowhere nameless) there = absurd (cc (nameless, there))
BlockState-on_disk B owner w key b i (left_behind j nowhere named bytes mine old) there =
    let same : j ≡ i = ground (arith, named, there) in
    subst (λ k. (w.disk.content k ≡ b) ⊎ (length (w.disk.content k) ≢ length b)) same bytes
BlockState-on_disk B owner w key b i (unfilled p f c found h size start own) there =
    elim own.on_disk [
      | inl nameless ↦ absurd (cc (nameless, there))
      | inr named ↦
          let same : f.inode ≡ i = ground (arith, named, there) in
          inr (λ e. size (ap length (sym h.content) ∙ ap (λ k. length (w.disk.content k)) same ∙ e))
    ]
BlockState-on_disk B owner w key b i (present p f found h own) there = elim own.on_disk [
  | inl nameless ↦ absurd (cc (nameless, there))
  | inr named ↦
      let same : f.inode ≡ i = ground (arith, named, there) in
      inl (ap w.disk.content (sym same) ∙ h.content)
]

-- The owner of what the disk has under the key of a block.
BlockState-owner :
    (B : Blocks) {E : Type 0} (owner : ℕ → Bytes) (w : World B.State E) (key b : Bytes) (i : ℕ)
    → BlockState B owner w key b
    → Dict.lookup key w.disk.names ≡ some i
    → (owner i ≡ key) × (i < w.disk.next)
BlockState-owner B owner w key b i (absent nowhere nameless) there = absurd (cc (nameless, there))
BlockState-owner B owner w key b i (left_behind j nowhere named bytes mine old) there =
    let same : j ≡ i = ground (arith, named, there) in
    subst (λ k. (owner k ≡ key) × (k < w.disk.next)) same (mine, old)
BlockState-owner B owner w key b i (unfilled p f c found h size start own) there =
    elim own.on_disk [
      | inl nameless ↦ absurd (cc (nameless, there))
      | inr named ↦
          let same : f.inode ≡ i = ground (arith, named, there) in
          subst (λ k. (owner k ≡ key) × (k < w.disk.next)) same (own.file_owner, own.file_made)
    ]
BlockState-owner B owner w key b i (present p f found h own) there = elim own.on_disk [
  | inl nameless ↦ absurd (cc (nameless, there))
  | inr named ↦
      let same : f.inode ≡ i = ground (arith, named, there) in
      subst (λ k. (owner k ≡ key) × (k < w.disk.next)) same (own.file_owner, own.file_made)
]

-- A process that ends while its cache serves a file, between two calls, leaves a disk on which the next
-- one serves it: `NewCache` returns a cache that serves the file with the same bytes, with no size in
-- it. The library returns a cache with no entries.
pub new_cache-Serves :
    (B : Blocks) (path : Bytes) {E E' : Type 0} (w : World B.State E) (env : E') (r : B.State)
    (name d : Bytes)
    → Serves B path w name d
    → ((key : Bytes) → B.get key r ≡ none)
    → (w' : World B.State E') × (new_cache (ok r) env w.disk ≡ (some w', w.disk))
      × Serves B path w' name d
      × (SyncMap.get (metainfo_key name) w'.sizes ≡ none)
new_cache-Serves B path w env r name d serves empty_library =
    new_cache_from-Serves B path env w.disk r name d serves.owner serves.calm
      (λ o i inside there. BlockState-owner B serves.owner w _ _ i (serves.blocks o inside) there)
      (λ o i inside there. BlockState-on_disk B serves.owner w _ _ i (serves.blocks o inside) there)
      empty_library
