-- ===== src/Store/File/Serves/Fetches.antt =====
-- `GetOrCreate` on a cache that serves a file, wherever the block is.
use peerd_oci.Int64.{ℤ}
use peerd_oci.Cache.SyncMap.{SyncMap}
use peerd_oci.Store.File.Serves.{
  Lossless, block_start, block_bytes, Action, World, cache_block_size, pos, File, BlockState,
  Serves, unfilled, absent, Holds, present, owner_after, block_end, left_behind, Owns,
  block_bytes_some, reopened-BlockState, made-Owns, block_bytes-length, made-BlockState,
}
use peerd_oci.Cache.FileCache.{Blocks, get_key, get_or_create}
use peerd_oci.Prelude.{
  ◌≡◌, ◌⊎◌, Bytes, length, ◌<◌, ◌^◌, ℕ, Outcome, ok, some, Error, none, err, ◌≢◌, inr, [], ◌-◌, inl,
  arith, ap, refl, ◌∙◌, sym,
}
use peerd_oci.Prelude.Dict
use peerd_oci.Store.File.Serves.{block_bytes-length, block_bytes_some}
use peerd_oci.Store.File.Serves.Calls.{
  Leaves, all_blocks, present-returns, unfilled-returns, unfilled-fails,
}
use peerd_oci.Cache.FileCache.Miss.{
  made_from, made, made-Holds, new_file, with_file, open_file-new, open_file-old,
  get_or_create_miss,
}

module _ (B : Blocks) (lossless : Lossless B) (path : Bytes) (E : Type 0) (name d : Bytes)
    (small : length d < 2 ^ 62) (o : ℕ) (inside : o < length d) where
  abbrev start : ℕ
  start = block_start o cache_block_size

  abbrev key : Bytes
  key = get_key path name (pos start)

  abbrev block : Bytes
  block = block_bytes d start

  abbrev call : Action E Bytes → World B.State E → Outcome Bytes × World B.State E
  call fetch w = get_or_create B path name (pos start) (pos (length block)) fetch w

  -- The outcomes that a call may have where its fetch has the outcome `x`.
  abbrev pub May : SyncMap ℤ → Outcome Bytes → Outcome Bytes × World B.State E → Type 0
  May sizes x r = Leaves B path name d sizes (ok block) r ⊎ Leaves B path name d sizes x r

  -- The block is in the cache.
  data Found (owner : ℕ → Bytes) (w : World B.State E) : Type 0 where
    unfilled_here :
        (p : ℕ) (f : File) (c : Bytes)
        → B.get key w.blocks ≡ some p
        → Holds w p f c
        → length c ≢ length block
        → f.position ≡ 0
        → Owns B owner w key p f
        → Found owner w
    present_here :
        (p : ℕ) (f : File)
        → B.get key w.blocks ≡ some p
        → Holds w p f block
        → Owns B owner w key p f
        → Found owner w

  Found-state :
      (owner : ℕ → Bytes) (w : World B.State E) → Found owner w → BlockState B owner w key block
  Found-state owner w (unfilled_here p f c found h size fresh own) =
      unfilled p f c found h size fresh own
  Found-state owner w (present_here p f found h own) = present p f found h own

  module _ (fetch : Action E Bytes) (e : E) where
    Found-returns :
        (w : World B.State E) (serves : Serves B path w name d)
        → Found serves.owner w
        → fetch w.env ≡ (ok block, e)
        → Leaves B path name d w.sizes (ok block) (call fetch w)
    Found-returns w serves (unfilled_here p f c found h size fresh own) fetched =
        unfilled-returns B path w name d small serves o inside p f c own found h size fresh fetch e
          fetched
    Found-returns w serves (present_here p f found h own) fetched =
        present-returns B path w name d small serves o inside p f found h fetch

    Found-fails :
        (w : World B.State E) (serves : Serves B path w name d) (x : Error)
        → Found serves.owner w
        → fetch w.env ≡ (err x, e)
        → May w.sizes (err x) (call fetch w)
    Found-fails w serves x (unfilled_here p f c found h size fresh own) fetched = inr (
        unfilled-fails B path w name d small serves o inside p f c own found h size fresh fetch e x
          fetched)
    Found-fails w serves x (present_here p f found h own) fetched =
        inl (present-returns B path w name d small serves o inside p f found h fetch)

  -- The state in which the block is in the cache, from which the call goes on.
  abbrev Made : World B.State E → Type 0
  Made w =
      (m : World B.State E) × (serves : Serves B path m name d) × Found serves.owner m
      × ((fetch : Action E Bytes) → call fetch w ≡ call fetch m)
      × (m.sizes ≡ w.sizes)
      × (m.env ≡ w.env)

  module _ (w : World B.State E) (serves : Serves B path w name d) where
    new-Made : B.get key w.blocks ≡ none → Dict.lookup key w.disk.names ≡ none → Made w
    new-Made nowhere nameless =
        let (r, taken, found, others) = lossless.takes key w.next_item w.blocks in
        let f = new_file key w.disk in
        let m = made B path w key r in
        let owner = owner_after B path serves.owner w key in
        let here : Found owner m =
          unfilled_here w.next_item f [] found (made-Holds B path w key r serves.calm)
            (λ same. absurd (omega (arith, same, block_bytes_some d o inside))) refl
            (made-Owns B path serves.owner w key r) in
        (
          m,
          record {
            free = refl;
            calm = serves.calm;
            owner = owner;
            blocks =
                all_blocks B path w name d small serves o inside owner m (Found-state owner m here)
                  (λ other c differ.
                    made-BlockState B path serves.owner w key r other c differ
                      (others other differ));
          },
          here,
          λ fetch.
              get_or_create_miss B path w name (pos start) (length block) fetch r f
                (with_file key w.disk) serves.free serves.calm nowhere
                (open_file-new key w.disk serves.calm nameless) taken found,
          refl,
          refl,
        )

    left-Made :
        (i : ℕ)
        → B.get key w.blocks ≡ none
        → Dict.lookup key w.disk.names ≡ some i
        → (w.disk.content i ≡ block) ⊎ (length (w.disk.content i) ≢ length block)
        → serves.owner i ≡ key
        → i < w.disk.next
        → Made w
    left-Made i nowhere there bytes mine old =
        let (r, taken, found, others) = lossless.takes key w.next_item w.blocks in
        let f : File = record { name = key; inode = i; position = 0 } in
        let m = made_from B path w key r f w.disk in
        let own : Owns B serves.owner m key w.next_item f = ground (arith, mine, old, there) in
        let holds : (b : Bytes) → w.disk.content i ≡ b → Holds m w.next_item f b = λ b same.
          record {
            unlocked = ground arith;
            opened = ground arith;
            content = same;
            calm = serves.calm;
          } in
        let here : Found serves.owner m = elim bytes [
          | inl same ↦ present_here w.next_item f found (holds block same) own
          | inr size ↦
              unfilled_here w.next_item f (w.disk.content i) found (holds _ refl) size refl own
        ] in
        (
          m,
          record {
            free = refl;
            calm = serves.calm;
            owner = serves.owner;
            blocks =
                all_blocks B path w name d small serves o inside serves.owner m
                  (Found-state serves.owner m here)
                  (λ other c differ.
                    reopened-BlockState B path serves.owner w key r f other c
                      (others other differ));
          },
          here,
          λ fetch.
              get_or_create_miss B path w name (pos start) (length block) fetch r f w.disk
                serves.free serves.calm nowhere (open_file-old key i w.disk serves.calm there) taken
                found,
          refl,
          refl,
        )

    every-Made : BlockState B serves.owner w key block → Made w
    every-Made (absent nowhere nameless) = new-Made nowhere nameless
    every-Made (left_behind i nowhere there bytes mine old) =
        left-Made i nowhere there bytes mine old
    every-Made (unfilled p f c found h size fresh own) =
        (w, serves, unfilled_here p f c found h size fresh own, λ fetch. refl, refl, refl)
    every-Made (present p f found h own) =
        (w, serves, present_here p f found h own, λ fetch. refl, refl, refl)

    -- `GetOrCreate` of a block returns the bytes of the file, if the fetch does.
    pub get_or_create-returns :
        (fetch : Action E Bytes) (e : E)
        → fetch w.env ≡ (ok block, e)
        → Leaves B path name d w.sizes (ok block) (
            get_or_create B path name
              (pos start)
              (pos (block_end start (length d) - start))
              fetch
              w)
    get_or_create-returns fetch e fetched =
        let (m, serves', here, same, sizes, env) = every-Made (serves.blocks o inside) in
        let (w', run, after, kept) =
          Found-returns fetch e m serves' here (ap fetch env ∙ fetched) in
        (
          w',
          ap (λ n. get_or_create B path name (pos start) (pos n) fetch w)
                (sym (block_bytes-length d o inside))
              ∙ same fetch
              ∙ run,
          after,
          kept ∙ sizes,
        )

    -- If the fetch fails, it returns the bytes of the file or the error.
    pub get_or_create-fails :
        (fetch : Action E Bytes) (x : Error) (e : E)
        → fetch w.env ≡ (err x, e)
        → May w.sizes (err x) (
            get_or_create B path name
              (pos start)
              (pos (block_end start (length d) - start))
              fetch
              w)
    get_or_create-fails fetch x e fetched =
        let (m, serves', here, same, sizes, env) = every-Made (serves.blocks o inside) in
        let whole : get_or_create B path name (pos start) (pos (block_end start (length d) - start))
              fetch w
            ≡ call fetch m =
          ap (λ n. get_or_create B path name (pos start) (pos n) fetch w)
            (sym (block_bytes-length d o inside))
          ∙ same fetch in
        elim (Found-fails fetch e m serves' x here (ap fetch env ∙ fetched)) [
          | inl (w', run, after, kept) ↦ inl (w', whole ∙ run, after, kept ∙ sizes)
          | inr (w', run, after, kept) ↦ inr (w', whole ∙ run, after, kept ∙ sizes)
        ]
