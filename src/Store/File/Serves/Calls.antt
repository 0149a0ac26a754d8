-- ===== src/Store/File/Serves/Calls.antt =====
-- `GetOrCreate` on a cache that serves a file.
use peerd_oci.Int64.{ℤ}
use peerd_oci.Cache.SyncMap.{SyncMap}
use peerd_oci.Prelude.{◌≡◌}
use peerd_oci.Store.File.Serves.{
  World, Serves, block_start, block_bytes, BlockState, Action, File, cache_block_size, pos, Owns,
  block_start-le, Holds, get_key_ne, refilled, get_or_create_hit, present, refilled-BlockState,
  lost-BlockState, unfilled,
}
use peerd_oci.Cache.FileCache.{Blocks, get_key, get_or_create}
use peerd_oci.Prelude.{err, Error, replicate, ◌++◌, refl}
use peerd_oci.Cache.FileCache.Fetch.{refilled, moved, refilled-Holds, get_or_create_first}
use peerd_oci.Cache.FileCache.Fails.{lost, lost-Holds, get_or_create_fails}
use native.Mathlib.Decide.{ℕ_discrete}
use peerd_oci.Prelude.Dict
use peerd_oci.Prelude.{
  ◌≡◌, Bytes, length, ◌<◌, ◌^◌, ℕ, Outcome, bytes_eq, ◌≢◌, false, arith, some, subst, ok, Error,
  err, ap, ◌∙◌, none,
}

-- What `GetOrCreate` of a block leaves: the outcome, and a cache that serves the file, with the same
-- sizes.
abbrev pub Leaves :
    (B : Blocks)
    → Bytes
    → {E : Type 0} → Bytes
    → Bytes
    → SyncMap ℤ
    → Outcome Bytes
    → Outcome Bytes × World B.State E
    → Type 0
Leaves B path {E} name d sizes o r =
    (w' : World B.State E) × (r ≡ (o, w')) × Serves B path w' name d × (w'.sizes ≡ sizes)

module _ (B : Blocks) (path : Bytes) {E : Type 0} (w : World B.State E) (name d : Bytes)
    (small : length d < 2 ^ 62) (serves : Serves B path w name d) (o : ℕ)
    (inside : o < length d) where
  abbrev start : ℕ
  start = block_start o cache_block_size

  abbrev key : Bytes
  key = get_key path name (pos start)

  abbrev block : Bytes
  block = block_bytes d start

  -- The blocks of a later state, where that of the call and all others are known.
  pub all_blocks :
      (owner : ℕ → Bytes) (w' : World B.State E)
      → BlockState B owner w' key (block_bytes d start)
      → ((other b : Bytes)
          → bytes_eq key other ≡ false
          → BlockState B serves.owner w other b
          → BlockState B owner w' other b)
      → (o' : ℕ) → o' < length d
      → BlockState B owner w'
          (get_key path name (pos (block_start o' cache_block_size)))
          (block_bytes d (block_start o' cache_block_size))
  all_blocks owner w' itself others o' inside' =
      elim (ℕ_discrete start (block_start o' cache_block_size)) [
        | yes same ↦
            subst (λ s. BlockState B owner w' (get_key path name (pos s)) (block_bytes d s)) same
              itself
        | no differ ↦
            others _ _
              (get_key_ne path name start (block_start o' cache_block_size)
                (omega (arith, block_start-le o cache_block_size))
                (omega (arith, block_start-le o' cache_block_size)) differ)
              (serves.blocks o' inside')
      ]

  abbrev Left : Outcome Bytes → Outcome Bytes × World B.State E → Type 0
  Left = Leaves B path name d w.sizes

  -- The call.
  abbrev call : Action E Bytes → Outcome Bytes × World B.State E
  call fetch = get_or_create B path name (pos start) (pos (length block)) fetch w

  -- A block that is there needs no fetch.
  pub present-returns :
      (p : ℕ) (f : File)
      → B.get key w.blocks ≡ some p
      → Holds w p f block
      → (fetch : Action E Bytes) → Left (ok block) (call fetch)
  present-returns p f found h fetch =
      (w, get_or_create_hit B path w p f block h name (pos start) fetch found, serves, refl)

  module _ (p : ℕ) (f : File) (c : Bytes) (own : Owns B serves.owner w key p f)
      (found : B.get key w.blocks ≡ some p) (h : Holds w p f c)
      (other_size : length c ≢ length block) (fresh : f.position ≡ 0) (fetch : Action E Bytes)
      (e : E) where
    pub unfilled-returns : fetch w.env ≡ (ok block, e) → Left (ok block) (call fetch)
    unfilled-returns fetched =
        let w' = refilled p f w block e in
        let holds : Holds w' p (moved p f w block e) block =
          subst (λ k. Holds w' p (moved p f w block e) (replicate k 0 ++ block)) fresh
            (refilled-Holds p f w block e h) in
        (
          w',
          get_or_create_first B path w p f c h name (pos start) (length block) fetch block e found
              other_size fetched refl fresh,
          record {
            free = serves.free;
            calm = serves.calm;
            owner = serves.owner;
            blocks =
                all_blocks serves.owner w'
                  (present p (moved p f w block e) found holds (ground (arith, own)))
                  (λ other b.
                    refilled-BlockState B path serves.owner w key p f own e block other b);
          },
          refl,
        )

    pub unfilled-fails : (x : Error) → fetch w.env ≡ (err x, e) → Left (err x) (call fetch)
    unfilled-fails x fetched =
        let w' = lost p f w e in
        let nameless : Dict.lookup key w'.disk.names ≡ none =
          ap (λ k. Dict.lookup key (Dict.erase k w.disk.names)) own.named
          ∙ Dict.lookup-erase_self key w.disk.names in
        (
          w',
          get_or_create_fails B path w p f c h name (pos start) (length block) fetch x e found
              other_size fetched,
          record {
            free = serves.free;
            calm = serves.calm;
            owner = serves.owner;
            blocks =
                all_blocks serves.owner w'
                  (unfilled p f c found (lost-Holds p f w e h) other_size fresh
                    (ground (arith, own, nameless)))
                  (λ other b. lost-BlockState B path serves.owner w key p f own e other b);
          },
          refl,
        )
