-- ===== src/Store/File/Reads/Provided.antt =====
-- Reading on in a file whose blocks the cache provides, or may fail to.
use peerd_oci.Int64.Laws.{add64-pos}
use peerd_oci.Action.Steps.{bind-ok, bind-err}
use peerd_oci.Math.Align.{block_start}
use peerd_oci.Cache.FileCache.{metainfo_key}
use peerd_oci.Prelude.{
  take, drop, length-slice, inl, Bytes, ℕ, ◌≤◌, length, slice, ◌++◌, List, ◌≡◌, ◌<◌, ◌-◌,
  length-slice, arith, ◌^◌, suc, ◌∙◌, some, zero, ap, ◌+◌, false, ok, sym, le→ltb_false, refl, ◌⊎◌,
  Error, err, Outcome, subst, inr, read_at_failed,
}
use peerd_oci.Cache.SyncMap
use peerd_oci.Cache.SyncMap.{SyncMap}
use peerd_oci.Action.{pure, gets, ◌>>◌}
use peerd_oci.Store.File.{
  read_at, Session, read, Blocks, Network, ℤ, pos, file_state, advance, cache_block_size, add64,
  seek, seek_start, World, get_block, on_cache,
}
use peerd_oci.Store.File.ReadAt.{block_end, read_end, read_at-no_block, read_at-block}
use peerd_oci.Store.File.Reads.{
  slice-append, read_end-bounds, read_on, cursor, with_cache, block_call, Provides, least,
}

module _ (B : Blocks) (N : Network) (path node : Bytes) (order : SyncMap ℤ → List Bytes)
    (s : Session B.State N.State) (d : Bytes) (Inv : World B.State N.State → Type 0)
    (MayFail : Type 0) (small : length d < 2 ^ 62) (any : s.file.chunk_offset ≡ pos 0)
    (provides : Provides B N path node order s.file.name s.file.reader d Inv MayFail) where
  abbrev at_ : ℕ → World B.State N.State → Session B.State N.State
  at_ c w = cursor B N path node order (length d) c (with_cache B N path node order w s)

  -- The size of the file is in the cache.
  abbrev Known : World B.State N.State → Type 0
  Known w = SyncMap.get (metainfo_key s.file.name) w.sizes ≡ some (pos (length d))

  -- A read that got a block, or not.
  read-block :
      (w w' : World B.State N.State) (a k : ℕ)
      → Known w
      → a < length d
      → a + k ≤ length d
      → block_call B N path node order s.file.name s.file.reader d a w ≡ (
        ok (
            slice d
              (block_start a cache_block_size)
              (block_end (block_start a cache_block_size) (length d))),
        w',
      )
      → read B N path node order (pos k) (at_ a w) ≡ (
        ok (record { data_read = slice d a (read_end a k (length d)); at_end = false }),
        at_ (read_end a k (length d)) w',
      )
  unfolding read file_state gets pure advance get_block on_cache
  read-block w w' a k known inside fits block =
      let n = length d in
      let e = read_end a k n in
      let (lo, hi, _, _) = read_end-bounds a k n inside in
      let moved : add64 (pos a) (pos (length (slice d a e))) ≡ pos e =
        ap (λ m. add64 (pos a) (pos m)) (length-slice d a e lo hi)
        ∙ add64-pos a (e - a) (omega arith)
        ∙ ap pos (omega arith) in
      let t = at_ a w' in
      let at_cursor : ℤ → Session B.State N.State =
        λ c. record t { file = record t.file { cur = c } } in
      bind-ok (file_state B N path node order) _ (at_ a w) refl
      ∙ bind-ok (read_at B N path node order (pos k) (pos a)) _ (at_ a w) (
          read_at-block B N path node order (at_ a w) d small known a inside k t (omega arith)
            (inl any) (ap (λ r. (r.0, record t { cache = r.1 })) block)
          ∙ ap (λ b. (ok (record { data_read = slice d a e; at_end = b }), t))
              (le→ltb_false n (a + k) fits))
      ∙ bind-ok (advance B N path node order (pos (length (slice d a e)))) _ t
          (ap (λ c. (ok tt, at_cursor c)) moved)

  read-no_block :
      (w w' : World B.State N.State) (a k : ℕ) (x : Error)
      → Known w
      → a < length d
      → block_call B N path node order s.file.name s.file.reader d a w ≡ (err x, w')
      → read B N path node order (pos k) (at_ a w) ≡ (err read_at_failed, at_ a w')
  unfolding read file_state gets get_block on_cache
  read-no_block w w' a k x known inside block =
      bind-ok (file_state B N path node order) _ (at_ a w) refl
      ∙ bind-err (read_at B N path node order (pos k) (pos a)) _ (at_ a w) (
          read_at-no_block B N path node order (at_ a w) d small known a inside k (at_ a w') x
            (inl any) (ap (λ r. (r.0, record (at_ a w') { cache = r.1 })) block))

  -- One read, and the others.
  read_on-round :
      (fuel a e most left rest : ℕ) (w w1 w2 : World B.State N.State)
      → read B N path node order (pos (least most (suc left))) (at_ a w)
        ≡ (ok (record { data_read = slice d a e; at_end = false }), at_ e w1)
      → read_on B N path node order fuel most rest (at_ e w1)
        ≡ (ok (slice d e (e + rest)), at_ (e + rest) w2)
      → suc left - length (slice d a e) ≡ rest
      → e + rest ≡ a + suc left
      → a ≤ e
      → e ≤ a + suc left
      → a + suc left ≤ length d
      → read_on B N path node order (suc fuel) most (suc left) (at_ a w)
        ≡ (ok (slice d a (a + suc left)), at_ (a + suc left) w2)
  unfolding read_on pure
  read_on-round fuel a e most left rest w w1 w2 first more shorter sum lo hi fits =
      bind-ok (read B N path node order (pos (least most (suc left)))) _ (at_ a w) first
      ∙ bind-ok (read_on B N path node order fuel most (suc left - length (slice d a e))) _
          (at_ e w1) (ap (λ m. read_on B N path node order fuel most m (at_ e w1)) shorter ∙ more)
      ∙ ap (λ x. (ok (slice d a e ++ slice d e x), at_ x w2)) sum
      ∙ ap (λ b. (ok b, at_ (a + suc left) w2)) (slice-append d a e (a + suc left) lo hi fits)

  -- A read that fails ends it, as the first or a later one.
  read_on-stops :
      (fuel a most left : ℕ) (w w1 : World B.State N.State)
      → read B N path node order (pos (least most (suc left))) (at_ a w)
        ≡ (err read_at_failed, at_ a w1)
      → read_on B N path node order (suc fuel) most (suc left) (at_ a w)
        ≡ (err read_at_failed, at_ a w1)
  unfolding read_on
  read_on-stops fuel a most left w w1 first =
      bind-err (read B N path node order (pos (least most (suc left)))) _ (at_ a w) first

  read_on-stops_later :
      (fuel a e c most left : ℕ) (w w1 w2 : World B.State N.State)
      → read B N path node order (pos (least most (suc left))) (at_ a w)
        ≡ (ok (record { data_read = slice d a e; at_end = false }), at_ e w1)
      → read_on B N path node order fuel most (suc left - length (slice d a e)) (at_ e w1)
        ≡ (err read_at_failed, at_ c w2)
      → read_on B N path node order (suc fuel) most (suc left) (at_ a w)
        ≡ (err read_at_failed, at_ c w2)
  unfolding read_on
  read_on-stops_later fuel a e c most left w w1 w2 first more =
      bind-ok (read B N path node order (pos (least most (suc left)))) _ (at_ a w) first
      ∙ bind-err (read_on B N path node order fuel most (suc left - length (slice d a e))) _
          (at_ e w1) more

  -- The client gets what it asks for, or an error, if a block may fail.
  abbrev pub Gets : ℕ → ℕ → Outcome Bytes × Session B.State N.State → Type 0
  Gets a left r =
      (w' : World B.State N.State) × ((r ≡ (ok (slice d a (a + left)), at_ (a + left) w'))
        ⊎ (MayFail × (c : ℕ) × (r ≡ (err read_at_failed, at_ c w'))))
      × Inv w'

  read_on-Provides :
      (fuel : ℕ) (w : World B.State N.State) (a most left : ℕ)
      → Known w
      → Inv w
      → 0 < most
      → left ≤ fuel
      → a + left ≤ length d
      → Gets a left (read_on B N path node order fuel most left (at_ a w))
  unfolding read_on pure
  read_on-Provides fuel w a most zero known inv some_room enough fits =
      let gap : 0 ≡ a - a = omega arith in
      let same : a ≡ a + 0 = omega arith in
      (
        w,
        inl (
            ap (λ m. (ok (take m (drop a d)), at_ a w)) gap
            ∙ ap (λ x. (ok (slice d a x), at_ x w)) same),
        inv,
      )
  read_on-Provides zero w a most (suc left) known inv some_room enough fits = absurd (omega arith)
  read_on-Provides (suc fuel) w a most (suc left) known inv some_room enough fits =
      let n = length d in
      let k = least most (suc left) in
      let e = read_end a k n in
      let inside : a < n = omega arith in
      let (lo, hi, near, further) = read_end-bounds a k n inside in
      let size : length (slice d a e) ≡ e - a = length-slice d a e lo hi in
      let rest = suc left - length (slice d a e) in
      let asked : k ≤ suc left = ground arith in
      let sum : e + rest ≡ a + suc left = ground (arith, size, further) in
      let (w1, block, inv1, sizes) = provides w inv a inside in
      let known1 : Known w1 = ap (SyncMap.get (metainfo_key s.file.name)) sizes ∙ known in
      elim block [
        | inr (may, x, failed_so) ↦ (
          w1,
          inr (
            may,
            a,
            read_on-stops fuel a most left w w1 (read-no_block w w1 a k x known inside failed_so),
          ),
          inv1,
        )
        | inl came ↦
            let first = read-block w w1 a k known inside (ground arith) came in
            let (w2, more, inv2) =
              read_on-Provides fuel w1 e most rest known1 inv1 some_room
                (ground (arith, size, further)) (omega arith) in
            (
              w2,
              elim more [
                | inl all ↦ inl (
                    read_on-round fuel a e most left rest w w1 w2 first all refl sum lo
                      (omega arith) fits)
                | inr (may, c, stopped) ↦
                    inr (may, c, read_on-stops_later fuel a e c most left w w1 w2 first stopped)
              ],
              inv2,
            )
      ]

  -- `Seek` to `a`, and the reads from there.
  pub seek-read_on-Provides :
      (a most left : ℕ)
      → Known s.cache
      → Inv s.cache
      → s.file.size ≡ pos (length d)
      → 0 < most
      → a + left ≤ length d
      → Gets a left (
          (seek B N path node order (pos a) seek_start
              >> read_on B N path node order left most left)
            s)
  unfolding seek
  seek-read_on-Provides a most left known inv size some_room fits =
      subst (Gets a left)
        (sym (
          bind-ok (seek B N path node order (pos a) seek_start) _ s refl
          ∙ ap
              (λ z.
                read_on B N path node order left most left
                  (record s { file = record s.file { cur = pos a; size = z } }))
              size))
        (read_on-Provides left s.cache a most left known inv some_room (omega arith) fits)
