-- ===== src/Cache/FileCache/Fetch.antt =====
-- `GetOrCreate` on a block that is not there, or not with the size that is asked for: it is
-- fetched. The disk is in order.
use peerd_oci.Prelude.{
  ℕ, Bytes, ◌+◌, replicate, false, length, ◌++◌, arith, ◌≢◌, ◌≡◌, ok, ◌∙◌, refl, true, some, ◌<◌,
  err, subst, length-append, ap, length-replicate, sym,
}
use peerd_oci.Os.{File}
use peerd_oci.Os.Laws.{write_at-nil}
use peerd_oci.Cache.Item.{World, lock_item, unlock_item, stat_item, fill, update_item}
use peerd_oci.Cache.Item.Laws.{held, held-file, lock_item-held, unlock_item-held}
use peerd_oci.Cache.FileCache.{
  Blocks, get_key, get_or_create, ensure_filled, read_block, pos, eq64, ℤ, bytes_mismatch,
}
use peerd_oci.Cache.FileCache.Hit.{Holds, stat_held, read_block_hit, read_block_other}
use peerd_oci.Cache.FileCache.Fill.{written, fill-calm}
use peerd_oci.Action.{Action, pure, attempt, gets}
use peerd_oci.Action.Steps.{bind-ok, attempt-ok}

-- The item is unlocked again.
abbrev pub released : {R E : Type 0} → ℕ → World R E → World R E
released p w = record w { items = update_item w.items p (record (w.items p) { locked = false }) }

module _ {R E : Type 0} (p : ℕ) (f : File) (w : World R E) (b : Bytes) (e : E) where
  -- The state in which an item was filled with `b`.
  abbrev pub refilled : World R E
  refilled = released p (written p f b (record (held p w) { env = e }))

  -- The file after a write of `b`.
  abbrev pub moved : File
  moved = record f { position = f.position + length b }

  pub refilled-Holds :
      {c : Bytes} → Holds w p f c → Holds refilled p moved (replicate f.position 0 ++ b)
  refilled-Holds h = record {
    unlocked = ground arith;
    opened = ground arith;
    content = ground (arith, write_at-nil f.position b);
    calm = h.calm;
  }

module _ (B : Blocks) (path : Bytes) {E : Type 0} (w : World B.State E) (p : ℕ) (f : File)
    (c : Bytes) (h : Holds w p f c) where
  -- The item has another size: the fetched bytes are written at the offset of its file.
  pub ensure_filled_refill :
      (n : ℕ) (fetch : Action E Bytes) (b : Bytes) (e : E)
      → length c ≢ n
      → fetch w.env ≡ (ok b, e)
      → length b ≡ n
      → ensure_filled B path p (pos n) fetch w ≡ (ok tt, refilled p f w b e)
  unfolding ensure_filled unlock_item pure
  ensure_filled_refill n fetch b e differ fetched size =
      let other : eq64 (pos (length c)) (pos n) ≡ false = ground arith in
      let same : eq64 (pos (length b)) (pos n) ≡ true = ground arith in
      let stat = attempt-ok (stat_item p) (held p w) (stat_held B path w p f c h) in
      bind-ok (lock_item p) _ w (lock_item-held p w h.unlocked)
      ∙ bind-ok (attempt (stat_item p)) _ (held p w) stat
      ∙ rw other (
          bind-ok (unlock_item p) _ (held p w) (unlock_item-held p w h.unlocked)
          ∙ bind-ok (lock_item p) _ w (lock_item-held p w h.unlocked)
          ∙ bind-ok (attempt (stat_item p)) _ (held p w) stat
          ∙ rw other (
              bind-ok (attempt (fill p fetch)) _ (held p w) (
                attempt-ok (fill p fetch) (held p w)
                  (fill-calm p f (held p w) fetch b e (held-file p w ∙ h.opened) h.calm fetched))
              ∙ bind-ok (unlock_item p) _ _ refl
              ∙ rw same))

  -- A block that is in the cache with another size, through whose file nothing was written yet, is
  -- fetched, stored and returned, if the fetch returns as many bytes as were asked for. The item
  -- is open and not locked, and the disk is in order.
  pub get_or_create_first :
      (name : Bytes) (off : ℤ) (n : ℕ) (fetch : Action E Bytes) (b : Bytes) (e : E)
      → B.get (get_key path name off) w.blocks ≡ some p
      → length c ≢ n
      → fetch w.env ≡ (ok b, e)
      → length b ≡ n
      → f.position ≡ 0
      → get_or_create B path name off (pos n) fetch w ≡ (ok b, refilled p f w b e)
  unfolding get_or_create gets pure
  get_or_create_first name off n fetch b e found differ fetched size fresh =
      let holds : Holds (refilled p f w b e) p (moved p f w b e) b =
        subst (λ k. Holds (refilled p f w b e) p (moved p f w b e) (replicate k 0 ++ b)) fresh
          (refilled-Holds p f w b e h) in
      bind-ok (gets (λ w. B.get (get_key path name off) w.blocks)) _ w (ap (λ v. (ok v, w)) found)
      ∙ bind-ok (pure p) _ w refl
      ∙ bind-ok (ensure_filled B path p (pos n) fetch) _ w
          (ensure_filled_refill n fetch b e differ fetched size)
      ∙ ap (λ k. read_block B path p (pos k) (refilled p f w b e)) (sym size)
      ∙ read_block_hit B path (refilled p f w b e) p (moved p f w b e) b holds

  -- A block that is in the cache with another size, and through whose file something was written
  -- before, cannot be filled again: the call fails although the fetch returns as many bytes as
  -- were asked for, since they are written behind as many zeros as were written before. The item
  -- is open and not locked, and the disk is in order.
  pub get_or_create_refill :
      (name : Bytes) (off : ℤ) (n : ℕ) (fetch : Action E Bytes) (b : Bytes) (e : E)
      → B.get (get_key path name off) w.blocks ≡ some p
      → length c ≢ n
      → fetch w.env ≡ (ok b, e)
      → length b ≡ n
      → 0 < f.position
      → (get_or_create B path name off (pos n) fetch w).0 ≡ err bytes_mismatch
  unfolding get_or_create gets pure
  get_or_create_refill name off n fetch b e found differ fetched size moved_on =
      let z = replicate f.position 0 in
      let longer : length (z ++ b) ≢ n =
        λ same. absurd (ground (arith, length-append z b, length-replicate {A = ℕ} f.position 0)) in
      ap (λ r. r.0)
        (bind-ok (gets (λ w. B.get (get_key path name off) w.blocks)) _ w
            (ap (λ v. (ok v, w)) found)
          ∙ bind-ok (pure p) _ w refl
          ∙ bind-ok (ensure_filled B path p (pos n) fetch) _ w
              (ensure_filled_refill n fetch b e differ fetched size)
          ∙ read_block_other B path (refilled p f w b e) p (moved p f w b e) (z ++ b)
              (refilled-Holds p f w b e h) n longer)
