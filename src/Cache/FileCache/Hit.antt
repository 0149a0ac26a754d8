-- ===== src/Cache/FileCache/Hit.antt =====
-- `GetOrCreate` and `Exists` on a block that is in the cache, with the disk in order.
use peerd_oci.Int64.Laws.{eq64_refl}
use peerd_oci.Prelude.{
  ℕ, Bytes, ◌≡◌, false, ok, length, some, [], ◌∙◌, ap, ltb, refl, ◌≢◌, err, arith,
}
use peerd_oci.Os.{File}
use peerd_oci.Cache.Item.{World, lock_item, unlock_item, stat_item, bytes}
use peerd_oci.Cache.Item.Laws.{
  held, held-file, lock_item-held, unlock_item-held, stat_item-calm, bytes-calm,
}
use peerd_oci.Cache.FileCache.{
  Blocks, get_key, get_or_create, ensure_filled, read_block, exists, pos, ℤ, bytes_mismatch, eq64,
}
use peerd_oci.Action.{Action, attempt, pure, gets, raise}
use peerd_oci.Action.Steps.{bind-ok, attempt-ok}

-- The item `p` is open, its file has the contents `b`, and nobody holds its lock.
pub record Holds {R E : Type 0} (w : World R E) (p : ℕ) (f : File) (b : Bytes) : Type 0 where
  pub unlocked : (w.items p).locked ≡ false
  pub opened : (w.items p).file ≡ some f
  pub content : w.disk.content f.inode ≡ b
  pub calm : w.disk.faults ≡ []

module _ (B : Blocks) (path : Bytes) {E : Type 0} (w : World B.State E) (p : ℕ) (f : File)
    (b : Bytes) (h : Holds w p f b) where
  pub stat_held : stat_item p (held p w) ≡ (ok (length b), held p w)
  stat_held =
      stat_item-calm p (held p w) f (held-file p w ∙ h.opened) h.calm
      ∙ ap (λ c. (ok (length c), held p w)) h.content

  bytes-held : bytes p (held p w) ≡ (ok b, held p w)
  bytes-held =
      bytes-calm p (held p w) f (held-file p w ∙ h.opened) h.calm
      ∙ ap (λ c. (ok c, held p w)) h.content

  pub ensure_filled_hit :
      (fetch : Action E Bytes) → ensure_filled B path p (pos (length b)) fetch w ≡ (ok tt, w)
  unfolding ensure_filled
  ensure_filled_hit fetch =
      bind-ok (lock_item p) _ w (lock_item-held p w h.unlocked)
      ∙ bind-ok (attempt (stat_item p)) _ (held p w) (attempt-ok (stat_item p) (held p w) stat_held)
      ∙ rw eq64_refl (unlock_item-held p w h.unlocked)

  pub read_block_hit : read_block B path p (pos (length b)) w ≡ (ok b, w)
  unfolding read_block pure
  read_block_hit =
      bind-ok (lock_item p) _ w (lock_item-held p w h.unlocked)
      ∙ bind-ok (bytes p) _ (held p w) bytes-held
      ∙ bind-ok (unlock_item p) _ (held p w) (unlock_item-held p w h.unlocked)
      ∙ rw eq64_refl

  pub read_block_other :
      (n : ℕ) → length b ≢ n → read_block B path p (pos n) w ≡ (err bytes_mismatch, w)
  unfolding read_block raise
  read_block_other n differ =
      let other : eq64 (pos (length b)) (pos n) ≡ false = ground arith in
      bind-ok (lock_item p) _ w (lock_item-held p w h.unlocked)
      ∙ bind-ok (bytes p) _ (held p w) bytes-held
      ∙ bind-ok (unlock_item p) _ (held p w) (unlock_item-held p w h.unlocked)
      ∙ rw other

  -- A block that is in the cache with the size that is asked for is returned, and nothing changes:
  -- the block is not fetched, and the disk, the items and the locks are as before. The item is
  -- open and not locked, and the disk is in order.
  pub get_or_create_hit :
      (name : Bytes) (offset : ℤ) (fetch : Action E Bytes)
      → B.get (get_key path name offset) w.blocks ≡ some p
      → get_or_create B path name offset (pos (length b)) fetch w ≡ (ok b, w)
  unfolding get_or_create gets pure
  get_or_create_hit name offset fetch found =
      bind-ok (gets (λ w. B.get (get_key path name offset) w.blocks)) _ w
        (ap (λ v. (ok v, w)) found)
      ∙ bind-ok (pure p) _ w refl
      ∙ bind-ok (ensure_filled B path p (pos (length b)) fetch) _ w (ensure_filled_hit fetch)
      ∙ read_block_hit

  -- `Exists` says of a block that is in the cache whether it has any bytes, and changes nothing.
  -- The item is open and not locked, and the disk is in order.
  pub exists_hit :
      (name : Bytes) (offset : ℤ)
      → B.get (get_key path name offset) w.blocks ≡ some p
      → exists B path name offset w ≡ (ok (ltb 0 (length b)), w)
  unfolding exists gets pure
  exists_hit name offset found =
      bind-ok (gets (λ w. B.get (get_key path name offset) w.blocks)) _ w
        (ap (λ v. (ok v, w)) found)
      ∙ bind-ok (lock_item p) _ w (lock_item-held p w h.unlocked)
      ∙ bind-ok (attempt (stat_item p)) _ (held p w) (attempt-ok (stat_item p) (held p w) stat_held)
      ∙ bind-ok (unlock_item p) _ (held p w) (unlock_item-held p w h.unlocked)
