-- ===== src/Cache/FileCache/Sizes.antt =====
-- Whatever the disk and the fetched code do, a block that `GetOrCreate` returns has the size that
-- was asked for.
use peerd_oci.Prelude.{Bytes, ℕ, ◌≡◌, length, ok, Bool-cases, inl, inr}
use peerd_oci.Action.{Action}
use peerd_oci.Action.Rules.{Returns, Returns-pure, Returns-raise, Returns-bind}
use peerd_oci.Cache.Item.{World}
use peerd_oci.Cache.FileCache.{Blocks, get_or_create, read_block, ℤ, pos, eq64, bytes_mismatch}
use peerd_oci.Int64.Laws.{eq64_sound}

module _ (B : Blocks) (path : Bytes) {E : Type 0} where
  read_block-Returns :
      (p : ℕ) (count : ℤ)
      → Returns (λ b. pos (length b) ≡ count) (read_block B path {E = E} p count)
  unfolding read_block
  read_block-Returns p count = Returns-bind _ _ λ _. Returns-bind _ _ λ b. Returns-bind _ _ λ _.
      elim (Bool-cases (eq64 (pos (length b)) count)) [
        | inl same ↦ rw same (Returns-pure b (eq64_sound _ _ same))
        | inr other ↦ rw other (Returns-raise bytes_mismatch)
      ]

  get_or_create-Returns :
      (name : Bytes) (offset count : ℤ) (fetch : Action E Bytes)
      → Returns (λ b. pos (length b) ≡ count) (get_or_create B path name offset count fetch)
  unfolding get_or_create
  get_or_create-Returns name offset count fetch =
      Returns-bind _ _ λ _. Returns-bind _ _ λ p. Returns-bind _ _ λ _. read_block-Returns p count

  -- A block that `GetOrCreate` returns without an error has exactly `count` bytes, from whatever
  -- state of the cache and the disk, whatever calls fail, and whatever the fetch returns.
  pub get_or_create-size :
      (name : Bytes) (offset count : ℤ) (fetch : Action E Bytes) (w : World B.State E) {b : Bytes}
      → (get_or_create B path name offset count fetch w).0 ≡ ok b
      → pos (length b) ≡ count
  get_or_create-size name offset count fetch w h =
      (get_or_create-Returns name offset count fetch).at w h
