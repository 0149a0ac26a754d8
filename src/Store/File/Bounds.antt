-- ===== src/Store/File/Bounds.antt =====
-- How many bytes `ReadAt` and `Read` of file.go write into a buffer.
use peerd_oci.Math.{min_int}
use peerd_oci.Prelude.{
  ℕ, List, Bytes, length, ◌≡◌, take, ok, ◌≤◌, arith, suc, ◌∷◌, zero, [], Bool, ◌||◌, if◌then◌else◌,
  not, panic, slice, ◌&&◌, ◌+◌, only_single_chunk, ◌-◌, read_at_failed, drop, subst, true, false,
}
use peerd_oci.Action.{lift}
use peerd_oci.Action.Rules.{
  Returns, Returns-pure, Returns-raise, Returns-bind, Returns-trans, Returns-lift, ok-injective,
  Returns-if, Returns-answer,
}
use peerd_oci.Store.File.{
  copy_out, min_int, pos, negsuc, ℤ, lt64, sub64, Session, Blocks, Network, read_at, read,
  ReadResult, pos_part, eq64,
}
use peerd_oci.Cache.SyncMap.{SyncMap}

length-take_le : {A : Type 0} (n : ℕ) (xs : List A) → length (take n xs) ≤ n
length-take_le zero xs = omega arith
length-take_le (suc n) [] = omega arith
length-take_le (suc n) (x ∷ xs) = omega (arith, length-take_le n xs)

-- The smaller of two sizes, if it is none below 0.
min_int-le : (k : ℕ) (size : ℤ) → pos_part (min_int (pos k) size) ≤ k
unfolding min_int
min_int-le k (pos n) = ground arith
min_int-le k (negsuc n) = ground arith

copied-Fits :
    (k : ℕ) (block b : Bytes) (from ret : ℤ) (bad : Bool)
    → pos_part ret ≤ k
    → (if bad then panic else ok (slice block (pos_part from) (pos_part from + pos_part ret)))
      ≡ ok b
    → length b ≤ k
copied-Fits k block b from ret true le e = absurd (cc)
copied-Fits k block b from ret false le e =
    let same : slice block (pos_part from) (pos_part from + pos_part ret) ≡ b = ok-injective e in
    let cut =
      length-take_le (pos_part from + pos_part ret - pos_part from) (drop (pos_part from) block) in
    subst (λ b. length b ≤ k) same (omega (arith, cut, le))

copy_out-Fits :
    (k : ℕ) (block : Bytes) (from : ℤ) (b : Bytes)
    → copy_out (pos k) block from ≡ ok b
    → length b ≤ k
unfolding copy_out
copy_out-Fits k block from b e =
    let ret = min_int (pos k) (sub64 (pos (length block)) from) in
    copied-Fits k block b from ret (lt64 ret (pos 0) || lt64 from (pos 0)) (min_int-le k _) e

module _ (B : Blocks) (N : Network) (path node : Bytes) (order : SyncMap ℤ → List Bytes)
    (k : ℕ) where
  -- What was read fits into the buffer.
  abbrev pub Fits : ReadResult → Type 0
  Fits r = length r.data_read ≤ k

  read_at-Returns : (offset : ℤ) → Returns Fits (read_at B N path node order (pos k) offset)
  unfolding read_at
  read_at-Returns offset = Returns-bind _ _ λ file_size. Returns-bind _ _ λ f.
      Returns-bind _ _ λ aligned.
        Returns-if (not (eq64 f.chunk_offset (pos 0)) && not (eq64 aligned f.chunk_offset))
          (Returns-raise only_single_chunk)
          (Returns-bind _ _ λ answer.
            Returns-answer answer (λ e. Returns-raise read_at_failed)
              λ block.
                Returns-trans (lift (copy_out (pos k) block (sub64 offset aligned))) _
                  (Returns-lift _ (copy_out-Fits k block (sub64 offset aligned)))
                  (λ copied fits. Returns-pure _ fits))

  read-Returns : Returns Fits (read B N path node order (pos k))
  unfolding read
  read-Returns = Returns-bind _ _ λ f. Returns-trans _ _ (read_at-Returns f.cur) λ ret fits.
      Returns-if ret.at_end (Returns-pure ret fits) (Returns-bind _ _ λ _. Returns-pure ret fits)

  -- `ReadAt`, at any offset, and `Read` never write more than the buffer holds, in whatever state of the
  -- cache, the disk and the network, whatever the size of the file is said to be, and whatever calls fail.
  pub read_at-Fits :
      (offset : ℤ) (s : Session B.State N.State)
      → ((r : ReadResult) → (read_at B N path node order (pos k) offset s).0 ≡ ok r → Fits r)
        × ((r : ReadResult) → (read B N path node order (pos k) s).0 ≡ ok r → Fits r)
  read_at-Fits offset s = (λ r e. (read_at-Returns offset).at s e, λ r e. read-Returns.at s e)
