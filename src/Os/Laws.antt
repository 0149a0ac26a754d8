-- ===== src/Os/Laws.antt =====
-- The calls on a disk that meets no fault.
use peerd_oci.Prelude.{
  arith, ◌≡◌, ℕ, [], take, Bytes, ap, none, ok, length, replicate, take_of_length-le, ◌+◌, ◌++◌,
  length-replicate, drop-nil, append-nil,
}
use peerd_oci.Os.{
  Disk, File, met, failing, later_faults, stat, read_at, update, write_at, truncate, write,
}

module _ (d : Disk) (calm : d.faults ≡ []) where
  pub met-calm : met d ≡ d
  unfolding met
  met-calm =
      let e : later_faults d.faults ≡ d.faults = rw calm in ap (λ fs. record d { faults = fs }) e

  pub failing-calm : failing d ≡ none
  unfolding failing
  failing-calm = rw calm

  pub stat-calm : (f : File) → stat f d ≡ (ok (length (d.content f.inode)), d)
  unfolding stat
  stat-calm f = rw (failing-calm, stat) (ap (λ e. (ok (length (d.content f.inode)), e)) met-calm)

  -- Reading all of a file from its start.
  pub read_at-calm :
      (f : File) → read_at f (length (d.content f.inode)) 0 d ≡ (d.content f.inode, none, d)
  unfolding read_at
  read_at-calm f =
      let c = d.content f.inode in
      let whole : take (length c) c ≡ c = take_of_length-le (length c) c (omega arith) in
      rw (failing-calm, read_at) (ground (arith, whole, met-calm))

  pub truncate-calm :
      (f : File) → truncate f d ≡ (ok tt, record d { content = update d.content f.inode [] })
  unfolding truncate
  truncate-calm f =
      rw (failing-calm, truncate)
        (ap (λ (e : Disk). (ok tt, record e { content = update d.content f.inode [] })) met-calm)

  pub write-calm :
      (f : File) (b : Bytes)
      → write f b d ≡ (
        ok (length b),
        record f { position = f.position + length b },
        record d { content = update d.content f.inode (write_at (d.content f.inode) f.position b) },
      )
  unfolding write
  write-calm f b =
      rw (failing-calm, write)
        (ap
          (λ (e : Disk). (
            ok (length b),
            record f { position = f.position + length b },
            record e {
              content = update d.content f.inode (write_at (d.content f.inode) f.position b);
            },
          ))
          met-calm)

take-replicate : (k : ℕ) → take k (replicate {A = ℕ} k 0) ≡ replicate k 0
take-replicate k = take_of_length-le k (replicate k 0) (omega (arith, length-replicate k (◌+◌ 0 0)))

-- What a write at an offset leaves in a file that was empty: zeros up to the offset.
pub write_at-nil : (k : ℕ) (b : Bytes) → write_at [] k b ≡ replicate k 0 ++ b
unfolding write_at
write_at-nil k b =
    ground
      (arith, take-replicate k, drop-nil {A = ℕ} (k + length b), append-nil (replicate k 0 ++ b))
