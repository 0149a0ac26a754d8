-- ===== src/Cache/Item/Laws.antt =====
-- Items on a disk that meets no fault: locks, sizes, reads and writes.
use peerd_oci.Action.{pure, attempt}
use native.Mathlib.Nat.{sub-zero}
use native.Mathlib.Decide.{dec_lt}
use peerd_oci.Action.Steps.{bind-ok, attempt-ok}
use peerd_oci.Prelude.{
  ℕ, true, ◌≡◌, false, some, ok, [], Bytes, length, arith, ◌∙◌, ap, none, ◌≤◌, ◌<◌, sym, ==_refl,
  nil_of_length-zero, le→ltb_false, ◌-◌, ◌++◌, zero, refl,
}
use peerd_oci.Os.{Disk, File}
use peerd_oci.Os.Laws.{stat-calm, read_at-calm}
use peerd_oci.Cache.Item.{
  World, update_item, lock_item, unlock_item, stat_item, file_of, on_disk, bytes, read_from_start,
  read_loop, check_read, stat, pure, read_at, suc,
}
use mathlib.Core.Path.{fun_ext}

read_loop_stop :
    (left : ℕ) (f : File) (size : ℕ) (got : Bytes) (d : Disk)
    → size ≤ length got
    → read_loop left f size got d ≡ (got, none, d)
unfolding read_loop
read_loop_stop zero f size got d h = refl
read_loop_stop (suc left) f size got d h = rw (le→ltb_false _ _ h)

read_loop_round :
    (left : ℕ) (f : File) (size : ℕ) (got : Bytes) (d : Disk) {chunk : Bytes} {d' : Disk}
    → length got < size
    → read_at f (size - length got) (length got) d ≡ (chunk, none, d')
    → read_loop (suc left) f size got d ≡ read_loop left f size (got ++ chunk) d'
unfolding read_loop
read_loop_round left f size got d h e = ground arith

-- The loop reads all of a file.
read_loop-calm :
    (f : File) (d : Disk)
    → d.faults ≡ []
    → read_loop 2 f (length (d.content f.inode)) [] d ≡ (d.content f.inode, none, d)
read_loop-calm f d calm =
    let c = d.content f.inode in
    elim (dec_lt 0 (length c)) [
      | yes some_left ↦
          read_loop_round 1 f (length c) [] d some_left (rw sub-zero (read_at-calm d calm f))
          ∙ read_loop_stop 1 f (length c) c d (omega arith)
      | no empty ↦
          read_loop_stop 2 f (length c) [] d (omega arith)
          ∙ ap (λ b. (b, none, d)) (sym (nil_of_length-zero c (omega arith)))
    ]

module _ {R E : Type 0} (p : ℕ) (w : World R E) where
  -- The state in which the item is locked.
  abbrev pub held : World R E
  held = record w { items = update_item w.items p (record (w.items p) { locked = true }) }

  pub lock_item-held : (w.items p).locked ≡ false → lock_item p w ≡ (ok tt, held)
  unfolding lock_item
  lock_item-held free = rw (free, lock_item)

  unlock_items :
      (w.items p).locked ≡ false
      → update_item held.items p (record (held.items p) { locked = false }) ≡ w.items
  unlock_items free = fun_ext λ q. ground arith

  pub unlock_item-held : (w.items p).locked ≡ false → unlock_item p held ≡ (ok tt, w)
  unfolding unlock_item
  unlock_item-held free = rw (unlock_items free)

  module _ (f : File) (open_file : (w.items p).file ≡ some f) (calm : w.disk.faults ≡ []) where
    abbrev content : Bytes
    content = w.disk.content f.inode

    pub file_of-calm : file_of p w ≡ (ok f, w)
    unfolding file_of
    file_of-calm = rw (open_file, file_of)

    pub stat_item-calm : stat_item p w ≡ (ok (length content), w)
    unfolding stat_item on_disk
    stat_item-calm =
        bind-ok (file_of p) (λ g. on_disk (stat g)) w file_of-calm
        ∙ ap (λ r. (r.0, record w { disk = r.1 })) (stat-calm w.disk calm f)

    pub read_from_start-calm : read_from_start p w ≡ (ok content, w)
    unfolding read_from_start on_disk check_read
    read_from_start-calm =
        bind-ok (stat_item p) _ w stat_item-calm
        ∙ bind-ok (file_of p) _ w file_of-calm
        ∙ rw (read_loop-calm f w.disk calm, ==_refl)

    pub bytes-calm : bytes p w ≡ (ok content, w)
    unfolding bytes pure
    bytes-calm =
        bind-ok (attempt (read_from_start p)) _ w
          (attempt-ok (read_from_start p) w read_from_start-calm)

module _ {R E : Type 0} (p : ℕ) (w : World R E) where
  pub held-file : ((held p w).items p).file ≡ (w.items p).file
  held-file = ground arith

  pub held-locked : ((held p w).items p).locked ≡ true
  held-locked = ground arith
