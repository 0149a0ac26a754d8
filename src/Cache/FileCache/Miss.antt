-- ===== src/Cache/FileCache/Miss.antt =====
-- `GetOrCreate` on a block that is not in the cache. The disk is in order, and the cache takes the
-- new item.
use peerd_oci.Cache.FileCache.Fetch.{refilled, ensure_filled_refill, moved, refilled-Holds}
use peerd_oci.Action.Steps.{bind-ok, attempt-ok}
use peerd_oci.Int64.{add32}
use peerd_oci.Cache.FileCache.Hit.{Holds, read_block_hit}
use peerd_oci.Cache.Item.{update_item, on_disk, new_item}
use peerd_oci.Os.Laws.{failing-calm, met-calm}
use peerd_oci.Prelude.Dict
use peerd_oci.Prelude.{
  ℕ, Bytes, ◌≡◌, [], true, ◌+◌, ok, none, some, false, arith, ap, ◌∙◌, refl, sym, length, ◌<◌,
}
use peerd_oci.Os.{Disk, File, mkdir_all, open_file, update}
use peerd_oci.Cache.FileCache.{
  Blocks, get_or_create, World, new_item, find_or_make, lock_cache, ℤ, unlock_cache, set_block,
  get_key, pos, ensure_filled, read_block,
}
use peerd_oci.Action.{Action, gets, modify, pure, attempt}

-- A file that is new on the disk.
abbrev pub new_file : Bytes → Disk → File
new_file key d = record { name = key; inode = d.next; position = 0 }

abbrev pub with_file : Bytes → Disk → Disk
with_file key d = record d {
  content = update d.content d.next [];
  names = Dict.insert key d.next d.names;
  next = d.next + 1;
}

pub mkdir_all-calm : (d : Disk) → d.faults ≡ [] → mkdir_all d ≡ (ok tt, d)
unfolding mkdir_all
mkdir_all-calm d calm = rw (failing-calm d calm, mkdir_all) (ap (λ e. (ok tt, e)) (met-calm d calm))

-- A file that is on the disk is opened with its contents.
pub open_file-old :
    (key : Bytes) (i : ℕ) (d : Disk)
    → d.faults ≡ []
    → Dict.lookup key d.names ≡ some i
    → open_file key d ≡ (ok (record { name = key; inode = i; position = 0 }), d)
unfolding open_file
open_file-old key i d calm there =
    rw (failing-calm d calm, open_file, there)
      (ap (λ e. (ok (record { name = key; inode = i; position = 0 }), e)) (met-calm d calm))

pub open_file-new :
    (key : Bytes) (d : Disk)
    → d.faults ≡ []
    → Dict.lookup key d.names ≡ none
    → open_file key d ≡ (ok (new_file key d), with_file key d)
unfolding open_file
open_file-new key d calm absent =
    rw (failing-calm d calm, open_file, absent)
      (ap (λ e. (ok (new_file key e), with_file key e)) (met-calm d calm))

module _ (B : Blocks) (path : Bytes) {E : Type 0} (w : World B.State E) (key : Bytes)
    (r : B.State) where
  -- The state in which an item of the key was made with the file `f`, on the disk `d`.
  abbrev pub made_from : File → Disk → World B.State E
  made_from f d = record w {
    disk = d;
    items = update_item w.items w.next_item (record { key = key; file = some f; locked = false });
    next_item = w.next_item + 1;
    fd_count = add32 w.fd_count (pos 1);
    blocks = r;
    locked = false;
  }

  module _ (f : File) (d : Disk) (opens : open_file key w.disk ≡ (ok f, d)) where
    -- The state before the library gets the item.
    abbrev opened : World B.State E
    opened = record (made_from f d) { blocks = w.blocks; locked = true }

    new_item-calm :
        w.disk.faults ≡ [] → new_item key (record w { locked = true }) ≡ (ok w.next_item, opened)
    unfolding new_item on_disk modify gets pure
    new_item-calm calm =
        let start : World B.State E = record w { locked = true } in
        let counted : World B.State E = record start { fd_count = add32 w.fd_count (pos 1) } in
        bind-ok (on_disk mkdir_all) _ start
          (ap (λ x. (x.0, record start { disk = x.1 })) (mkdir_all-calm w.disk calm))
        ∙ bind-ok (modify (λ w. record w { fd_count = add32 w.fd_count (pos 1) })) _ start refl
        ∙ bind-ok (on_disk (open_file key)) _ counted
            (ap (λ x. (x.0, record counted { disk = x.1 })) opens)
        ∙ bind-ok (gets (λ w. w.next_item)) _ _ refl
        ∙ bind-ok (modify _) _ _ refl

    find_or_make-opens :
        w.locked ≡ false
        → B.get key w.blocks ≡ none
        → w.disk.faults ≡ []
        → B.set key w.next_item w.blocks ≡ (true, r)
        → find_or_make B path key w ≡ (ok w.next_item, made_from f d)
    unfolding find_or_make lock_cache unlock_cache set_block gets pure
    find_or_make-opens free missing calm taken =
        let held : World B.State E = record w { locked = true } in
        bind-ok (lock_cache B path) _ w (rw free)
        ∙ bind-ok (gets (λ w. B.get key w.blocks)) _ held (ap (λ v. (ok v, held)) missing)
        ∙ bind-ok (attempt (new_item key)) _ held
            (attempt-ok (new_item key) held (new_item-calm calm))
        ∙ bind-ok (set_block B path key w.next_item) _ opened
            (ap (λ x. (ok x.0, record opened { blocks = x.1 })) taken)
        ∙ bind-ok (unlock_cache B path) _ _ refl

  -- The state in which the item was made with a new file.
  abbrev pub made : World B.State E
  made = made_from (new_file key w.disk) (with_file key w.disk)

  pub made-Holds : w.disk.faults ≡ [] → Holds made w.next_item (new_file key w.disk) []
  made-Holds calm = record {
    unlocked = ground arith;
    opened = ground arith;
    content = ground arith;
    calm = calm;
  }

module _ (B : Blocks) (path : Bytes) {E : Type 0} (w : World B.State E) where
  -- On a block that is not in the cache, `GetOrCreate` goes on as if its item had been there, with the
  -- file that was opened. Nobody holds the lock of the cache, the disk is in order, and the library
  -- takes the new item.
  pub get_or_create_miss :
      (name : Bytes) (off : ℤ) (n : ℕ) (fetch : Action E Bytes) (r : B.State) (f : File) (d : Disk)
      → w.locked ≡ false
      → w.disk.faults ≡ []
      → B.get (get_key path name off) w.blocks ≡ none
      → open_file (get_key path name off) w.disk ≡ (ok f, d)
      → B.set (get_key path name off) w.next_item w.blocks ≡ (true, r)
      → B.get (get_key path name off) r ≡ some w.next_item
      → get_or_create B path name off (pos n) fetch w
        ≡ get_or_create B path name off
            (pos n)
            fetch
            (made_from B path w (get_key path name off) r f d)
  unfolding get_or_create gets pure
  get_or_create_miss name off n fetch r f d free calm missing opens taken found =
      let key = get_key path name off in
      let m = made_from B path w key r f d in
      bind-ok (gets (λ w. B.get key w.blocks)) _ w (ap (λ v. (ok v, w)) missing)
      ∙ bind-ok (find_or_make B path key) _ w
          (find_or_make-opens B path w key r f d opens free missing calm taken)
      ∙ sym (
          bind-ok (gets (λ w. B.get key w.blocks)) _ m (ap (λ v. (ok v, m)) found)
          ∙ bind-ok (pure w.next_item) _ m refl)

  -- A block that is not in the cache, nor on the disk, is fetched once, stored under a new item, and
  -- returned, if the fetch returns as many bytes as were asked for, and at least one. Nobody holds the
  -- lock of the cache, the disk is in order, and the library takes the new item.
  pub get_or_create_new :
      (name : Bytes) (off : ℤ) (n : ℕ) (fetch : Action E Bytes) (b : Bytes) (e : E) (r : B.State)
      → w.locked ≡ false
      → w.disk.faults ≡ []
      → B.get (get_key path name off) w.blocks ≡ none
      → Dict.lookup (get_key path name off) w.disk.names ≡ none
      → B.set (get_key path name off) w.next_item w.blocks ≡ (true, r)
      → fetch w.env ≡ (ok b, e)
      → length b ≡ n
      → 0 < n
      → get_or_create B path name off (pos n) fetch w ≡ (
        ok b,
        refilled w.next_item
            (new_file (get_key path name off) w.disk)
            (made B path w (get_key path name off) r)
            b
            e,
      )
  unfolding get_or_create gets
  get_or_create_new name off n fetch b e r free calm missing absent taken fetched size some_bytes =
      let key = get_key path name off in
      let f = new_file key w.disk in
      let m = made B path w key r in
      let h = made-Holds B path w key r calm in
      bind-ok (gets (λ w. B.get key w.blocks)) _ w (ap (λ v. (ok v, w)) missing)
      ∙ bind-ok (find_or_make B path key) _ w (
          find_or_make-opens B path w key r f (with_file key w.disk)
            (open_file-new key w.disk calm absent) free missing calm taken)
      ∙ bind-ok (ensure_filled B path w.next_item (pos n) fetch) _ m (
          ensure_filled_refill B path m w.next_item f [] h n fetch b e
            (λ same. absurd (omega (arith, same, some_bytes))) fetched size)
      ∙ ap (λ k. read_block B path w.next_item (pos k) (refilled w.next_item f m b e)) (sym size)
      ∙ read_block_hit B path (refilled w.next_item f m b e) w.next_item (moved w.next_item f m b e)
          b (refilled-Holds w.next_item f m b e h)
