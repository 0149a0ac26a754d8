-- ===== src/Cache/Item.antt =====
-- pkg/cache/item.go: a block of a file that is kept on disk. An item is shared by pointer, so it is
-- a number here, and the items themselves stand in the state.
pub mod Laws
use peerd_oci.Prelude.{
  Bytes, ℕ, Outcome, Option, Bool, if◌then◌else◌, ok, none, [], some, true, ◌==◌, err, panic,
  blocked, false, Error, io_failure, length, ◌+◌, suc, ◌-◌, unexpected_eof, ◌++◌, eof, ltb, zero,
}
use peerd_oci.Os.{Disk, File, mkdir_all, open_file, stat, read_at, truncate, write, remove}
use peerd_oci.Cache.SyncMap.{SyncMap}
use peerd_oci.Int64.{ℤ, pos, negsuc, add32}
use peerd_oci.Action.{Action, pure, raise, lift, gets, modify, ◌>>=◌, ◌>>◌, attempt, done, failed}

pub record Item : Type 0 where
  pub key : Bytes
  pub file : Option File
  pub locked : Bool

-- The state of a cache: `blocks` is that of the library's cache of items, `env` that of whatever
-- the blocks are fetched from.
pub record World (R E : Type 0) : Type 0 where
  pub disk : Disk
  pub items : ℕ → Item
  pub next_item : ℕ
  pub fd_count : ℤ
  pub blocks : R
  pub sizes : SyncMap ℤ
  pub locked : Bool
  pub env : E

abbrev pub update_item : (ℕ → Item) → ℕ → Item → ℕ → Item
update_item f p i q = if p == q then i else f q

-- The loop of `readFromStart`: what was read, and the error that ended it. Each round without an
-- error reads all that is left, so `left` rounds are enough if there are two.
unfoldable pub read_loop : ℕ → File → ℕ → Bytes → Disk → Bytes × Option Error × Disk
read_loop zero f size got d = (got, none, d)
read_loop (suc left) f size got d =
    let (chunk, failure, d') = read_at f (size - length got) (length got) d in
    let more = read_loop left f size (got ++ chunk) d' in
    let next : Bytes × Option Error × Disk = elim failure [
      | none ↦ more
      | some e ↦ (got ++ chunk, some e, d')
    ] in
    if ltb (length got) size then next else (got, none, d)

-- What `readFromStart` makes of it: reaching the end of the file is no error.
unfoldable pub check_read : ℕ → Bytes → Option Error → Outcome Bytes
check_read size got none = if length got == size then ok got else err unexpected_eof
check_read size got (some eof) = if length got == size then ok got else err unexpected_eof
check_read size got (some e) = err e

module _ {R E : Type 0} where
  -- A call of the operating system.
  unfoldable pub on_disk : {A : Type 0} → (Disk → Outcome A × Disk) → Action (World R E) A
  on_disk call w = let (r, d) = call w.disk in (r, record w { disk = d })

  -- A call of the code that fetches.
  unfoldable pub on_env : {A : Type 0} → Action E A → Action (World R E) A
  on_env call w = let (r, e) = call w.env in (r, record w { env = e })

  -- The open file of an item; a call on a file that was closed fails.
  unfoldable pub file_of : ℕ → Action (World R E) File
  file_of p w = elim (w.items p).file [ none ↦ (err io_failure, w) | some f ↦ (ok f, w) ]

  -- The name of the file; on a closed one the program panics.
  unfoldable pub name_of : ℕ → Action (World R E) Bytes
  name_of p w = elim (w.items p).file [ none ↦ (panic, w) | some f ↦ (ok f.name, w) ]

  unfoldable pub stat_item : ℕ → Action (World R E) ℕ
  stat_item p = do f ← file_of p; on_disk (stat f)

  unfoldable pub lock_item : ℕ → Action (World R E) (Unit {0})
  lock_item p w = elim (w.items p).locked [
    | true ↦ (blocked, w)
    | false ↦
        (ok tt, record w { items = update_item w.items p (record (w.items p) { locked = true }) })
  ]

  unfoldable pub unlock_item : ℕ → Action (World R E) (Unit {0})
  unlock_item p w =
      (ok tt, record w { items = update_item w.items p (record (w.items p) { locked = false }) })

  -- `os.Remove(i.file.Name())`, where an error is only logged.
  unfoldable pub remove_file : ℕ → Action (World R E) (Unit {0})
  remove_file p = do name ← name_of p; _ ← attempt (on_disk (remove name)); pure tt

  -- `item.drop`, which the cache calls when it gives the item up.
  unfoldable pub drop_item : ℕ → Action (World R E) (Unit {0})
  drop_item p = do
    lock_item p
    modify (λ w. record w { fd_count = add32 w.fd_count (negsuc 0) })
    remove_file p
    modify (λ w. record w { items = update_item w.items p (record (w.items p) { file = none }) })
    unlock_item p

  unfoldable pub read_from_start : ℕ → Action (World R E) Bytes
  read_from_start p = do
    size ← stat_item p
    f ← file_of p
    on_disk
        (λ d. let (got, failure, d') = read_loop 2 f size [] d in (check_read size got failure, d'))

  -- `item.bytes`: an error is logged, with the name of the file.
  unfoldable pub bytes : ℕ → Action (World R E) Bytes
  bytes p = do
    b ← attempt (read_from_start p)
    elim b [ done content ↦ pure content | failed e ↦ do _ ← name_of p; pure [] ]

  unfoldable pub put_file : ℕ → File → Action (World R E) (Unit {0})
  put_file p f =
      modify
        (λ w. record w { items = update_item w.items p (record (w.items p) { file = some f }) })

  -- `file.Write(buff)` on the file of an item, which moves the offset of the file.
  unfoldable pub write_item : ℕ → Bytes → Action (World R E) ℕ
  write_item p buff = do
    f ← file_of p
    (r, f') ← on_disk (λ d. let (r, f', d') = write f buff d in (ok (r, f'), d'))
    put_file p f'
    lift r

  -- `writeAll`.
  unfoldable pub write_all : ℕ → Bytes → Action (World R E) ℕ
  write_all p buff = do
    f ← file_of p
    on_disk (truncate f)
    l ← attempt (write_item p buff)
    elim l [ done n ↦ pure n | failed e ↦ do remove_file p; raise e ]

  -- `item.fill`.
  unfoldable pub fill : ℕ → Action E Bytes → Action (World R E) ℕ
  fill p fetch = do
    buffer ← attempt (on_env fetch)
    elim buffer [ done b ↦ write_all p b | failed e ↦ do remove_file p; raise e ]

  -- `newItem`: the pointer of the item. The count of files is raised before the file is opened.
  unfoldable pub new_item : Bytes → Action (World R E) ℕ
  new_item key = do
    on_disk mkdir_all
    modify (λ w. record w { fd_count = add32 w.fd_count (pos 1) })
    f ← on_disk (open_file key)
    p ← gets (λ w. w.next_item)
    modify (λ w. record w {
      items = update_item w.items p (record { key = key; file = some f; locked = false });
      next_item = p + 1;
    })
    pure p
