-- ===== src/Os.antt =====
-- What the program uses of Go's `os`: files with an offset of their own, and a directory of names.
-- Each call that the system may refuse asks the list of faults first: an entry `some n` makes the
-- call fail, a write after it has written `n` bytes. An empty list makes every call succeed.
pub mod Laws
use peerd_oci.Prelude.{
  ℕ, Bytes, List, Option, Outcome, none, ◌∷◌, if◌then◌else◌, Error, take, ◌+◌, some, ◌==◌, ok, [],
  drop, ◌++◌, length, err, io_failure, ltb, replicate, not_exist, eof, ◌-◌,
}
use peerd_oci.Prelude.Dict
use peerd_oci.Prelude.Dict.{Dict}

-- The contents of the files stand apart from their names: a file that was removed can be read and
-- written as long as it is open.
pub record Disk : Type 0 where
  pub content : ℕ → Bytes
  pub names : Dict ℕ
  pub next : ℕ
  pub faults : List (Option ℕ)

-- An open file: its name, its contents' place, and the offset of the next write.
pub record File : Type 0 where
  pub name : Bytes
  pub inode : ℕ
  pub position : ℕ

-- The next fault, and the disk that has met it.
next_fault : List (Option ℕ) → Option ℕ
next_fault [] = none
next_fault (f ∷ fs) = f

later_faults : List (Option ℕ) → List (Option ℕ)
later_faults [] = []
later_faults (f ∷ fs) = fs

unfoldable pub met : Disk → Disk
unfolding later_faults
met d = record d { faults = later_faults d.faults }

unfoldable pub failing : Disk → Option ℕ
unfolding next_fault
failing d = next_fault d.faults

abbrev pub update : (ℕ → Bytes) → ℕ → Bytes → ℕ → Bytes
update f i b j = if i == j then b else f j

-- `os.MkdirAll`: the directories themselves are not modelled.
unfoldable pub mkdir_all : Disk → Outcome (Unit {0}) × Disk
mkdir_all d = elim (failing d) [ none ↦ (ok tt, met d) | some n ↦ (err io_failure, met d) ]

-- `os.OpenFile(name, O_CREATE|O_RDWR, 0644)`: an existing file keeps its contents.
open_named : Bytes → Option ℕ → Disk → File × Disk
open_named name (some i) d = (record { name = name; inode = i; position = 0 }, d)
open_named name none d = (
  record { name = name; inode = d.next; position = 0 },
  record d {
    content = update d.content d.next [];
    names = Dict.insert name d.next d.names;
    next = d.next + 1;
  },
)

unfoldable pub open_file : Bytes → Disk → Outcome File × Disk
unfolding open_named
open_file name d = elim (failing d) [
  | none ↦ let (f, d') = open_named name (Dict.lookup name d.names) (met d) in (ok f, d')
  | some n ↦ (err io_failure, met d)
]

-- `File.Stat`, for the size.
unfoldable pub stat : File → Disk → Outcome ℕ × Disk
stat f d = elim (failing d) [
  | none ↦ (ok (length (d.content f.inode)), met d)
  | some n ↦ (err io_failure, met d)
]

-- `File.ReadAt(buf, off)` for a buffer of `n` bytes: what was read, with an error if that is less.
unfoldable pub read_at : File → ℕ → ℕ → Disk → Bytes × Option Error × Disk
read_at f n off d = elim (failing d) [
  | none ↦
      let chunk = take n (drop off (d.content f.inode)) in
      (chunk, if ltb (length chunk) n then some eof else none, met d)
  | some k ↦ (take k (take n (drop off (d.content f.inode))), some io_failure, met d)
]

-- The contents after a write of `b` at `pos`; a gap before it is filled with zeros.
unfoldable pub write_at : Bytes → ℕ → Bytes → Bytes
write_at content pos b =
    take pos (content ++ replicate (pos - length content) 0) ++ b ++ drop (pos + length b) content

-- `File.Truncate(0)`: the offset of the next write stays where it is.
unfoldable pub truncate : File → Disk → Outcome (Unit {0}) × Disk
truncate f d = elim (failing d) [
  | none ↦ (ok tt, record (met d) { content = update d.content f.inode [] })
  | some n ↦ (err io_failure, met d)
]

-- The offset and the contents after `b` was written.
wrote : File → Bytes → Disk → File × Disk
wrote f b d = (
  record f { position = f.position + length b },
  record (met d) { content = update d.content f.inode (write_at (d.content f.inode) f.position b) },
)

-- `File.Write(b)`: the number of bytes written, the file with its new offset, and the disk.
unfoldable pub write : File → Bytes → Disk → Outcome ℕ × File × Disk
unfolding wrote
write f b d = elim (failing d) [
  | none ↦ let (f', d') = wrote f b d in (ok (length b), f', d')
  | some n ↦ let (f', d') = wrote f (take n b) d in (err io_failure, f', d')
]

-- `os.Remove(name)`.
unfoldable pub remove : Bytes → Disk → Outcome (Unit {0}) × Disk
remove name d = elim (failing d) [
  | none ↦ elim (Dict.lookup name d.names) [
    | none ↦ (err not_exist, met d)
    | some i ↦ (ok tt, record (met d) { names = Dict.erase name d.names })
  ]
  | some n ↦ (err io_failure, met d)
]
