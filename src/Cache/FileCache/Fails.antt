-- ===== src/Cache/FileCache/Fails.antt =====
-- `GetOrCreate` on a block whose fetch fails: the file of the item loses its name, and the item stays.
use peerd_oci.Action.Steps.{attempt-ok, attempt-err, bind-ok, bind-err}
use peerd_oci.Action.{pure, raise, Attempt, gets, attempt, Action, done, failed}
use peerd_oci.Cache.Item.Laws.{held, lock_item-held, unlock_item-held, held-file}
use peerd_oci.Cache.Item.{remove_file, on_disk, name_of, on_env, unlock_item}
use peerd_oci.Cache.FileCache.Hit.{Holds, stat_held}
use peerd_oci.Cache.FileCache.Fetch.{released}
use peerd_oci.Cache.FileCache.{
  Blocks, World, ensure_filled, get_or_create, on_env, unlock_item, gets, raise, pure, ℤ, get_key,
  pos, eq64, stat_item, lock_item,
}
use peerd_oci.Os.Laws.{failing-calm, met-calm}
use peerd_oci.Prelude.Dict.{Dict}
use peerd_oci.Os.{remove, Disk, File}
use peerd_oci.Prelude.{
  ◌∷◌, ◌≡◌, Bytes, none, [], ok, ◌⊎◌, err, not_exist, Option-cases, inl, inr, ap, sym, arith, ℕ,
  ◌∙◌, refl, some, Error, length, ◌≢◌, false,
}
use peerd_oci.Prelude.Dict
use peerd_oci.Cache.Item.{fill}
use peerd_oci.Prelude.{false}
use peerd_oci.Action.Steps.{bind-err}

erase-absent : {V : Type 0} (k : Bytes) (m : Dict V) → Dict.lookup k m ≡ none → Dict.erase k m ≡ m
unfolding Dict.lookup Dict.erase
erase-absent k [] absent = refl
erase-absent k ((j, v) ∷ m) absent = ground (arith, erase-absent k m)

-- The disk without the name.
abbrev pub unnamed : Bytes → Disk → Disk
unnamed name d = record d { names = Dict.erase name d.names }

remove-calm :
    (name : Bytes) (d : Disk)
    → d.faults ≡ []
    → (remove name d ≡ (ok tt, unnamed name d)) ⊎ (remove name d ≡ (err not_exist, unnamed name d))
unfolding remove
remove-calm name d calm = elim (Option-cases (Dict.lookup name d.names)) [
  | inl absent ↦ inr (
      rw (failing-calm d calm, remove, absent)
        (ap (λ e. (err not_exist, e)) (met-calm d calm)
          ∙ ap (λ m. (err not_exist, record d { names = m }))
              (sym (erase-absent name d.names absent))))
  | inr (i, there) ↦ inl (
      rw (failing-calm d calm, remove, there)
        (ap (λ (e : Disk). (ok tt, record e { names = Dict.erase name d.names }))
          (met-calm d calm)))
]

module _ {R E : Type 0} (p : ℕ) (f : File) (w : World R E) (opened : (w.items p).file ≡ some f)
    (calm : w.disk.faults ≡ []) where
  remove_file-calm : remove_file p w ≡ (ok tt, record w { disk = unnamed f.name w.disk })
  unfolding remove_file on_disk name_of pure
  remove_file-calm =
      let call = on_disk {R = R} {E = E} (remove f.name) in
      let after : World R E = record w { disk = unnamed f.name w.disk } in
      let tried : (a : Attempt (Unit {0})) × (attempt call w ≡ (ok a, after)) =
        elim (remove-calm f.name w.disk calm) [
          | inl gone ↦ (done tt, attempt-ok call w (ap (λ r. (r.0, record w { disk = r.1 })) gone))
          | inr never ↦ (
            failed not_exist,
            attempt-err call w (ap (λ r. (r.0, record w { disk = r.1 })) never),
          )
        ] in
      bind-ok (name_of p) _ w (rw (opened, name_of) refl) ∙ bind-ok (attempt call) _ w tried.1

module _ {R E : Type 0} (p : ℕ) (f : File) (w : World R E) (opened : (w.items p).file ≡ some f)
    (calm : w.disk.faults ≡ []) where
  fill-fails :
      (fetch : Action E Bytes) (x : Error) (e : E)
      → fetch w.env ≡ (err x, e)
      → fill p fetch w ≡ (err x, record w { env = e; disk = unnamed f.name w.disk })
  unfolding fill on_env raise
  fill-fails fetch x e fetched =
      bind-ok (attempt (on_env fetch)) _ w
        (attempt-err (on_env fetch) w (ap (λ r. (r.0, record w { env = r.1 })) fetched))
      ∙ bind-ok (remove_file p) _ (record w { env = e })
          (remove_file-calm p f (record w { env = e }) opened calm)

-- The state after a fetch for the item failed.
abbrev pub lost : {R E : Type 0} → ℕ → File → World R E → E → World R E
lost p f w e = released p (record (held p w) { env = e; disk = unnamed f.name w.disk })

module _ {R E : Type 0} (p : ℕ) (f : File) (w : World R E) (e : E) where
  pub lost-Holds : {c : Bytes} → Holds w p f c → Holds (lost p f w e) p f c
  lost-Holds h = record {
    unlocked = ground arith;
    opened = ground (arith, h.opened);
    content = h.content;
    calm = h.calm;
  }

module _ (B : Blocks) (path : Bytes) {E : Type 0} (w : World B.State E) (p : ℕ) (f : File)
    (c : Bytes) (h : Holds w p f c) where
  pub ensure_filled_fails :
      (n : ℕ) (fetch : Action E Bytes) (x : Error) (e : E)
      → length c ≢ n
      → fetch w.env ≡ (err x, e)
      → ensure_filled B path p (pos n) fetch w ≡ (err x, lost p f w e)
  unfolding ensure_filled unlock_item pure raise
  ensure_filled_fails n fetch x e differ fetched =
      let other : eq64 (pos (length c)) (pos n) ≡ false = ground arith in
      let stat = attempt-ok (stat_item p) (held p w) (stat_held B path w p f c h) in
      bind-ok (lock_item p) _ w (lock_item-held p w h.unlocked)
      ∙ bind-ok (attempt (stat_item p)) _ (held p w) stat
      ∙ rw other (
          bind-ok (unlock_item p) _ (held p w) (unlock_item-held p w h.unlocked)
          ∙ bind-ok (lock_item p) _ w (lock_item-held p w h.unlocked)
          ∙ bind-ok (attempt (stat_item p)) _ (held p w) stat
          ∙ rw other (
              bind-ok (attempt (fill p fetch)) _ (held p w) (
                attempt-err (fill p fetch) (held p w)
                  (fill-fails p f (held p w) (held-file p w ∙ h.opened) h.calm fetch x e fetched))
              ∙ bind-ok (unlock_item p) _ _ refl))

  -- A block of another size whose fetch fails: the error is returned.
  pub get_or_create_fails :
      (name : Bytes) (off : ℤ) (n : ℕ) (fetch : Action E Bytes) (x : Error) (e : E)
      → B.get (get_key path name off) w.blocks ≡ some p
      → length c ≢ n
      → fetch w.env ≡ (err x, e)
      → get_or_create B path name off (pos n) fetch w ≡ (err x, lost p f w e)
  unfolding get_or_create gets pure
  get_or_create_fails name off n fetch x e found differ fetched =
      bind-ok (gets (λ w. B.get (get_key path name off) w.blocks)) _ w (ap (λ v. (ok v, w)) found)
      ∙ bind-ok (pure p) _ w refl
      ∙ bind-err (ensure_filled B path p (pos n) fetch) _ w
          (ensure_filled_fails n fetch x e differ fetched)
