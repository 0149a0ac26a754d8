-- ===== src/Cache/FileCache/Fill.antt =====
-- `GetOrCreate` on a block that has to be fetched, with the disk in order.
use peerd_oci.Prelude.{ℕ, Bytes, [], ◌≡◌, some, ◌+◌, ok, length, ◌∙◌, ap, refl}
use peerd_oci.Os.{File, update, write_at, truncate, write}
use peerd_oci.Os.Laws.{truncate-calm, write-calm}
use peerd_oci.Cache.Item.{
  World, fill, write_all, write_item, on_disk, on_env, put_file, file_of, update_item,
}
use peerd_oci.Cache.Item.Laws.{file_of-calm}
use peerd_oci.Action.{Action, modify, pure, attempt, lift}
use peerd_oci.Action.Steps.{bind-ok, attempt-ok}

module _ {R E : Type 0} (p : ℕ) (f : File) where
  -- The state after `b` was written to the emptied file of the item.
  abbrev pub written : Bytes → World R E → World R E
  written b w = record w {
    disk = record w.disk {
      content =
          update (update w.disk.content f.inode []) f.inode
            (write_at (update w.disk.content f.inode [] f.inode) f.position b);
    };
    items =
        update_item w.items p
          (record (w.items p) { file = some (record f { position = f.position + length b }) });
  }

  abbrev emptied : World R E → World R E
  emptied w = record w { disk = record w.disk { content = update w.disk.content f.inode [] } }

  write_item-calm :
      (w : World R E) (b : Bytes)
      → (w.items p).file ≡ some f
      → w.disk.faults ≡ []
      → write_item p b (emptied w) ≡ (ok (length b), written b w)
  unfolding write_item on_disk put_file modify lift
  write_item-calm w b opened calm =
      bind-ok (file_of p) _ (emptied w) (file_of-calm p (emptied w) f opened calm)
      ∙ bind-ok (on_disk (λ d. let (r, f', d') = write f b d in (ok (r, f'), d'))) _ (emptied w) (
          ap (λ r. (ok (r.0, r.1), record w { disk = r.2 })) (write-calm (emptied w).disk calm f b))
      ∙ bind-ok (put_file p (record f { position = f.position + length b })) _ _ refl

  pub write_all-calm :
      (w : World R E) (b : Bytes)
      → (w.items p).file ≡ some f
      → w.disk.faults ≡ []
      → write_all p b w ≡ (ok (length b), written b w)
  unfolding write_all on_disk pure
  write_all-calm w b opened calm =
      bind-ok (file_of p) _ w (file_of-calm p w f opened calm)
      ∙ bind-ok (on_disk (truncate f)) _ w
          (ap (λ r. (r.0, record w { disk = r.1 })) (truncate-calm w.disk calm f))
      ∙ bind-ok (attempt (write_item p b)) _ (emptied w)
          (attempt-ok (write_item p b) (emptied w) (write_item-calm w b opened calm))

  -- A fill whose fetch returns `b`.
  pub fill-calm :
      (w : World R E) (fetch : Action E Bytes) (b : Bytes) (e : E)
      → (w.items p).file ≡ some f
      → w.disk.faults ≡ []
      → fetch w.env ≡ (ok b, e)
      → fill p fetch w ≡ (ok (length b), written b (record w { env = e }))
  unfolding fill on_env
  fill-calm w fetch b e opened calm fetched =
      bind-ok (attempt (on_env fetch)) _ w
        (attempt-ok (on_env fetch) w (ap (λ r. (r.0, record w { env = r.1 })) fetched))
      ∙ write_all-calm (record w { env = e }) b opened calm
