-- ===== src/Store/File/Fstat.antt =====
-- `Fstat` of file.go: what it returns, and what it leaves of its lock.
use peerd_oci.Cache.Item.{on_env}
use peerd_oci.Action.Steps.{bind-ok, bind-blocked, attempt-err, attempt-ok}
use peerd_oci.Action.{gets, pure, raise, attempt}
use peerd_oci.Cache.FileCache.{metainfo_key, size, put_size}
use peerd_oci.Prelude.{
  Bytes, List, Bool, true, Error, ◌≡◌, some, none, blocked, ok, ◌∙◌, false, refl, err, ap, ℕ, zero,
  suc,
}
use peerd_oci.Cache.SyncMap
use peerd_oci.Cache.SyncMap.{SyncMap}
use peerd_oci.Store.File.{
  Session, fstat, fstat_locked, Blocks, Network, ℤ, on_cache, file_state, lock_stat, set_size, gets,
  pos, raise, pure, on_env, remote_size, size_on_error, unlock_stat,
}

module _ (B : Blocks) (N : Network) (path node : Bytes) (order : SyncMap ℤ → List Bytes) where
  -- The state with the size set.
  abbrev pub sized : ℤ → Session B.State N.State → Session B.State N.State
  sized n s = record s { file = record s.file { size = n } }

  -- The state with the lock of `Fstat` taken or free.
  abbrev pub stat_lock : Bool → Session B.State N.State → Session B.State N.State
  stat_lock b s = record s { file = record s.file { stat_locked = b } }

  size-known :
      (s : Session B.State N.State) (n : ℤ)
      → SyncMap.get (metainfo_key s.file.name) s.cache.sizes ≡ some n
      → on_cache B N path node order (size B path s.file.name) s ≡ (ok (n, true), s)
  unfolding on_cache size
  size-known s n known = rw (known, on_cache, size)

  size-unknown :
      (s : Session B.State N.State)
      → SyncMap.get (metainfo_key s.file.name) s.cache.sizes ≡ none
      → on_cache B N path node order (size B path s.file.name) s ≡ (ok (pos 0, false), s)
  unfolding on_cache size
  size-unknown s unknown = rw (unknown, on_cache, size)

  -- Where the size is in the cache, `Fstat` returns it, whether its lock is free or not.
  pub fstat-known :
      (s : Session B.State N.State) (n : ℤ)
      → SyncMap.get (metainfo_key s.file.name) s.cache.sizes ≡ some n
      → fstat B N path node order s ≡ (ok n, sized n s)
  unfolding fstat file_state gets set_size pure
  fstat-known s n known =
      bind-ok (file_state B N path node order) _ s refl
      ∙ bind-ok (on_cache B N path node order (size B path s.file.name)) _ s (size-known s n known)
      ∙ bind-ok (set_size B N path node order n) _ s refl

  fstat-unknown :
      (s : Session B.State N.State)
      → SyncMap.get (metainfo_key s.file.name) s.cache.sizes ≡ none
      → fstat B N path node order s ≡ fstat_locked B N path node order s.file (sized (pos 0) s)
  unfolding fstat file_state gets set_size
  fstat-unknown s unknown =
      bind-ok (file_state B N path node order) _ s refl
      ∙ bind-ok (on_cache B N path node order (size B path s.file.name)) _ s
          (size-unknown s unknown)
      ∙ bind-ok (set_size B N path node order (pos 0)) _ s refl

  lock_stat-held :
      (s : Session B.State N.State)
      → s.file.stat_locked ≡ true
      → lock_stat B N path node order s ≡ (blocked, s)
  unfolding lock_stat
  lock_stat-held s held = rw held

  -- Where it is not, and the lock is held, `Fstat` does not return.
  pub fstat-stuck :
      (s : Session B.State N.State)
      → SyncMap.get (metainfo_key s.file.name) s.cache.sizes ≡ none
      → s.file.stat_locked ≡ true
      → fstat B N path node order s ≡ (blocked, sized (pos 0) s)
  unfolding fstat_locked
  fstat-stuck s unknown held =
      fstat-unknown s unknown
      ∙ bind-blocked (lock_stat B N path node order) _ (sized (pos 0) s)
          (lock_stat-held (sized (pos 0) s) held)

  -- The state in which `Fstat` asks the origin.
  abbrev pub asking : Session B.State N.State → Session B.State N.State
  asking s = stat_lock true (sized (pos 0) s)

  fstat-asks :
      (s : Session B.State N.State)
      → SyncMap.get (metainfo_key s.file.name) s.cache.sizes ≡ none
      → s.file.stat_locked ≡ false
      → lock_stat B N path node order (sized (pos 0) s) ≡ (ok tt, asking s)
  unfolding lock_stat
  fstat-asks s unknown free = rw free

  -- The state in which the size `n` that the origin gave is known.
  abbrev pub learned : ℤ → N.State → Session B.State N.State → Session B.State N.State
  learned n net s = record s {
    cache = record s.cache {
      env = net;
      sizes = SyncMap.set (order s.cache.sizes) (metainfo_key s.file.name) n s.cache.sizes;
    };
    file = record s.file { size = n; stat_locked = false };
  }

  -- Where the size is not in the cache and the origin gives it, `Fstat` returns it, keeps it in the
  -- cache, and gives its lock back.
  pub fstat-learns :
      (s : Session B.State N.State) (n : ℤ) (net : N.State)
      → SyncMap.get (metainfo_key s.file.name) s.cache.sizes ≡ none
      → s.file.stat_locked ≡ false
      → remote_size B N path node order s.file.reader s.cache.env ≡ (ok n, net)
      → fstat B N path node order s ≡ (ok n, learned n net s)
  unfolding fstat_locked set_size on_cache on_env put_size unlock_stat pure
  fstat-learns s n net unknown free gives =
      let call =
        on_cache B N path node order (on_env (remote_size B N path node order s.file.reader)) in
      let t = asking s in
      let u = record t { cache = record t.cache { env = net } } in
      let name = s.file.name in
      fstat-unknown s unknown
      ∙ bind-ok (lock_stat B N path node order) _ (sized (pos 0) s) (fstat-asks s unknown free)
      ∙ bind-ok (on_cache B N path node order (size B path name)) _ t (size-unknown t unknown)
      ∙ bind-ok (set_size B N path node order (pos 0)) _ t refl
      ∙ bind-ok (attempt call) _ t (
          attempt-ok call t
            (ap (λ r. (r.0, record t { cache = record t.cache { env = r.1 } })) gives))
      ∙ bind-ok (set_size B N path node order n) _ u refl
      ∙ bind-ok (on_cache B N path node order (λ w. put_size B path (order w.sizes) name n w)) _
          (sized n u) refl
      ∙ bind-ok (unlock_stat B N path node order) _ _ refl

  fstat_locked-error :
      (s : Session B.State N.State) (e : Error) (net : N.State)
      → SyncMap.get (metainfo_key s.file.name) s.cache.sizes ≡ none
      → s.file.stat_locked ≡ false
      → remote_size B N path node order s.file.reader s.cache.env ≡ (err e, net)
      → fstat_locked B N path node order s.file (sized (pos 0) s) ≡ (
        err e,
        sized (size_on_error e) (record (asking s) { cache = record s.cache { env = net } }),
      )
  unfolding fstat_locked set_size raise on_cache on_env
  fstat_locked-error s e net unknown free fails =
      let call =
        on_cache B N path node order (on_env (remote_size B N path node order s.file.reader)) in
      bind-ok (lock_stat B N path node order) _ (sized (pos 0) s) (fstat-asks s unknown free)
      ∙ bind-ok (on_cache B N path node order (size B path s.file.name)) _ (asking s)
          (size-unknown (asking s) unknown)
      ∙ bind-ok (set_size B N path node order (pos 0)) _ (asking s) refl
      ∙ bind-ok (attempt call) _ (asking s) (
          attempt-err call (asking s)
            (ap (λ r. (r.0, record (asking s) { cache = record s.cache { env = r.1 } })) fails))
      ∙ bind-ok (set_size B N path node order (size_on_error e)) _ _ refl

  -- The state after more calls of `Fstat`, each in a thread of its own.
  abbrev pub after_calls : ℕ → Session B.State N.State → Session B.State N.State
  after_calls zero s = s
  after_calls (suc k) s = after_calls k (fstat B N path node order s).1

  fstat-stays_stuck :
      (k : ℕ) (s : Session B.State N.State)
      → SyncMap.get (metainfo_key s.file.name) s.cache.sizes ≡ none
      → s.file.stat_locked ≡ true
      → (fstat B N path node order (after_calls k s)).0 ≡ blocked
  fstat-stays_stuck zero s unknown held = ap (λ r. r.0) (fstat-stuck s unknown held)
  fstat-stays_stuck (suc k) s unknown held =
      ap (λ r. (fstat B N path node order (after_calls k r.1)).0) (fstat-stuck s unknown held)
      ∙ fstat-stays_stuck k (sized (pos 0) s) unknown held

  -- Where the size is not in the cache and the origin fails, `Fstat` returns the error and leaves its
  -- lock held and the size unknown: however many more calls of `Fstat` follow on the file, with
  -- nothing else between them, the next one does not return.
  pub fstat-after_error :
      (s : Session B.State N.State) (e : Error) (net : N.State)
      → SyncMap.get (metainfo_key s.file.name) s.cache.sizes ≡ none
      → s.file.stat_locked ≡ false
      → remote_size B N path node order s.file.reader s.cache.env ≡ (err e, net)
      → ((fstat B N path node order s).0 ≡ err e)
        × ((fstat B N path node order s).1.file.stat_locked ≡ true)
        × ((k : ℕ)
            → (fstat B N path node order (after_calls k (fstat B N path node order s).1)).0
              ≡ blocked)
  fstat-after_error s e net unknown free fails =
      let left =
        sized (size_on_error e) (record (asking s) { cache = record s.cache { env = net } }) in
      let first : fstat B N path node order s ≡ (err e, left) =
        fstat-unknown s unknown ∙ fstat_locked-error s e net unknown free fails in
      (
        ap (λ r. r.0) first,
        ap (λ r. r.1.file.stat_locked) first,
        λ k.
            ap (λ r. (fstat B N path node order (after_calls k r.1)).0) first
            ∙ fstat-stays_stuck k left unknown refl,
      )
