-- ===== src/Store/File/Reads/Fresh.antt =====
-- Reading on in a file whose size is not known yet.
use peerd_oci.Store.File.Reads.Transparent.{read_on-transparent}
use peerd_oci.Store.File.Fstat.{learned, fstat-learns}
use peerd_oci.Store.File.Reads.{read_on}
use peerd_oci.Action.Steps.{bind-ok}
use peerd_oci.Reader.Honest.{origin_url, Honest}
use peerd_oci.Store.File.{remote_size, Session, fstat, seek, seek_start}
use peerd_oci.Store.File.Serves.{
  BlockState, Serves, absent, Lossless, left_behind, unfilled, present,
}
use peerd_oci.Int64.{ℤ, pos}
use peerd_oci.Http.{Response, Request}
use peerd_oci.Cache.SyncMap.{SyncMap}
use peerd_oci.Cache.Item.{World}
use peerd_oci.Context.{Context}
use peerd_oci.Cache.FileCache.{Blocks, metainfo_key}
use peerd_oci.Reader.{
  Network, fstat_remote, remote_header, origin_request, remote_request, fstat_request,
  size_of_response, do_request, wrapped,
}
use peerd_oci.Prelude.{
  ◌≡◌, ◌≤◌, Bytes, ℕ, [], List, codes, arith, length, ok, ◌<◌, ◌^◌, none, false, true, ◌+◌, ◌∙◌, ap,
  slice, refl,
}
use peerd_oci.Cache.SyncMap
use peerd_oci.Store.File.{fstat}
use peerd_oci.Cache.SyncMap.Laws.{get-set_self}
use peerd_oci.Reader.{fstat_request, do_request, fstat_remote, origin_request, Call, wrapped}
use peerd_oci.Action.{◌>>◌, pure, lift}

-- The origin gives the size of the file.
abbrev pub GivesSize : Network → Bytes → Context → ℕ → Type 0
GivesSize N node c n =
    (net : N.State)
    → (resp : Response) × (net' : N.State) × (N.send []
          (record {
            method = codes "GET";
            url = origin_url c;
            header = remote_header node (pos 0) (pos 0) c;
          })
          net
        ≡ (ok resp, net'))
      × (size_of_response resp ≡ ok (pos n))

module _ (B : Blocks) (path : Bytes) {E : Type 0} (owner : ℕ → Bytes) (w : World B.State E)
    (sizes : SyncMap ℤ) (e : E) where
  abbrev resized : World B.State E
  resized = record w { sizes = sizes; env = e }

  resized-BlockState :
      (key b : Bytes) → BlockState B owner w key b → BlockState B owner resized key b
  resized-BlockState key b (absent nowhere nameless) = absent nowhere nameless
  resized-BlockState key b (left_behind i nowhere there bytes mine old) =
      left_behind i nowhere there bytes mine old
  resized-BlockState key b (unfilled p f c found h size start own) =
      unfilled p f c found (ground (arith, h)) size start (ground (arith, own))
  resized-BlockState key b (present p f found h own) =
      present p f found (ground (arith, h)) (ground (arith, own))

-- A cache serves a file whatever sizes it keeps.
resized-Serves :
    (B : Blocks) (path : Bytes) {E : Type 0} (w : World B.State E) (name d : Bytes)
    (sizes : SyncMap ℤ) (e : E)
    → Serves B path w name d
    → Serves B path (record w { sizes = sizes; env = e }) name d
resized-Serves B path w name d sizes e serves = record {
  free = serves.free;
  calm = serves.calm;
  owner = serves.owner;
  blocks =
      λ o inside. resized-BlockState B path serves.owner w sizes e _ _ (serves.blocks o inside);
}

module _ (B : Blocks) (N : Network) (path node : Bytes) (order : SyncMap ℤ → List Bytes) where
  remote_size-gives :
      (c : Context) (n : ℕ) (net : N.State)
      → N.valid_url (origin_url c) ≡ true
      → GivesSize N node c n
      → (net' : N.State) × (remote_size B N path node order c net ≡ (ok (pos n), net'))
  unfolding remote_size fstat_remote origin_request remote_request fstat_request do_request wrapped
      pure lift
  remote_size-gives c n net valid gives =
      let (resp, net', sent, size) = gives net in
      let call : Call N.State = record { net = net; buf = [] } in
      let after : Call N.State = record call { net = net' } in
      let req : Request = record {
        method = codes "GET";
        url = origin_url c;
        header = remote_header node (pos 0) (pos 0) c;
      } in
      let run : fstat_remote N node c call ≡ (ok (pos n), after) =
        bind-ok (origin_request N node c (pos 0) (pos 0)) _ call (rw valid refl)
        ∙ bind-ok (do_request N node c [] req) _ call
            (ap (λ r. (wrapped r.0, record call { net = r.1 })) sent)
        ∙ ap (λ r. (r, after)) size in
      (net', ap (λ r. (r.0, r.1.net)) run)

  -- A file whose size is not in the cache yet, and whose lock of `Fstat` is free: a client that asks for
  -- its size, seeks to `a` and reads on, with buffers of at most `most` bytes, until it has `left`
  -- bytes, gets the bytes of the file at the origin from `a` to `a + left`; the lock of `Fstat` is free
  -- then, the cursor stands behind the bytes, and the cache serves the file. The origin has a valid URL,
  -- serves every range of the file that is not empty and gives its size, each peer serves the same
  -- bytes, refuses or does not answer, and the router returns. The library takes every item and gives up
  -- none, the cache serves the file before, the size of the file is below 2^62, the range lies in it,
  -- and the file is not opened for one block only.
  pub read_on-fresh :
      (s : Session B.State N.State) (d : Bytes) (a most left : ℕ)
      → Lossless B
      → Honest N node s.file.reader d
      → GivesSize N node s.file.reader (length d)
      → Serves B path s.cache s.file.name d
      → length d < 2 ^ 62
      → SyncMap.get (metainfo_key s.file.name) s.cache.sizes ≡ none
      → s.file.stat_locked ≡ false
      → s.file.chunk_offset ≡ pos 0
      → 0 < most
      → a + left ≤ length d
      → (t : Session B.State N.State) × ((fstat B N path node order
              >> (seek B N path node order (pos a) seek_start
                  >> read_on B N path node order left most left))
            s
          ≡ (ok (slice d a (a + left)), t))
        × (t.file.stat_locked ≡ false)
        × (t.file.cur ≡ pos (a + left))
        × Serves B path t.cache s.file.name d
  read_on-fresh s d a most left lossless honest gives serves small unknown free any some_room fits =
      let (net, size) =
        remote_size-gives s.file.reader (length d) s.cache.env honest.truthful.url_valid gives in
      let u = learned B N path node order (pos (length d)) net s in
      let (w', reads, serves') =
        read_on-transparent B N path node order u d a most left lossless honest
          (resized-Serves B path s.cache s.file.name d _ net serves) small refl
          (get-set_self _ _ _ _) any some_room fits in
      (
        _,
        bind-ok (fstat B N path node order) _ s
              (fstat-learns B N path node order s (pos (length d)) net unknown free size)
            ∙ reads,
        refl,
        refl,
        serves',
      )
