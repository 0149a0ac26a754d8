-- ===== src/Handlers/Files.antt =====
-- pkg/handlers/files/handler.go: `fill` and `Handle`. `http.ServeContent` is the library's: `Handle`
-- ends where it hands the file over.
pub mod Peers
use peerd_oci.Store.File.{Session}
use peerd_oci.Store.Key.{store_key}
use peerd_oci.Int64.{ℤ}
use peerd_oci.Cache.SyncMap.{SyncMap}
use peerd_oci.Reader.{Network}
use peerd_oci.Cache.FileCache.{Blocks}
use peerd_oci.Context.{
  Context, ctx_set, correlation_header_key, get_string, correlation_id_ctx_key, node_header_key,
  blob_range_ctx_key, blob_url_ctx_key, blob_url, file_chunk_ctx_key, digest_ctx_key,
}
use peerd_oci.Http.{Header, header_set, header_del, header_get}
use peerd_oci.Prelude.{
  Bytes, ℕ, blocked, panic, Error, Outcome, not_exist, codes, List, Bool, ok, err,
}
use peerd_oci.Action.{Action, ◌>>=◌, Attempt, done, attempt, failed, pure}
use peerd_oci.Store.Service.{open_store}

-- How a request ends: aborted with a status, or served from the file that was opened, with these
-- response headers.
pub data Answer : Type 0 where
  aborted : ℕ → Answer
  served : Header → Answer

-- The entries that `fill` makes for the handlers behind it.
unfoldable pub fill_keys : Bytes → Bytes → Context → Context
fill_keys key d c = ctx_set blob_range_ctx_key (header_get (codes "Range") c.header) (
    ctx_set blob_url_ctx_key (blob_url c)
      (ctx_set file_chunk_ctx_key key (ctx_set digest_ctx_key d c)))

-- `fill`: the key and the digest of the request, for the handlers behind it.
unfoldable pub fill : Context → Outcome Context
fill c =
    let named = ctx_set (codes "handler") (codes "files") c in
    elim (store_key named) [
      | ok (key, d) ↦ ok (fill_keys key d named)
      | err e ↦ err e
      | panic ↦ panic
      | blocked ↦ blocked
    ]

-- The headers of the response.
unfoldable pub response_header : Bytes → Context → Header → Header
response_header node c h = header_set correlation_header_key (get_string correlation_id_ctx_key c) (
    header_set node_header_key node (
      header_del (codes "Content-Length")
        (header_set (codes "Content-Type") (codes "application/octet-stream") h)))

-- What `Handle` makes of the error of `Open`.
unfoldable pub refusal : Error → ℕ
refusal not_exist = 404
refusal e = 500

module _ (B : Blocks) (N : Network) (path node : Bytes) (order : SyncMap ℤ → List Bytes) where
  -- What `Handle` makes of the result of `Open`.
  unfoldable pub answer_of : Context → Header → Attempt (Unit {0}) → Answer
  answer_of c h (done u) = served (response_header node c h)
  answer_of c h (failed e) = aborted (refusal e)

  -- `Open` and the answer.
  unfoldable pub serve : Bool → Header → Context → Action (Session B.State N.State) Answer
  serve prefetchable h c = do
    opened ← attempt (open_store B N path node order prefetchable c)
    pure (answer_of c h opened)

  -- `Handle`, with the header of the response as it is so far.
  unfoldable pub handle : Bool → Header → Context → Action (Session B.State N.State) Answer
  handle prefetchable h c s = elim (fill c) [
    | ok filled ↦ serve prefetchable h filled s
    | err e ↦ (ok (aborted 400), s)
    | panic ↦ (panic, s)
    | blocked ↦ (blocked, s)
  ]
