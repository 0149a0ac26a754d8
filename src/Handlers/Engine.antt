-- ===== src/Handlers/Engine.antt =====
-- pkg/handlers/root.go: the handler that all requests pass before that of the files, and the correlation id
-- that it gives them.
use peerd_oci.Prelude.{
  Bytes, bytes_eq, ◌≡◌, List, if◌then◌else◌, false, ok, Bool, [], codes, refl, ap, ◌∙◌, Outcome,
  subst, err, none, sym, some, panic≢ok, blocked≢ok, panic, blocked,
}
use peerd_oci.Handlers.Files.{
  Answer, handle, serve, answer_of, response_header, fill, fill_keys, served, aborted,
}
use peerd_oci.Context.{
  Context, fill_correlation_id, correlation_header_key, correlation_id_ctx_key, get_string, ctx_set,
  blob_range_ctx_key, blob_url_ctx_key, file_chunk_ctx_key, digest_ctx_key,
}
use peerd_oci.Http.{header_get, header_get-set_self, Header}
use peerd_oci.Store.File.{Session}
use peerd_oci.Store.Key.{store_key}
use peerd_oci.Reader.{Network}
use peerd_oci.Cache.FileCache.{Blocks}
use peerd_oci.Cache.SyncMap.{SyncMap}
use peerd_oci.Int64.{ℤ}
use peerd_oci.Prelude.Dict
use peerd_oci.Action.{Action, done, failed, Attempt}
use peerd_oci.Action.Rules.{Returns, Returns-bind, Returns-pure, ok-injective}

-- A request on one of the routes: the handler of `newEngine`, without the logger that it sets, and the
-- handler of the files.
unfoldable pub serve_request :
    (B : Blocks) (N : Network)
    → Bytes
    → Bytes
    → (SyncMap ℤ → List Bytes)
    → Bytes
    → Bool
    → Context
    → Action (Session B.State N.State) Answer
serve_request B N path node order fresh prefetchable c =
    handle B N path node order prefetchable [] (fill_correlation_id fresh c)

-- The id of the request, or the one that was made for it.
abbrev pub id_of : Bytes → Context → Bytes
id_of fresh c =
    let given = header_get correlation_header_key c.header in
    if bytes_eq given [] then fresh else given

-- The response, if there is one, has this id.
abbrev pub Answers : Bytes → Answer → Type 0
Answers id (served h) = header_get correlation_header_key h ≡ id
Answers id (aborted status) = Unit

ids_apart :
    (bytes_eq blob_range_ctx_key correlation_id_ctx_key ≡ false)
    × (bytes_eq blob_url_ctx_key correlation_id_ctx_key ≡ false)
    × (bytes_eq file_chunk_ctx_key correlation_id_ctx_key ≡ false)
    × (bytes_eq digest_ctx_key correlation_id_ctx_key ≡ false)
    × (bytes_eq (codes "handler") correlation_id_ctx_key ≡ false)
unfolding bytes_eq
ids_apart = (refl, refl, refl, refl, refl)

get_string-ctx_set :
    (key v : Bytes) (c : Context)
    → bytes_eq key correlation_id_ctx_key ≡ false
    → get_string correlation_id_ctx_key (ctx_set key v c) ≡ get_string correlation_id_ctx_key c
unfolding get_string ctx_set
get_string-ctx_set key v c apart =
    ap (λ o. elim o [ none ↦ [] | some v ↦ v ])
      (Dict.lookup-insert_ne key correlation_id_ctx_key v c.keys apart)

get_string-fill_correlation_id :
    (fresh : Bytes) (c : Context)
    → get_string correlation_id_ctx_key (fill_correlation_id fresh c) ≡ id_of fresh c
unfolding get_string ctx_set fill_correlation_id
get_string-fill_correlation_id fresh c =
    ap (λ o. elim o [ none ↦ [] | some v ↦ v ])
      (Dict.lookup-insert_self correlation_id_ctx_key (id_of fresh c) c.keys)

get_string-fill_keys :
    (key d : Bytes) (c : Context)
    → get_string correlation_id_ctx_key (fill_keys key d c) ≡ get_string correlation_id_ctx_key c
unfolding fill_keys
get_string-fill_keys key d c =
    let (range_apart, url_apart, chunk_apart, digest_apart, _) = ids_apart in
    get_string-ctx_set blob_range_ctx_key _ _ range_apart
    ∙ get_string-ctx_set blob_url_ctx_key _ _ url_apart
    ∙ get_string-ctx_set file_chunk_ctx_key _ _ chunk_apart
    ∙ get_string-ctx_set digest_ctx_key _ _ digest_apart

-- `fill` by the key that the store finds.
fill_inv :
    (c filled : Context) (keyed : Outcome (Bytes × Bytes))
    → elim keyed [
      | ok (key, d) ↦ ok (fill_keys key d c)
      | err e ↦ err e
      | panic ↦ panic
      | blocked ↦ blocked
    ]
      ≡ ok filled
    → get_string correlation_id_ctx_key filled ≡ get_string correlation_id_ctx_key c
fill_inv c filled (ok (key, d)) e =
    ap (get_string correlation_id_ctx_key) (sym (ok-injective e)) ∙ get_string-fill_keys key d c
fill_inv c filled (err x) e = absurd (cc)
fill_inv c filled panic e = absurd (panic≢ok e)
fill_inv c filled blocked e = absurd (blocked≢ok e)

get_string-fill :
    (c filled : Context)
    → fill c ≡ ok filled
    → get_string correlation_id_ctx_key filled ≡ get_string correlation_id_ctx_key c
unfolding fill
get_string-fill c filled e =
    let named = ctx_set (codes "handler") (codes "files") c in
    let (_, _, _, _, handler_apart) = ids_apart in
    fill_inv named filled (store_key named) e
    ∙ get_string-ctx_set (codes "handler") (codes "files") c handler_apart

module _ (B : Blocks) (N : Network) (path node : Bytes) (order : SyncMap ℤ → List Bytes) where
  answer_of-Answers :
      (c : Context) (h : Header) (opened : Attempt (Unit {0}))
      → Answers (get_string correlation_id_ctx_key c) (answer_of B N path node order c h opened)
  unfolding answer_of response_header
  answer_of-Answers c h (done u) =
      header_get-set_self correlation_header_key (get_string correlation_id_ctx_key c) _
  answer_of-Answers c h (failed e) = tt

  serve-Answers :
      (prefetchable : Bool) (h : Header) (c : Context)
      → Returns
          (Answers (get_string correlation_id_ctx_key c))
          (serve B N path node order prefetchable h c)
  unfolding serve
  serve-Answers prefetchable h c =
      Returns-bind _ _ λ opened. Returns-pure _ (answer_of-Answers c h opened)

  -- `Handle` by what `fill` returns.
  handled-Answers :
      (prefetchable : Bool) (c : Context) (s : Session B.State N.State) (a : Answer)
      (o : Outcome Context)
      → fill c ≡ o
      → (elim o as (λ x. Outcome Answer × Session B.State N.State) [
        | ok filled ↦ serve B N path node order prefetchable [] filled s
        | err e ↦ (ok (aborted 400), s)
        | panic ↦ (panic, s)
        | blocked ↦ (blocked, s)
      ]).0
        ≡ ok a
      → Answers (get_string correlation_id_ctx_key c) a
  handled-Answers prefetchable c s a (ok filled) made e =
      subst (λ id. Answers id a) (get_string-fill c filled made)
        ((serve-Answers prefetchable [] filled).at s e)
  handled-Answers prefetchable c s a (err x) made e =
      subst (Answers (get_string correlation_id_ctx_key c)) (ok-injective e) tt
  handled-Answers prefetchable c s a panic made e = absurd (panic≢ok e)
  handled-Answers prefetchable c s a blocked made e = absurd (blocked≢ok e)

  handle-Answers :
      (prefetchable : Bool) (c : Context) (s : Session B.State N.State) (a : Answer)
      → (handle B N path node order prefetchable [] c s).0 ≡ ok a
      → Answers (get_string correlation_id_ctx_key c) a
  unfolding handle
  handle-Answers prefetchable c s a e = handled-Answers prefetchable c s a (fill c) refl e

  -- A response that serves a file has the correlation id of its request, or the fresh one if the request
  -- has none or an empty one, whatever the request is for and whatever calls fail.
  pub serve_request-Answers :
      (fresh : Bytes) (prefetchable : Bool) (c : Context) (s : Session B.State N.State) (a : Answer)
      → (serve_request B N path node order fresh prefetchable c s).0 ≡ ok a
      → Answers (id_of fresh c) a
  unfolding serve_request
  serve_request-Answers fresh prefetchable c s a e =
      subst (λ id. Answers id a) (get_string-fill_correlation_id fresh c)
        (handle-Answers prefetchable (fill_correlation_id fresh c) s a e)
