-- ===== src/Reader/Honest.antt =====
-- What `PreadRemote` of reader.go reads, when the origin serves the file and the peers that answer do, too.
pub mod Loop
use peerd_oci.Prelude.{
  Bytes, ◌≡◌, ℕ, ◌⊎◌, Outcome, ◌++◌, true, length, codes, Error, ◌+◌, ok, err, ◌≤◌, ap, ◌==◌, [],
  panic, ◌||◌, slice, blocked, false, List, leb, if◌then◌else◌, arith, subst, drop,
  unexpected_status, ◌∙◌, sym, take_of_length-le, refl, drop_of_length-le, append-nil, ◌<◌,
  length-append, take-append_self, ◌≢◌, eof,
}
use peerd_oci.Action.{Action, attempt, gets, pure, raise, ◌>>=◌, continue, done, failed, settle}
use peerd_oci.Action.Steps.{bind-ok, bind-err, attempt-ok, attempt-err}
use peerd_oci.Context.{
  Context, get_string, blob_url_ctx_key, is_request_from_a_peer, file_chunk_ctx_key,
}
use peerd_oci.Http.{Request, Response}
use peerd_oci.Int64.{ℤ, pos, sub64, add64}
use peerd_oci.Reader.{
  Network, Call, PeerInfo, Event, peer, closed, remote_header, remote_request, peer_request,
  origin_request, do_request, wrapped, read_full, fill_buffer, pread_request, perform,
  operation_pread_remote, ask_peer, peer_loop, dismiss_key, resolve_key, do_p2p, pread_remote,
}

-- The request for `n` bytes from `start` on, at the URL `url`.
abbrev pub range_get : Bytes → Context → Bytes → ℕ → ℕ → Request
range_get node c url start n = record {
  method = codes "GET";
  url = url;
  header = remote_header node (pos start) (sub64 (add64 (pos n) (pos start)) (pos 1)) c;
}

-- A response with a status that `preadRemote` accepts.
abbrev pub Accepted : Response → Type 0
Accepted resp = (resp.status ≡ 200) ⊎ (resp.status ≡ 206)

-- A body that has the bytes `b` at its start.
abbrev pub StartsWith : Bytes → Bytes → Type 0
StartsWith body b = (rest : Bytes) × (body ≡ b ++ rest)

-- A server that does not answer, refuses, or sends the bytes `b`.
pub data MayServe (b : Bytes) : Outcome Response → Type 0 where
  no_answer : {e : Error} → MayServe b (err e)
  refuses :
      {resp : Response}
      → ((resp.status == 200) || (resp.status == 206)) ≡ false
      → MayServe b (ok resp)
  serves : {resp : Response} → Accepted resp → StartsWith resp.body b → MayServe b (ok resp)

-- The URL of the blob at the origin, and at a peer.
abbrev pub origin_url : Context → Bytes
origin_url c = get_string blob_url_ctx_key c

abbrev pub peer_url : Context → Bytes → Bytes
peer_url c host = host ++ (codes "/blobs/" ++ get_string blob_url_ctx_key c)

-- Servers of the file `d` that are truthful: the origin and the peers may refuse a range that is not
-- empty, or not answer, but they serve no other bytes; and the router returns.
pub record Truthful (N : Network) (node : Bytes) (c : Context) (d : Bytes) : Type 0 where
  pub url_valid : N.valid_url (origin_url c) ≡ true
  pub origin :
      (start n : ℕ) (net : N.State)
      → 0 < n
      → start + n ≤ length d
      → MayServe
          (slice d start (start + n))
          (N.send [] (range_get node c (origin_url c) start n) net).0
  pub peers :
      (id host : Bytes) (start n : ℕ) (net : N.State)
      → 0 < n
      → start + n ≤ length d
      → MayServe
          (slice d start (start + n))
          (N.send id (range_get node c (peer_url c host) start n) net).0
  pub resolves :
      (key : Bytes) (net : N.State)
      → ((events : List Event) × ((N.resolve key net).0 ≡ ok events))
        ⊎ ((e : Error) × ((N.resolve key net).0 ≡ err e))

-- Truthful servers with an origin that does serve.
pub record Honest (N : Network) (node : Bytes) (c : Context) (d : Bytes) : Type 0 where
  pub truthful : Truthful N node c d
  pub serving :
      (start n : ℕ) (net : N.State)
      → 0 < n
      → start + n ≤ length d
      → (resp : Response) × (net' : N.State) × (N.send []
            (range_get node c (origin_url c) start n)
            net
          ≡ (ok resp, net'))
        × Accepted resp
        × StartsWith resp.body (slice d start (start + n))

-- A read that got all of the bytes `b`, or failed, with a buffer of the same size.
pub data Tried {S : Type 0} (Fine : Error → Type 0) (b : Bytes) : Outcome ℤ × Call S → Type 0 where
  got : {t : Call S} → t.buf ≡ b → Tried Fine b (ok (pos (length b)), t)
  not_got : {e : Error} {t : Call S} → Fine e → length t.buf ≡ length b → Tried Fine b (err e, t)

-- A buffer that gets a body with enough bytes.
read_full-enough :
    (b rest buf : Bytes) → length buf ≡ length b → read_full (b ++ rest) buf ≡ (ok (length b), b)
unfolding read_full
read_full-enough b rest buf size =
    let more = length-append b rest in
    let enough : leb (length b) (length (b ++ rest)) ≡ true = ground arith in
    rw (size, enough)
      (ap (λ x. (ok (length b), x ++ drop (length (b ++ rest)) buf)) (take-append_self b rest)
        ∙ ap (λ x. (ok (length b), b ++ x))
            (drop_of_length-le (length (b ++ rest)) buf (omega (arith, size, more)))
        ∙ ap (λ x. (ok (length b), x)) (append-nil b))

module _ (N : Network) (node : Bytes) (c : Context) (b : Bytes) where
  fill_buffer-body :
      (rest : Bytes) (s : Call N.State)
      → length s.buf ≡ length b
      → fill_buffer N node c (b ++ rest) s ≡ (ok (pos (length b)), record s { buf = b })
  unfolding fill_buffer
  fill_buffer-body rest s size =
      ap
        (λ r. (
          elim r.0 as (λ x. Outcome ℤ) [
            | ok n ↦ ok (pos n)
            | err e ↦ err e
            | panic ↦ panic
            | blocked ↦ blocked
          ],
          record s { buf = r.1 },
        ))
        (read_full-enough b rest s.buf size)

  -- What `preadRemote` makes of a response.
  abbrev pub after : Response → Action (Call N.State) ℤ
  after resp =
      if (resp.status == 200) || (resp.status == 206)
      then fill_buffer N node c resp.body
      else raise (unexpected_status resp.status)

  pub after-Accepted :
      (resp : Response) (t : Call N.State)
      → length t.buf ≡ length b
      → Accepted resp
      → StartsWith resp.body b
      → after resp t ≡ (ok (pos (length b)), record t { buf = b })
  after-Accepted resp t size accepted (rest, body) =
      let fine : ((resp.status == 200) || (resp.status == 206)) ≡ true = ground arith in
      rw fine (ap (λ x. fill_buffer N node c x t) body ∙ fill_buffer-body rest t size)

module _ (N : Network) (node : Bytes) (c : Context) (b : Bytes) (Fine : Error → Type 0)
    (fine : (e : Error) → e ≢ eof → Fine e) where
  answer-Tried :
      (o : Outcome Response) (t : Call N.State)
      → length t.buf ≡ length b
      → MayServe b o
      → Tried Fine b (continue (wrapped o) (after N node c b) t)
  unfolding continue wrapped raise
  answer-Tried (err e) t size no_answer = not_got (fine _ (λ same. cc)) size
  answer-Tried (ok resp) t size (refuses bad) = rw bad (not_got (fine _ (λ same. cc)) size)
  answer-Tried (ok resp) t size (serves accepted body) =
      subst (Tried Fine b) (sym (after-Accepted N node c b resp t size accepted body)) (got refl)
  answer-Tried panic t size may = elim may [ ]
  answer-Tried blocked t size may = elim may [ ]

  -- One request, by what the server makes of it.
  pread_request-Tried :
      (client : Bytes) (req : Request) (s : Call N.State)
      → length s.buf ≡ length b
      → MayServe b (N.send client req s.net).0
      → Tried Fine b (pread_request N node c client req s)
  unfolding pread_request do_request ◌>>=◌
  pread_request-Tried client req s size may =
      answer-Tried (N.send client req s.net).0 (record s { net = (N.send client req s.net).1 }) size
        may
