-- ===== src/Reader.antt =====
-- pkg/discovery/content/reader/reader.go: reads and sizes of remote files, from peers first and from
-- the origin where no peer serves them. Metrics and logs are left out.
pub mod Peers
pub mod Honest
pub mod Requests
use peerd_oci.Action.{◌>>=◌, ◌>>◌, Action, pure, modify, raise, lift, attempt, gets, done, failed}
use peerd_oci.Strings.{after_last, format_int, parse_int}
use peerd_oci.Context.{
  Context, set_outbound_headers, get_string, is_request_from_a_peer, blob_url_ctx_key,
  file_chunk_ctx_key,
}
use peerd_oci.Int64.{ℤ, pos, sub64, add64}
use peerd_oci.Prelude.{
  Bytes, ℕ, Bool, Outcome, if◌then◌else◌, length, List, ◌==◌, take, none, codes, ok, ◌++◌, some,
  drop, err, ◌∷◌, unexpected_status, leb, bad_request, transport_failure, peer_not_found, panic,
  eof, blocked, unexpected_eof, ◌||◌, [],
}
use peerd_oci.Http.{Header, Response, Request, header_set, header_get}

pub data Operation : Type 0 where
  operation_fstat_remote operation_pread_remote : Operation

-- A peer, as the router resolves it: its id and the host of its server.
pub record PeerInfo : Type 0 where
  pub id : Bytes
  pub http_host : Bytes

-- What the loop over the peers gets: a peer, or the end of the channel. Where a list of them ends,
-- the time of the resolution is over.
pub data Event : Type 0 where
  peer : PeerInfo → Event
  closed : Event

-- What the reader calls that is not its own: the test of a URL in `http.NewRequest`, a request sent
-- by the client of a peer (`[]` is the client of the origin), and the resolution of a key by the
-- router, with its events and the callback of its negative cache.
pub record Network : Type 1 where
  pub State : Type 0
  pub valid_url : Bytes → Bool
  pub send : Bytes → Request → State → Outcome Response × State
  pub resolve : Bytes → State → Outcome (List Event) × State
  pub dismiss : Bytes → State → State

-- The state of a call: the network, and the buffer of the caller.
pub record Call (S : Type 0) : Type 0 where
  pub net : S
  pub buf : Bytes

-- The header of a remote request: that of the request in the context, then its own entries.
unfoldable pub remote_header : Bytes → ℤ → ℤ → Context → Header
remote_header node start end c =
    set_outbound_headers node
      (header_set (codes "Range") (codes "bytes=" ++ (format_int start ++ b'-' ∷ format_int end))
        c.header)
      c

-- The size in a `Content-Range` header, where an error of the parse is dropped.
unfoldable pub range_size : Bytes → ℤ → ℤ
range_size rs l = elim (after_last b'/' rs) [ none ↦ l | some s ↦ (parse_int s).0 ]

-- What `fstatRemote` makes of a response.
unfoldable pub size_of_response : Response → Outcome ℤ
unfolding range_size
size_of_response resp =
    if resp.status == 200
    then ok resp.content_length
    else if resp.status == 206
    then ok (range_size (header_get (codes "Content-Range") resp.header) resp.content_length)
    else err (unexpected_status resp.status)

-- `io.ReadFull(resp.Body, buf)`: the number of bytes read or the error, and the buffer behind it.
unfoldable pub read_full : Bytes → Bytes → Outcome ℕ × Bytes
read_full body buf =
    let n = length buf in
    let filled = take n body ++ drop (length body) buf in
    if leb n (length body)
    then (ok n, filled)
    else if length body == 0
    then (err eof, filled)
    else (err unexpected_eof, filled)

-- An error of `client.Do` is wrapped together with the response.
unfoldable pub wrapped : Outcome Response → Outcome Response
wrapped (ok resp) = ok resp
wrapped (err e) = err transport_failure
wrapped panic = panic
wrapped blocked = blocked

module _ (N : Network) (node : Bytes) (c : Context) where
  open N use {State, valid_url, send, resolve, dismiss}

  -- `remoteRequest`.
  unfoldable pub remote_request : Bytes → ℤ → ℤ → Action (Call State) Request
  remote_request u start end =
      if valid_url u
      then pure (record { method = codes "GET"; url = u; header = remote_header node start end c })
      else raise bad_request

  unfoldable pub origin_request : ℤ → ℤ → Action (Call State) Request
  origin_request start end = remote_request (get_string blob_url_ctx_key c) start end

  unfoldable pub peer_request : Bytes → ℤ → ℤ → Action (Call State) Request
  peer_request host start end =
      remote_request (host ++ (codes "/blobs/" ++ get_string blob_url_ctx_key c)) start end

  -- `client.Do(req)`, with the client of a peer.
  unfoldable pub do_request : Bytes → Request → Action (Call State) Response
  do_request client req s =
      let (r, net') = send client req s.net in (wrapped r, record s { net = net' })

  -- `fstatRemote`.
  unfoldable pub fstat_request : Bytes → Request → Action (Call State) ℤ
  fstat_request client req = do resp ← do_request client req; lift (size_of_response resp)

  unfoldable pub fill_buffer : Bytes → Action (Call State) ℤ
  fill_buffer body s =
      let (r, filled) = read_full body s.buf in
      (
        elim r [ ok n ↦ ok (pos n) | err e ↦ err e | panic ↦ panic | blocked ↦ blocked ],
        record s { buf = filled },
      )

  -- `preadRemote`.
  unfoldable pub pread_request : Bytes → Request → Action (Call State) ℤ
  pread_request client req = do
    resp ← do_request client req
    if (resp.status == 200) || (resp.status == 206)
        then fill_buffer resp.body
        else raise (unexpected_status resp.status)

  unfoldable pub perform : Operation → Bytes → Request → Action (Call State) ℤ
  perform operation_fstat_remote client req = fstat_request client req
  perform operation_pread_remote client req = pread_request client req

  unfoldable pub dismiss_key : Bytes → Action (Call State) (Unit {0})
  dismiss_key key = modify (λ s. record s { net = dismiss key s.net })

  -- One peer of `doP2p`.
  unfoldable pub ask_peer : PeerInfo → ℤ → ℤ → Operation → Action (Call State) ℤ
  ask_peer p start end o = do req ← peer_request p.http_host start end; perform o p.id req

  -- The loop of `doP2p`: the first peer that answers.
  unfoldable pub peer_loop : List Event → Bytes → ℤ → ℤ → Operation → Action (Call State) ℤ
  peer_loop [] key start end o = do dismiss_key key; raise peer_not_found
  peer_loop (closed ∷ events) key start end o = do dismiss_key key; raise peer_not_found
  peer_loop (peer p ∷ events) key start end o = do
    answer ← attempt (ask_peer p start end o)
    elim answer [ done count ↦ pure count | failed e ↦ peer_loop events key start end o ]

  unfoldable pub resolve_key : Bytes → Action (Call State) (List Event)
  resolve_key key s = let (r, net') = resolve key s.net in (r, record s { net = net' })

  -- `doP2p`.
  unfoldable pub do_p2p : Bytes → ℤ → ℤ → Operation → Action (Call State) ℤ
  do_p2p key start end o =
      if is_request_from_a_peer c
      then raise peer_not_found
      else do events ← resolve_key key; peer_loop events key start end o

  -- `PreadRemote`, into the buffer of the state.
  unfoldable pub pread_remote : ℤ → Action (Call State) ℤ
  pread_remote offset = do
    n ← gets (λ s. length s.buf)
    let end = sub64 (add64 (pos n) offset) (pos 1)
    answer ← attempt (do_p2p (get_string file_chunk_ctx_key c) offset end operation_pread_remote)
    elim answer [
      | done count ↦ pure count
      | failed e ↦ do req ← origin_request offset end; pread_request [] req
    ]

  -- `FstatRemote`: the size comes from the origin alone.
  unfoldable pub fstat_remote : Action (Call State) ℤ
  fstat_remote = do req ← origin_request (pos 0) (pos 0); fstat_request [] req
