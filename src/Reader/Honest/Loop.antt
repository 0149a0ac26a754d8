-- ===== src/Reader/Honest/Loop.antt =====
-- The loop over the peers and the way back to the origin, among honest servers.
use peerd_oci.Prelude.{
  ◌∷◌, Bytes, Outcome, ℕ, ◌≡◌, ◌+◌, length, ◌≤◌, Error, slice, Bool-cases, List, inl, [], inr, ok,
  ◌⊎◌, err, ap, ◌∙◌, refl, arith, replicate, length-slice, length-replicate, ◌<◌, ◌≢◌, eof,
}
use peerd_oci.Action.{
  Action, attempt, gets, pure, raise, modify, ◌>>=◌, continue, done, failed, settle, Attempt,
}
use peerd_oci.Context.{Context, is_request_from_a_peer, file_chunk_ctx_key, get_string}
use peerd_oci.Int64.{ℤ, pos, sub64, add64}
use peerd_oci.Files.{fetch_file, make_bytes, fetched}
use peerd_oci.Reader.{
  Network, Call, PeerInfo, Event, peer, closed, remote_request, peer_request, origin_request,
  pread_request, perform, operation_pread_remote, ask_peer, peer_loop, dismiss_key, resolve_key,
  do_p2p, pread_remote, do_request, wrapped, Request,
}
use peerd_oci.Reader.Honest.{
  Honest, Tried, got, not_got, range_get, origin_url, peer_url, pread_request-Tried, after,
  after-Accepted, Truthful,
}

-- A call that tries first, and does something else where that fails.
attempt-cases :
    {S : Type 0} (b : Bytes) (r : Outcome ℤ × Call S) (f : Attempt ℤ → Action (Call S) ℤ)
    (P : Outcome ℤ × Call S → Type 0) {Fine : Error → Type 0}
    → Tried Fine b r
    → ((t : Call S) → t.buf ≡ b → P (f (done (pos (length b))) t))
    → ((e : Error) (t : Call S) → length t.buf ≡ length b → P (f (failed e) t))
    → P (continue (settle r.0 r.1).0 f (settle r.0 r.1).1)
unfolding continue settle
attempt-cases b r f P (got {t} e) good bad = good t e
attempt-cases b r f P (not_got {e} {t} fine size) good bad = bad e t size

-- Any error.
abbrev Any : Error → Type 0
Any e = Unit {0}

module _ (N : Network) (node : Bytes) (c : Context) (d : Bytes) (truthful : Truthful N node c d)
    (start n : ℕ) (some_bytes : 0 < n) (inside : start + n ≤ length d) where
  open truthful use {url_valid, origin, peers, resolves}

  abbrev part : Bytes
  part = slice d start (start + n)

  abbrev end : ℤ
  end = sub64 (add64 (pos n) (pos start)) (pos 1)

  ask_peer-Tried :
      (p : PeerInfo) (s : Call N.State)
      → length s.buf ≡ length part
      → Tried Any part (ask_peer N node c p (pos start) end operation_pread_remote s)
  unfolding ask_peer peer_request remote_request perform ◌>>=◌ continue pure raise
  ask_peer-Tried p s size = elim (Bool-cases (N.valid_url (peer_url c p.http_host))) [
    | inl valid ↦ rw valid (
        pread_request-Tried N node c part Any (λ e other. tt) p.id
          (range_get node c (peer_url c p.http_host) start n) s size
          (peers p.id p.http_host start n s.net some_bytes inside))
    | inr bad ↦ rw bad (not_got tt size)
  ]

  peer_loop-Tried :
      (events : List Event) (key : Bytes) (s : Call N.State)
      → length s.buf ≡ length part
      → Tried Any part (peer_loop N node c events key (pos start) end operation_pread_remote s)
  unfolding peer_loop dismiss_key modify raise ◌>>=◌ continue attempt pure
  peer_loop-Tried [] key s size = not_got tt size
  peer_loop-Tried (closed ∷ events) key s size = not_got tt size
  peer_loop-Tried (peer p ∷ events) key s size =
      attempt-cases part (ask_peer N node c p (pos start) end operation_pread_remote s) _
        (Tried Any part) (ask_peer-Tried p s size) (λ t e. got e)
        (λ e t size. peer_loop-Tried events key t size)

  resolved-Tried :
      (key : Bytes) (o : Outcome (List Event)) (s : Call N.State)
      → length s.buf ≡ length part
      → ((events : List Event) × (o ≡ ok events)) ⊎ ((e : Error) × (o ≡ err e))
      → Tried Any part (
          continue o
            (λ events. peer_loop N node c events key (pos start) end operation_pread_remote)
            s)
  unfolding continue
  resolved-Tried key o s size (inl (events, returned)) =
      rw returned (peer_loop-Tried events key s size)
  resolved-Tried key o s size (inr (e, failed_so)) = rw failed_so (not_got tt size)

  do_p2p-Tried :
      (key : Bytes) (s : Call N.State)
      → length s.buf ≡ length part
      → Tried Any part (do_p2p N node c key (pos start) end operation_pread_remote s)
  unfolding do_p2p resolve_key raise ◌>>=◌ continue
  do_p2p-Tried key s size = elim (Bool-cases (is_request_from_a_peer c)) [
    | inl from_peer ↦ rw from_peer (not_got tt size)
    | inr client ↦ rw client (
        resolved-Tried key (N.resolve key s.net).0 (record s { net = (N.resolve key s.net).1 }) size
          (resolves key s.net))
  ]

  abbrev last : Request
  last = range_get node c (origin_url c) start n

  -- The last request goes to the origin.
  from_origin-Tried :
      (s : Call N.State)
      → length s.buf ≡ length part
      → Tried (λ e. e ≢ eof) part (pread_request N node c [] last s)
  from_origin-Tried s size =
      pread_request-Tried N node c part (λ e. e ≢ eof) (λ e other. other) [] last s size
        (origin start n s.net some_bytes inside)

  -- `PreadRemote` is what becomes of the last request, or has the bytes before it.
  pread_remote-last :
      (P : Outcome ℤ × Call N.State → Type 0) (s : Call N.State)
      → length s.buf ≡ n
      → ((t : Call N.State) → t.buf ≡ part → P (ok (pos (length part)), t))
      → ((t : Call N.State) → length t.buf ≡ length part → P (pread_request N node c [] last t))
      → P (pread_remote N node c (pos start) s)
  unfolding pread_remote attempt gets pure origin_request remote_request ◌>>=◌
  pread_remote-last P s size good ask =
      let size' : length s.buf ≡ length part =
        omega (arith, length-slice d start (start + n) (omega arith) inside) in
      rw size (
        attempt-cases part
          (do_p2p N node c (get_string file_chunk_ctx_key c) (pos start) end operation_pread_remote
            s)
          _ P (do_p2p-Tried (get_string file_chunk_ctx_key c) s size') good
          (λ e t kept. rw url_valid (rw size (ask t kept))))

fetched-err : (e : Error) (b : Bytes) → e ≢ eof → fetched (err e) b ≡ err e
unfolding fetched
fetched-err eof b other = absurd (other refl)
fetched-err _ b other = refl

module _ (N : Network) (node : Bytes) (c : Context) (d : Bytes) where
  -- The fetch of a block of `n` bytes from `start` on.
  module _ (truthful : Truthful N node c d) (start n : ℕ) (net : N.State) (some_bytes : 0 < n)
      (inside : start + n ≤ length d) where
    abbrev block : Bytes
    block = slice d start (start + n)

    abbrev call : Call N.State
    call = record { net = net; buf = replicate n 0 }

    -- What `FetchFile` makes of the read.
    abbrev result : Outcome ℤ × Call N.State → Outcome Bytes × N.State
    result r = (fetched r.0 r.1.buf, r.1.net)

    -- The block of the file, or an error.
    abbrev pub Fetched : Outcome Bytes × N.State → Type 0
    Fetched r = (net' : N.State) × ((r ≡ (ok block, net')) ⊎ ((e : Error) × (r ≡ (err e, net'))))

    result-Fetched :
        (r : Outcome ℤ × Call N.State) → Tried (λ e. e ≢ eof) block r → Fetched (result r)
    unfolding fetched
    result-Fetched r (got {t} filled) = (t.net, inl (ap (λ b. (ok b, t.net)) filled))
    result-Fetched r (not_got {e} {t} other size) =
        (t.net, inr (e, ap (λ x. (x, t.net)) (fetched-err e t.buf other)))

    pub fetch_file-Truthful : Fetched (fetch_file N node c (pos start) (pos n) net)
    unfolding fetch_file make_bytes
    fetch_file-Truthful =
        pread_remote-last N node c d truthful start n some_bytes inside (λ r. Fetched (result r))
          call (length-replicate {A = ℕ} n 0) (λ t filled. result-Fetched _ (got filled))
          (λ t kept.
            result-Fetched _
              (from_origin-Tried N node c d truthful start n some_bytes inside t kept))

  -- With an origin that serves, it is the block.
  pub fetch_file-Honest :
      (honest : Honest N node c d) (start n : ℕ) (net : N.State)
      → 0 < n
      → start + n ≤ length d
      → (net' : N.State) × (fetch_file N node c (pos start) (pos n) net
          ≡ (ok (slice d start (start + n)), net'))
  unfolding fetch_file make_bytes fetched pread_request do_request wrapped ◌>>=◌ continue
  fetch_file-Honest honest start n net some_bytes inside =
      let b = slice d start (start + n) in
      let Block : Outcome ℤ × Call N.State → Type 0 = λ r.
        (net' : N.State) × ◌≡◌ {A = Outcome Bytes × N.State} (fetched r.0 r.1.buf, r.1.net)
          (ok b, net') in
      pread_remote-last N node c d honest.truthful start n some_bytes inside Block
        (record { net = net; buf = replicate n 0 }) (length-replicate {A = ℕ} n 0)
        (λ t filled. (t.net, ap (λ x. (ok x, t.net)) filled))
        (λ t kept.
          let (resp, net', sent, accepted, body) = honest.serving start n t.net some_bytes inside in
          (
            net',
            ap
                  (λ r.
                    (let u = continue (wrapped r.0) (after N node c b) (record t { net = r.1 }) in
                      (fetched u.0 u.1.buf, u.1.net)))
                  sent
                ∙ ap (λ u. (fetched u.0 u.1.buf, u.1.net))
                    (after-Accepted N node c b resp (record t { net = net' }) kept accepted body),
          ))
