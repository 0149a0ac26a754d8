-- ===== src/Files/Fetch.antt =====
-- `FetchFile` when the block comes from the origin.
use peerd_oci.Reader.Requests.{do_p2p-from_a_peer}
use peerd_oci.Action.Steps.{bind-ok, attempt-err}
use peerd_oci.Int64.{sub64, add64}
use peerd_oci.Context.{get_string, blob_url_ctx_key, is_request_from_a_peer, file_chunk_ctx_key}
use peerd_oci.Action.{pure, gets, attempt}
use peerd_oci.Http.{Request, Response}
use peerd_oci.Reader.{
  origin_request, do_request, remote_request, Call, pread_remote, remote_header, read_full,
  fill_buffer, pread_request, do_p2p, operation_pread_remote, wrapped,
}
use peerd_oci.Prelude.{
  Bytes, ℕ, Outcome, if◌then◌else◌, leb, length, ok, codes, take, ◌==◌, ◌≡◌, replicate, true, err,
  [], unexpected_eof, ◌⊎◌, suc, length-replicate, false, ◌||◌, ap, Bool-cases, arith, ◌∙◌, ◌++◌,
  inl, drop_of_length-le, inr, leb→le, append-nil, refl, drop, nil_of_length-zero, panic, blocked,
  zero,
}
use peerd_oci.Files.{fetch_file, Network, Context, ℤ, make_bytes, pread_remote, pos, fetched, eof}

-- What comes of a response with the given body, for a block of `n` bytes.
abbrev pub block_of : ℕ → Bytes → Outcome Bytes
block_of n body =
    if leb n (length body)
    then ok (take n body)
    else if length body == 0
    then ok (replicate n 0)
    else err unexpected_eof

take-nothing : (n : ℕ) → take {A = ℕ} n [] ≡ []
take-nothing zero = refl
take-nothing (suc n) = refl

read_full-enough :
    (n : ℕ) (body : Bytes)
    → leb n (length body) ≡ true
    → read_full body (replicate n 0) ≡ (ok n, take n body)
unfolding read_full
read_full-enough n body enough =
    let size : length (replicate n 0) ≡ n = length-replicate {A = ℕ} n 0 in
    rw (size, enough)
      (ap (λ r. (ok n, take n body ++ r))
          (drop_of_length-le (length body) (replicate n 0) (omega (arith, size, leb→le _ _ enough)))
        ∙ ap (λ r. (ok n, r)) (append-nil (take n body)))

read_full-nothing :
    (n : ℕ) → leb n 0 ≡ false → read_full [] (replicate n 0) ≡ (err eof, replicate n 0)
unfolding read_full
read_full-nothing n short =
    rw (length-replicate {A = ℕ} n 0, short)
      (ap (λ r. (err eof, r ++ replicate n 0)) (take-nothing n))

read_full-short :
    (n : ℕ) (body : Bytes)
    → leb n (length body) ≡ false
    → (length body == 0) ≡ false
    → read_full body (replicate n 0)
      ≡ (err unexpected_eof, take n body ++ drop (length body) (replicate n 0))
unfolding read_full
read_full-short n body short some_bytes = rw (length-replicate {A = ℕ} n 0, short, some_bytes)

module _ (N : Network) (node : Bytes) (c : Context) where
  open N use {State, valid_url, send}

  -- The request to the origin for the bytes from `offset` on, for a buffer of `n` bytes.
  abbrev pub origin_get : ℤ → ℕ → Request
  origin_get offset n = record {
    method = codes "GET";
    url = get_string blob_url_ctx_key c;
    header = remote_header node offset (sub64 (add64 (pos n) offset) (pos 1)) c;
  }

  origin_request-ok :
      (start end : ℤ) (s : Call State)
      → valid_url (get_string blob_url_ctx_key c) ≡ true
      → origin_request N node c start end s ≡ (
        ok (record {
          method = codes "GET";
          url = get_string blob_url_ctx_key c;
          header = remote_header node start end c;
        }),
        s,
      )
  unfolding origin_request remote_request pure
  origin_request-ok start end s valid = rw valid

  do_request-ok :
      (client : Bytes) (req : Request) (s : Call State) (resp : Response) (net : State)
      → send client req s.net ≡ (ok resp, net)
      → do_request N node c client req s ≡ (ok resp, record s { net = net })
  unfolding do_request wrapped
  do_request-ok client req s resp net sent = ap (λ r. (wrapped r.0, record s { net = r.1 })) sent

  fill_buffer-fetched :
      (n : ℕ) (body : Bytes) (net : State)
      → fetched
          (fill_buffer N node c body (record { net = net; buf = replicate n 0 })).0
          (fill_buffer N node c body (record { net = net; buf = replicate n 0 })).1.buf
        ≡ block_of n body
  unfolding fill_buffer fetched
  fill_buffer-fetched n body net =
      let d : Bytes = replicate n 0 in
      let out : Outcome ℕ × Bytes → Outcome Bytes = λ r.
        fetched (elim r.0 [ ok k ↦ ok (pos k) | err e ↦ err e | panic ↦ panic | blocked ↦ blocked ])
          r.1 in
      elim (Bool-cases (leb n (length body))) [
        | inl enough ↦ ap out (read_full-enough n body enough) ∙ rw enough
        | inr short ↦ elim (Bool-cases (length body == 0)) [
          | inl nothing ↦
              let none_read : body ≡ [] = nil_of_length-zero body (ground arith) in
              ap (λ b. out (read_full b d)) none_read
              ∙ ap out (read_full-nothing n (ground arith))
              ∙ rw (short, nothing)
          | inr some_bytes ↦
              ap out (read_full-short n body short some_bytes) ∙ rw (short, some_bytes)
        ]
      ]

  pread_request-body :
      (req : Request) (s : Call State) (resp : Response) (net : State)
      → send [] req s.net ≡ (ok resp, net)
      → (resp.status ≡ 200) ⊎ (resp.status ≡ 206)
      → pread_request N node c [] req s ≡ fill_buffer N node c resp.body (record s { net = net })
  unfolding pread_request
  pread_request-body req s resp net sent good =
      let fine : ((resp.status == 200) || (resp.status == 206)) ≡ true = ground arith in
      bind-ok (do_request N node c [] req) _ s (do_request-ok [] req s resp net sent) ∙ rw fine

  pread_remote-from_a_peer :
      (offset : ℤ) (n : ℕ) (s : Call State)
      → length s.buf ≡ n
      → is_request_from_a_peer c ≡ true
      → valid_url (get_string blob_url_ctx_key c) ≡ true
      → pread_remote N node c offset s ≡ pread_request N node c [] (origin_get offset n) s
  unfolding pread_remote gets
  pread_remote-from_a_peer offset n s size from_peer valid =
      let end = sub64 (add64 (pos (length s.buf)) offset) (pos 1) in
      let ask =
        do_p2p N node c (get_string file_chunk_ctx_key c) offset end operation_pread_remote in
      bind-ok (gets (λ s. length s.buf)) _ s refl
      ∙ bind-ok (attempt ask) _ s (
          attempt-err ask s (
            do_p2p-from_a_peer N node c (get_string file_chunk_ctx_key c) offset end
              operation_pread_remote s from_peer))
      ∙ bind-ok (origin_request N node c offset end) _ s (origin_request-ok offset end s valid)
      ∙ ap (λ n. pread_request N node c [] (origin_get offset n) s) size

  -- A block that is fetched for a request of a peer comes from the origin, with one request. If
  -- the origin answers with status 200 or 206, a body with enough bytes gives the first of them,
  -- and a body that is too short an error, but one with no bytes at all gives a block of zeros.
  -- The URL is one that a request can be made for.
  pub fetch_file-origin :
      (offset : ℤ) (n : ℕ) (s net : State) (resp : Response)
      → is_request_from_a_peer c ≡ true
      → valid_url (get_string blob_url_ctx_key c) ≡ true
      → send [] (origin_get offset n) s ≡ (ok resp, net)
      → (resp.status ≡ 200) ⊎ (resp.status ≡ 206)
      → fetch_file N node c offset (pos n) s ≡ (block_of n resp.body, net)
  unfolding fetch_file make_bytes fill_buffer
  fetch_file-origin offset n s net resp from_peer valid sent good =
      let d = replicate n 0 in
      let call : Call State = record { net = s; buf = d } in
      let run : pread_remote N node c offset call
          ≡ fill_buffer N node c resp.body (record { net = net; buf = d }) =
        pread_remote-from_a_peer offset n call (length-replicate {A = ℕ} n 0) from_peer valid
        ∙ pread_request-body (origin_get offset n) call resp net sent good in
      ap (λ r. (fetched r.0 r.1.buf, r.1.net)) run
      ∙ ap (λ r. (r, net)) (fill_buffer-fetched n resp.body net)
