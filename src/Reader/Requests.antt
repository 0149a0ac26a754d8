-- ===== src/Reader/Requests.antt =====
-- The requests of the reader: marked as from a peer, with the byte range that is asked for.
use peerd_oci.Strings.Decimal.{format_int-IsDigit}
use peerd_oci.Context.Outbound.{set_outbound_headers-ne, set_outbound_headers-marks}
use peerd_oci.Context.Range.{byte_range, range_start_index-format_int, digit-Lacks}
use peerd_oci.Action.{raise}
use peerd_oci.Context.{
  p2p_header_key, correlation_header_key, is_request_from_a_peer, node_header_key,
  range_start_index,
}
use peerd_oci.Http.{canonical, header_get, header_get-set_self}
use peerd_oci.Prelude.{
  Bytes, ℕ, bytes_eq, ◌<◌, codes, ◌^◌, ◌≡◌, false, true, ◌∙◌, err, refl, ok, peer_not_found, ap,
  arith,
}
use peerd_oci.Reader.{
  remote_header, Network, ℤ, Context, do_p2p, raise, pos, Operation, format_int, Call,
}

range_apart :
    (bytes_eq (canonical p2p_header_key) (canonical (codes "Range")) ≡ false)
    × (bytes_eq (canonical correlation_header_key) (canonical (codes "Range")) ≡ false)
    × (bytes_eq (canonical node_header_key) (canonical (codes "Range")) ≡ false)
unfolding canonical bytes_eq
range_apart = (refl, refl, refl)

pub remote_header-Range :
    (node : Bytes) (start end : ℤ) (c : Context)
    → header_get (codes "Range") (remote_header node start end c)
      ≡ byte_range (format_int start) (format_int end)
unfolding remote_header
remote_header-Range node start end c =
    let (p, k, n) = range_apart in
    set_outbound_headers-ne node (codes "Range") _ c n k p
    ∙ header_get-set_self (codes "Range") _ c.header

-- Whoever receives a request of the reader for a range of numbers below 2^63 sees that it comes
-- from a peer, and reads the start of the range back from its header.
pub remote_header-received :
    (node : Bytes) (start end : ℕ) (c received : Context)
    → start < 2 ^ 63
    → end < 2 ^ 63
    → received.header ≡ remote_header node (pos start) (pos end) c
    → (is_request_from_a_peer received ≡ true)
      × (range_start_index (header_get (codes "Range") received.header) ≡ ok (pos start))
unfolding remote_header
remote_header-received node start end c received small end_small same =
    let ds = format_int-IsDigit end in
    (
      (set_outbound_headers-marks node _ c received same).0,
      ap (λ h. range_start_index (header_get (codes "Range") h)) same
          ∙ ap range_start_index (remote_header-Range node (pos start) (pos end) c)
          ∙ range_start_index-format_int start (format_int (pos end)) small
              (digit-Lacks b'=' (format_int (pos end)) (omega arith) ds)
              (digit-Lacks b'-' (format_int (pos end)) (omega arith) ds),
    )

module _ (N : Network) (node : Bytes) (c : Context) where
  pub do_p2p-from_a_peer :
      (key : Bytes) (start end : ℤ) (o : Operation) (s : Call N.State)
      → is_request_from_a_peer c ≡ true
      → do_p2p N node c key start end o s ≡ (err peer_not_found, s)
  unfolding do_p2p raise
  do_p2p-from_a_peer key start end o s from_peer = rw from_peer

-- A request that a reader sent to a peer or to the origin goes no further among the peers: whoever
-- receives its header asks no peer for it, whatever the key, the range and the operation. `doP2p`
-- ends at once with the error that no peer was found, and the network and the buffer stay as they are.
pub do_p2p-one_hop :
    (N : Network) (sender node : Bytes) (c received : Context) (asked_start asked_end : ℤ)
    (key : Bytes) (start end : ℤ) (o : Operation) (s : Call N.State)
    → received.header ≡ remote_header sender asked_start asked_end c
    → do_p2p N node received key start end o s ≡ (err peer_not_found, s)
unfolding remote_header
do_p2p-one_hop N sender node c received asked_start asked_end key start end o s same =
    do_p2p-from_a_peer N node received key start end o s
      (set_outbound_headers-marks sender _ c received same).0
