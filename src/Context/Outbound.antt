-- ===== src/Context/Outbound.antt =====
-- The headers of a request to a peer, as the peer reads them.
use peerd_oci.Http.{canonical, header_get-set_ne, header_get-set_self}
use peerd_oci.Prelude.{Bytes, ◌≡◌, bytes_eq, true, false, ◌∙◌, refl, codes, ap}
use peerd_oci.Context.{
  Context, set_outbound_headers, is_request_from_a_peer, Header, header_get, node_header_key,
  correlation_header_key, get_string, p2p_header_key, correlation_id_ctx_key, header_set,
}

p2p_apart :
    (bytes_eq (canonical correlation_header_key) (canonical p2p_header_key) ≡ false)
    × (bytes_eq (canonical node_header_key) (canonical p2p_header_key) ≡ false)
    × (bytes_eq (canonical node_header_key) (canonical correlation_header_key) ≡ false)
unfolding canonical bytes_eq
p2p_apart = (refl, refl, refl)

-- A request with the outbound headers is one from a peer to the server that receives it, and carries
-- the correlation id of the request that it was made for.
pub set_outbound_headers-marks :
    (node : Bytes) (h : Header) (c received : Context)
    → received.header ≡ set_outbound_headers node h c
    → (is_request_from_a_peer received ≡ true)
      × (header_get correlation_header_key received.header ≡ get_string correlation_id_ctx_key c)
      × (header_get node_header_key received.header ≡ node)
unfolding is_request_from_a_peer set_outbound_headers bytes_eq
set_outbound_headers-marks node h c received same =
    let (a, b, d) = p2p_apart in
    let p2p = header_set p2p_header_key (codes "true") h in
    let id = get_string correlation_id_ctx_key c in
    let both = header_set correlation_header_key id p2p in
    let flag : header_get p2p_header_key received.header ≡ codes "true" =
      ap (header_get p2p_header_key) same
      ∙ header_get-set_ne _ _ node both b
      ∙ header_get-set_ne _ _ id p2p a
      ∙ header_get-set_self p2p_header_key (codes "true") h in
    (
      ap (λ v. bytes_eq v (codes "true")) flag,
      ap (header_get correlation_header_key) same
          ∙ header_get-set_ne _ _ node both d
          ∙ header_get-set_self correlation_header_key id p2p,
      ap (header_get node_header_key) same ∙ header_get-set_self node_header_key node both,
    )

-- Other headers stay as they are.
pub set_outbound_headers-ne :
    (node q : Bytes) (h : Header) (c : Context)
    → bytes_eq (canonical node_header_key) (canonical q) ≡ false
    → bytes_eq (canonical correlation_header_key) (canonical q) ≡ false
    → bytes_eq (canonical p2p_header_key) (canonical q) ≡ false
    → header_get q (set_outbound_headers node h c) ≡ header_get q h
unfolding set_outbound_headers
set_outbound_headers-ne node q h c n k p =
    header_get-set_ne _ q _ _ n ∙ header_get-set_ne _ q _ _ k ∙ header_get-set_ne _ q _ _ p
