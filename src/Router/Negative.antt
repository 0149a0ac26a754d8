-- ===== src/Router/Negative.antt =====
-- The negative cache of the router, and the peers that it resolves to.
use peerd_oci.Action.Steps.{bind-ok}
use peerd_oci.Action.{◌>>◌, gets, raise}
use peerd_oci.Prelude.{
  sym, some-injective, Bytes, bytes_eq, List, ◌≡◌, Option, false, All, codes, some, ◌∷◌, Bool, ◌++◌,
  Option-cases, arith, inl, inr, [], err, none, content_not_found, ◌∙◌, ap, ok, bytes_eq_refl, refl,
  Bool-cases, subst,
}
use peerd_oci.Router.{
  resolve_cached, cache_negative, Content, PeerInfo, host_of, peer_of, peers_of, LookupCache,
  AddrInfo, Router, str_peer_not_found, peer_at,
}

module _ (D : Content) (L : LookupCache) (self port : Bytes) where
  -- After the callback of the negative cache for a key, as long as the cache still holds the entry, the
  -- key is not resolved: the error says that no content was found, and the network is not asked.
  pub resolve_cached-cache_negative :
      (key : Bytes) (allow_self : Bool) (r : Router D.State L.State)
      → L.get key (L.set_with_ttl key str_peer_not_found r.lookups) ≡ some str_peer_not_found
      → (cache_negative D L self port key >> resolve_cached D L self port key allow_self) r ≡ (
        err content_not_found,
        record r { lookups = L.set_with_ttl key str_peer_not_found r.lookups },
      )
  unfolding cache_negative resolve_cached gets raise
  resolve_cached-cache_negative key allow_self r kept =
      let r' = record r { lookups = L.set_with_ttl key str_peer_not_found r.lookups } in
      bind-ok (cache_negative D L self port key) _ r refl
      ∙ bind-ok (gets (λ r. L.get key r.lookups)) _ r' (ap (λ v. (ok v, r')) kept)
      ∙ rw bytes_eq_refl

-- What a peer is that `Resolve` sends for a provider.
abbrev pub Resolved : Bytes → Bytes → PeerInfo → Type 0
Resolved self port p =
    (bytes_eq p.id self ≡ false)
    × (v : Bytes) × (p.http_host ≡ codes "https://" ++ (v ++ b':' ∷ port))

host_of_inv :
    (port : Bytes) (addrs : List (Option Bytes)) {host : Bytes}
    → host_of port addrs ≡ some host
    → (v : Bytes) × (host ≡ codes "https://" ++ (v ++ b':' ∷ port))
unfolding host_of
host_of_inv port (some v ∷ []) e = (v, sym (some-injective _ _ e))
host_of_inv port [] e = absurd (ground arith)
host_of_inv port (none ∷ addrs) e = absurd (ground arith)
host_of_inv port (some v ∷ a ∷ addrs) e = absurd (ground arith)

peer_of-Resolved :
    (self port : Bytes) (info : AddrInfo) {p : PeerInfo}
    → peer_of self port false info ≡ some p
    → Resolved self port p
unfolding peer_of peer_at
peer_of-Resolved self port info {p} e = elim (Bool-cases (bytes_eq info.id self)) [
  | inl same ↦ absurd (ground arith)
  | inr other ↦ elim (Option-cases (host_of port info.addrs)) [
    | inl nowhere ↦ absurd (ground arith)
    | inr (host, there) ↦
        let sent : record { id = info.id; http_host = host } ≡ p =
          some-injective _ _ (ground arith) in
        subst (Resolved self port) sent
          (let (v, e) = host_of_inv port info.addrs there in (other, v, e))
  ]
]

-- Unless the caller allows this node itself, `Resolve` sends only other nodes, each at the port of the
-- registry over TLS.
pub peers_of-Resolved :
    (self port : Bytes) (infos : List AddrInfo)
    → All (Resolved self port) (peers_of self port false infos)
unfolding peers_of
peers_of-Resolved self port [] = tt
peers_of-Resolved self port (info ∷ infos) = elim (Option-cases (peer_of self port false info)) [
  | inl skipped ↦ rw (skipped, peers_of) (peers_of-Resolved self port infos)
  | inr (p, sent) ↦
      rw (sent, peers_of) (peer_of-Resolved self port info sent, peers_of-Resolved self port infos)
]
