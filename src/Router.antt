-- ===== src/Router.antt =====
-- pkg/discovery/routing/router.go: the resolution of a key to peers, its negative cache, and the
-- advertisement of keys. The distributed hash table (libp2p) and the cache of lookups (ristretto) are
-- interfaces.
pub mod Negative
pub mod Host
pub mod Start
pub mod Active
use peerd_oci.Reader.{PeerInfo}
use peerd_oci.Action.{◌>>=◌, ◌>>◌, Action, pure, gets, lift, raise}
use peerd_oci.Prelude.{
  Bytes, ℕ, List, Outcome, Option, codes, Bool, ◌∷◌, ok, false, if◌then◌else◌, some, err, none,
  ◌++◌, not, bytes_eq, [], panic, ◌&&◌, content_not_found, blocked,
}

-- A provider of a content id: its addresses, each by the value of its IPv4 protocol if it has one.
pub record AddrInfo : Type 0 where
  pub id : Bytes
  pub addrs : List (Option Bytes)

-- `createContentId`, and `FindProvidersAsync` with the providers in the order of its channel.
pub record Content : Type 1 where
  pub State : Type 0
  pub content_id : Bytes → Outcome Bytes
  pub find_providers : Bytes → State → List AddrInfo × State
  pub provide : Bytes → State → Outcome (Unit {0}) × State

-- `Get` and `SetWithTTL` of the cache of lookups.
pub record LookupCache : Type 1 where
  pub State : Type 0
  pub get : Bytes → State → Option Bytes
  pub set_with_ttl : Bytes → Bytes → State → State

pub record Router (S L : Type 0) : Type 0 where
  pub content : S
  pub lookups : L

abbrev pub str_peer_not_found : Bytes
str_peer_not_found = codes "PEER_NOT_FOUND"

-- The host of a provider with exactly one address, on IPv4.
unfoldable pub host_of : Bytes → List (Option Bytes) → Option Bytes
host_of port (some v ∷ []) = some (codes "https://" ++ (v ++ b':' ∷ port))
host_of port addrs = none

unfoldable pub peer_at : Bytes → Option Bytes → Option PeerInfo
peer_at id none = none
peer_at id (some host) = some (record { id = id; http_host = host })

-- What the goroutine of `Resolve` sends for a provider.
unfoldable pub peer_of : Bytes → Bytes → Bool → AddrInfo → Option PeerInfo
unfolding host_of peer_at
peer_of self port allow_self info =
    if not allow_self && bytes_eq info.id self
    then none
    else peer_at info.id (host_of port info.addrs)

unfoldable pub peers_of : Bytes → Bytes → Bool → List AddrInfo → List PeerInfo
peers_of self port allow_self [] = []
peers_of self port allow_self (info ∷ infos) =
    let rest = peers_of self port allow_self infos in
    elim (peer_of self port allow_self info) [ none ↦ rest | some p ↦ p ∷ rest ]

module _ (D : Content) (L : LookupCache) (self port : Bytes) where
  -- `Resolve`: the peers that its channel gets.
  unfoldable pub resolve : Bytes → Bool → Action (Router D.State L.State) (List PeerInfo)
  resolve key allow_self r = elim (D.content_id key) [
    | ok id ↦
        let (infos, s) = D.find_providers id r.content in
        (ok (peers_of self port allow_self infos), record r { content = s })
    | err e ↦ (err e, r)
    | panic ↦ (panic, r)
    | blocked ↦ (blocked, r)
  ]

  -- The callback of `ResolveWithNegativeCacheCallback`.
  unfoldable pub cache_negative : Bytes → Action (Router D.State L.State) (Unit {0})
  cache_negative key r =
      (ok tt, record r { lookups = L.set_with_ttl key str_peer_not_found r.lookups })

  is_negative : Option Bytes → Bool
  is_negative none = false
  is_negative (some v) = bytes_eq v str_peer_not_found

  -- `ResolveWithNegativeCacheCallback`, without the callback.
  unfoldable pub resolve_cached : Bytes → Bool → Action (Router D.State L.State) (List PeerInfo)
  unfolding is_negative
  resolve_cached key allow_self = do
    val ← gets (λ r. L.get key r.lookups)
    if is_negative val then raise content_not_found else resolve key allow_self

  unfoldable pub provide_id : Bytes → Action (Router D.State L.State) (Unit {0})
  provide_id id r = let (o, s) = D.provide id r.content in (o, record r { content = s })

  -- `Provide`: the first error ends it.
  unfoldable pub provide_all : List Bytes → Action (Router D.State L.State) (Unit {0})
  provide_all [] = pure tt
  provide_all (key ∷ keys) = do id ← lift (D.content_id key); provide_id id; provide_all keys
