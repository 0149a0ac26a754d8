-- ===== src/Router/Host.antt =====
-- pkg/discovery/routing/router.go: the address that a node advertises (`newHost`), and how the peers
-- reach it that find it by `Resolve`.
use peerd_oci.Prelude.{
  Bytes, List, Option, codes, ◌∷◌, ◌≡◌, some, [], map, none, if◌then◌else◌, bytes_eq, ◌++◌, false,
  refl, Option-cases, Bool, not, inl, ◌&&◌, inr, Bool-cases,
}
use peerd_oci.Router.{peer_of, host_of, peer_at}

-- An address: its text, and the value of its IPv4 protocol if it has one.
pub record Multiaddr : Type 0 where
  pub text : Bytes
  pub ip4 : Option Bytes

abbrev pub loopback : Bytes
loopback = codes "127.0.0.1"

-- The factory of addresses of `newHost`.
unfoldable pub advertised : List Multiaddr → List Multiaddr
advertised [] = []
advertised (addr ∷ addrs) =
    let rest = advertised addrs in
    elim addr.ip4 [
      | none ↦ rest
      | some v ↦ if bytes_eq v [] then rest else if bytes_eq v loopback then rest else addr ∷ []
    ]

-- An address at which others may reach the node.
abbrev pub Routable : Multiaddr → Bytes → Type 0
Routable addr v = (addr.ip4 ≡ some v) × (bytes_eq v [] ≡ false) × (bytes_eq v loopback ≡ false)

-- The first routable address, or none.
pub data First : List Multiaddr → Option Bytes → Type 0 where
  nowhere : First [] none
  here :
      {addr : Multiaddr} {addrs : List Multiaddr} {v : Bytes}
      → Routable addr v
      → First (addr ∷ addrs) (some v)
  further :
      {addr : Multiaddr} {addrs : List Multiaddr} {o : Option Bytes}
      → ((v : Bytes) → ¬ (Routable addr v))
      → First addrs o
      → First (addr ∷ addrs) o

abbrev pub ips : List Multiaddr → List (Option Bytes)
ips addrs = map (λ a. a.ip4) addrs

pub advertised-nil : advertised [] ≡ []
unfolding advertised
advertised-nil = refl

advertised-here :
    (addr : Multiaddr) (addrs : List Multiaddr) {v : Bytes}
    → Routable addr v
    → advertised (addr ∷ addrs) ≡ addr ∷ []
unfolding advertised
advertised-here addr addrs (ip, some_text, not_loopback) = simp (ip, some_text, not_loopback)

pub advertised-further :
    (addr : Multiaddr) (addrs : List Multiaddr)
    → ((v : Bytes) → ¬ (Routable addr v))
    → advertised (addr ∷ addrs) ≡ advertised addrs
unfolding advertised
advertised-further addr addrs not_routable = elim (Option-cases addr.ip4) [
  | inl no_ip ↦ rw no_ip
  | inr (v, ip) ↦ elim (Bool-cases (bytes_eq v [])) [
    | inl no_text ↦ rw ip (rw no_text)
    | inr some_text ↦ elim (Bool-cases (bytes_eq v loopback)) [
      | inl local ↦ rw ip (rw some_text (rw local))
      | inr public ↦ absurd (not_routable v (ip, some_text, public))
    ]
  ]
]

abbrev pub url_of : Bytes → Bytes → Bytes
url_of port v = codes "https://" ++ (v ++ b':' ∷ port)

host_of-advertised :
    {addrs : List Multiaddr} {o : Option Bytes} (port : Bytes)
    → First addrs o
    → host_of port (ips (advertised addrs)) ≡ elim o [ none ↦ none | some v ↦ some (url_of port v) ]
unfolding host_of
host_of-advertised port nowhere = rw advertised-nil
host_of-advertised port (here {addr} {addrs} routable) =
    rw (advertised-here addr addrs routable) (rw routable.0)
host_of-advertised port (further {addr} {addrs} not_routable first) =
    rw (advertised-further addr addrs not_routable) (host_of-advertised port first)

peer_at-url_of :
    (id port : Bytes) (o : Option Bytes)
    → peer_at id (elim o [ none ↦ none | some v ↦ some (url_of port v) ])
      ≡ elim o [ none ↦ none | some v ↦ some (record { id = id; http_host = url_of port v }) ]
unfolding peer_at
peer_at-url_of id port none = refl
peer_at-url_of id port (some v) = refl

-- A node is found by other nodes at the first of its addresses that has an IPv4 address other than
-- the empty one and 127.0.0.1, at the port of the registry over TLS; a node with no such address is
-- found by none. The node that looks for it is another one, or allows itself.
pub peer_of-advertised :
    (self port id : Bytes) (allow_self : Bool) (addrs : List Multiaddr) (o : Option Bytes)
    → First addrs o
    → not allow_self && bytes_eq id self ≡ false
    → peer_of self port allow_self (record { id = id; addrs = ips (advertised addrs) })
      ≡ elim o [ none ↦ none | some v ↦ some (record { id = id; http_host = url_of port v }) ]
unfolding peer_of
peer_of-advertised self port id allow_self addrs o first other =
    rw other (rw (host_of-advertised port first) (peer_at-url_of id port o))
