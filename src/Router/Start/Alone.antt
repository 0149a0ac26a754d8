-- ===== src/Router/Start/Alone.antt =====
-- What `NewRouter` does on a node at which no other node could reach it.
use peerd_oci.Prelude.{List, Bytes, Option, ◌≡◌, none, ok, [], panic, ◌∙◌, ap, refl}
use peerd_oci.Router.Host.{
  Multiaddr, advertised, First, nowhere, here, further, advertised-nil, advertised-further,
}
use peerd_oci.Router.Start.{Libraries, new_router, new_host, self_of}
use peerd_oci.Action.Steps.{bind-ok, bind-panic}
use peerd_oci.Action.{gets, lift}

nothing_advertised :
    {addrs : List Multiaddr} {o : Option Bytes} → First addrs o → o ≡ none → advertised addrs ≡ []
nothing_advertised nowhere e = advertised-nil
nothing_advertised (here routable) e = absurd (cc)
nothing_advertised (further {addr} {addrs} not_routable first) e =
    advertised-further addr addrs not_routable ∙ nothing_advertised first e

-- On a node without an IPv4 address other than the empty one and 127.0.0.1, `NewRouter` panics once the
-- host is made, before the election, for it takes the first of no addresses. The library applies the
-- factory that `newHost` gives it to the addresses that the host listens on.
pub new_router-nowhere :
    (L : Libraries) (host_addr port : Bytes) (host : L.Host) (s t : L.State)
    (listened : List Multiaddr)
    → new_host L host_addr s ≡ (ok host, t)
    → L.host_addrs host t ≡ advertised listened
    → First listened none
    → new_router L host_addr port s ≡ (panic, t)
unfolding new_router self_of gets lift
new_router-nowhere L host_addr port host s t listened made shown alone =
    let none_shown : L.host_addrs host t ≡ [] = shown ∙ nothing_advertised alone refl in
    let at_addrs : gets (L.host_addrs host) t ≡ (ok [], t) = ap (λ a. (ok a, t)) none_shown in
    bind-ok (new_host L host_addr) _ s made
    ∙ bind-ok (gets (L.host_addrs host)) _ t at_addrs
    ∙ bind-panic (lift (self_of L host [])) _ t refl
