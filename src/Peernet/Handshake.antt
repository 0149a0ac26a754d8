-- ===== src/Peernet/Handshake.antt =====
-- Which servers the clients of peernet accept.
use peerd_oci.Action.Rules.{ok-injective}
use peerd_oci.Prelude.{
  List, Bytes, Bool, ◌||◌, ◌≡◌, none, ◌&&◌, ok, true, if◌then◌else◌, bytes_eq, [], bind_inv,
  Bool-cases, inl, inr, ap, sym, ◌∙◌,
}
use peerd_oci.Peernet.{
  TlsLibrary, TlsConfig, Client, PeerNetwork, transport_for, round_tripper_for, http_client_for,
  new_network, some, default_config,
}

-- The handshake of crypto/tls on the certificates that a server shows: their chain must lead to a
-- root of the system, unless that is skipped, and the test of the configuration must hold, if it has one.
abbrev pub accepts : {C : Type 0} → TlsConfig C → (List C → Bool) → List C → Bool
accepts config trusted shown =
    (config.insecure_skip_verify || trusted shown)
    && elim config.verify_peer_certificate [ none ↦ true | some test ↦ test shown ]

-- The default transport of net/http has no configuration of its own.
abbrev pub client_accepts : {C : Type 0} → Client C → (List C → Bool) → List C → Bool
client_accepts client trusted shown = elim client.transport [
  | none ↦ trusted shown
  | some transport ↦ accepts transport.tls_client_config trusted shown
]

default_config-accepts :
    (T : TlsLibrary) (id : T.Identity) (trusted : List T.Certificate → Bool)
    (shown : List T.Certificate)
    → accepts (default_config T id) trusted shown ≡ trusted shown
unfolding default_config
default_config-accepts T id trusted shown = elim (Bool-cases (trusted shown)) [
  | inl good ↦ rw good
  | inr bad ↦ rw bad
]

-- The client and the round tripper for a peer accept just the servers that prove to be this peer,
-- whether their certificates lead to a root of the system or not. Those for the empty id accept just the
-- servers whose certificates lead to a root, whoever they are.
pub new_network-accepts :
    (T : TlsLibrary) (key : T.PrivKey) (n : PeerNetwork T.Identity T.Certificate) (pid : Bytes)
    (trusted : List T.Certificate → Bool) (shown : List T.Certificate)
    → new_network T key ≡ ok n
    → (client_accepts (http_client_for T n pid) trusted shown
        ≡ (if bytes_eq pid [] then trusted shown else T.verify_peer_certificate n.id pid shown))
      × (accepts (round_tripper_for T n pid).tls_client_config trusted shown
          ≡ (if bytes_eq pid [] then trusted shown else T.verify_peer_certificate n.id pid shown))
unfolding new_network http_client_for round_tripper_for transport_for
new_network-accepts T key n pid trusted shown made =
    let (id, _, same) = bind_inv (T.new_identity key) _ made in
    let any_one : accepts n.default_transport.tls_client_config trusted shown ≡ trusted shown =
      ap (λ m. accepts m.default_transport.tls_client_config trusted shown)
        (sym (ok-injective same))
      ∙ default_config-accepts T id trusted shown in
    elim (Bool-cases (bytes_eq pid [])) [
      | inl any ↦ (rw any, rw any any_one)
      | inr named ↦ (rw named, rw named)
    ]
