-- ===== src/Peernet.antt =====
-- pkg/peernet/network.go: the TLS configurations and the HTTP clients by peer. The identities of libp2p are
-- an interface.
pub mod Handshake
use peerd_oci.Prelude.{
  ◌>>=◌, Outcome, List, ℕ, Option, none, [], Bytes, Bool, false, if◌then◌else◌, bytes_eq, true,
  some, ok,
}

-- An identity has certificates, and a test of the certificates that a peer shows, for a peer id.
pub record TlsLibrary : Type 1 where
  pub PrivKey : Type 0
  pub Identity : Type 0
  pub Certificate : Type 0
  pub new_identity : PrivKey → Outcome Identity
  pub certificates : Identity → Bytes → List Certificate
  pub verify_peer_certificate : Identity → Bytes → List Certificate → Bool

-- `tls.Config`, as far as this package sets it.
pub record TlsConfig (C : Type 0) : Type 0 where
  pub certificates : List C
  pub require_client_cert : Bool
  pub verify_peer_certificate : Option (List C → Bool)
  pub insecure_skip_verify : Bool

pub record Transport (C : Type 0) : Type 0 where
  pub tls_client_config : TlsConfig C
  pub max_conns_per_host : ℕ

-- `http.Client`; one without a transport uses the default one of net/http. The timeout is in seconds.
pub record Client (C : Type 0) : Type 0 where
  pub transport : Option (Transport C)
  pub timeout : ℕ

abbrev pub default_timeout : ℕ
default_timeout = 90

abbrev pub default_http_client : {C : Type 0} → Client C
default_http_client = record { transport = none; timeout = default_timeout }

-- `network`.
pub record PeerNetwork (I C : Type 0) : Type 0 where
  pub id : I
  pub default_tls_config : TlsConfig C
  pub default_transport : Transport C

module _ (T : TlsLibrary) where
  open T use {Identity, Certificate, PrivKey}

  -- `DefaultTLSConfig`: of `New`.
  unfoldable pub default_config : Identity → TlsConfig Certificate
  default_config id = record {
    certificates = T.certificates id [];
    require_client_cert = false;
    verify_peer_certificate = none;
    insecure_skip_verify = false;
  }

  -- `New`, with the private key of the host.
  unfoldable pub new_network : PrivKey → Outcome (PeerNetwork Identity Certificate)
  unfolding default_config
  new_network key = do
    id ← T.new_identity key
    ok (record {
      id = id;
      default_tls_config = default_config id;
      default_transport = record {
        tls_client_config = default_config id;
        max_conns_per_host = 100;
      };
    })

  -- `transportFor`.
  unfoldable pub transport_for : PeerNetwork Identity Certificate → Bytes → Transport Certificate
  transport_for n pid = if bytes_eq pid [] then n.default_transport else record {
    tls_client_config = record {
      certificates = T.certificates n.id pid;
      require_client_cert = true;
      verify_peer_certificate = some (T.verify_peer_certificate n.id pid);
      insecure_skip_verify = true;
    };
    max_conns_per_host = 100;
  }

  -- `RoundTripperFor`.
  unfoldable pub round_tripper_for :
      PeerNetwork Identity Certificate → Bytes → Transport Certificate
  round_tripper_for n pid = if bytes_eq pid [] then n.default_transport else transport_for n pid

  -- `HTTPClientFor`.
  unfoldable pub http_client_for : PeerNetwork Identity Certificate → Bytes → Client Certificate
  http_client_for n pid =
      if bytes_eq pid []
      then default_http_client
      else record { transport = some (transport_for n pid); timeout = default_timeout }
