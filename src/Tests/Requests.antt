-- ===== src/Tests/Requests.antt =====
-- Requests, peers and files at concrete inputs.
use peerd_oci.Reader.Peers.{peer_loop-answer, peer_loop-exhausted, next_fails, none_left}
use peerd_oci.Action.{continue, pure, lift}
use peerd_oci.Context.Range.{byte_range}
use peerd_oci.Strings.{format_int}
use peerd_oci.Files.Fetch.{fetch_file-origin, origin_get}
use peerd_oci.Strings.{trim_prefix_byte}
use peerd_oci.Reader.Requests.{remote_header-received, do_p2p-one_hop}
use peerd_oci.Int64.{pos}
use peerd_oci.Files.{fetch_file}
use peerd_oci.Urlparser.{parse_digest, regexes}
use peerd_oci.Context.{Context, is_request_from_a_peer, blob_url, range_start_index}
use peerd_oci.Reader.{
  Network, do_p2p, PeerInfo, ask_peer, peer_loop, remote_header, Call, perform,
  operation_pread_remote, fstat_request, peer, peer_request, remote_request, do_request, closed,
  operation_fstat_remote, wrapped, size_of_response,
}
use peerd_oci.Http.{Response, header_get, Request, header_set}
use peerd_oci.Prelude.{
  Bytes, ℕ, codes, true, err, [], ◌≡◌, map, if◌then◌else◌, transport_failure, ok, bytes_eq, ◌+◌,
  arith, peer_not_found, ◌∷◌, ◌++◌, inl, refl, inr, ◌^◌,
}

-- A network that counts what is sent. The peer "a" fails, and all others, the origin among them,
-- answer with the bytes "hello".
abbrev pub hello : Response
hello = record { status = 200; content_length = pos 5; header = []; body = codes "hello" }

abbrev pub network : Network
network = record {
  State = ℕ;
  valid_url = λ u. true;
  send = λ client req n.
      if bytes_eq client (codes "a") then (err transport_failure, n + 1) else (ok hello, n + 1);
  resolve = λ key n. (ok [], n);
  dismiss = λ key n. n + 100;
}

-- A network in which nothing answers.
abbrev pub no_network : Network
no_network = record network { send = λ client req n. (err transport_failure, n + 1) }

abbrev pub request : Context
request = record {
  method = codes "GET";
  param_url = codes "/u";
  raw_query = [];
  header = [];
  keys = [];
}

-- A request that another node made for the bytes 7 to 9.
abbrev pub peer_request_7 : Context
peer_request_7 = record request {
  param_url = codes "/https://aviral26.eastus.data.azurecr.io";
  raw_query =
      codes "t=A2&d=sha256:1b930d010525941c1d56ec53b97bd057a67ae1865eebf042686d2a2d18271ced&p=my";
  header = remote_header (codes "n") (pos 7) (pos 9) request;
}

abbrev pub digest : Bytes
digest = codes "sha256:1b930d010525941c1d56ec53b97bd057a67ae1865eebf042686d2a2d18271ced"

pub peer_request_7-digest : parse_digest (blob_url peer_request_7) ≡ ok digest
unfolding parse_digest regexes blob_url trim_prefix_byte
peer_request_7-digest = refl

pub from_a_peer : is_request_from_a_peer peer_request_7 ≡ true
from_a_peer =
    (remote_header-received (codes "n") 7 9 request peer_request_7 (omega arith) (omega arith)
      refl).0

pub range_of_7 : range_start_index (header_get (codes "Range") peer_request_7.header) ≡ ok (pos 7)
range_of_7 =
    (remote_header-received (codes "n") 7 9 request peer_request_7 (omega arith) (omega arith)
      refl).1

remote_header-received_example :
    (is_request_from_a_peer peer_request_7 ≡ true)
    × (range_start_index (header_get (codes "Range") peer_request_7.header) ≡ ok (pos 7))
remote_header-received_example =
    remote_header-received (codes "n") 7 9 request peer_request_7 (omega arith) (omega arith) refl

-- A request of a client for the bytes from 7 on.
abbrev client_request_7 : Context
client_request_7 = record peer_request_7 {
  header = header_set (codes "Range") (byte_range (format_int (pos 7)) (codes "9")) [];
}

-- What a peer receives when the node asks for the second block.
abbrev next_block : Context
next_block = record client_request_7 {
  header = remote_header (codes "n") (pos (2 ^ 20)) (pos (2 ^ 20 + 1)) client_request_7;
}

do_p2p-one_hop_example :
    do_p2p network
      (codes "m")
      peer_request_7
      (codes "k")
      (pos 7)
      (pos 9)
      operation_pread_remote
      (record { net = 0; buf = [] })
    ≡ (err peer_not_found, record { net = 0; buf = [] })
do_p2p-one_hop_example =
    do_p2p-one_hop network (codes "n") (codes "m") request peer_request_7 (pos 7) (pos 9)
      (codes "k") (pos 7) (pos 9) operation_pread_remote (record { net = 0; buf = [] }) refl

abbrev peer_a : PeerInfo
peer_a = record { id = codes "a"; http_host = codes "https://a" }

abbrev peer_b : PeerInfo
peer_b = record { id = codes "b"; http_host = codes "https://b" }

abbrev after_calls : ℕ → Call ℕ
after_calls n = record { net = n; buf = [] }

a_fails :
    ask_peer network
      (codes "n")
      request
      peer_a
      (pos 0)
      (pos 0)
      operation_fstat_remote
      (after_calls 0)
    ≡ (err transport_failure, after_calls 1)
unfolding ask_peer perform fstat_request peer_request remote_request do_request
    peerd_oci.Action.◌>>=◌ peerd_oci.Action.continue pure wrapped bytes_eq
a_fails = refl

b_answers :
    ask_peer network
      (codes "n")
      request
      peer_b
      (pos 0)
      (pos 0)
      operation_fstat_remote
      (after_calls 1)
    ≡ (ok (pos 5), after_calls 2)
unfolding ask_peer perform fstat_request peer_request remote_request do_request
    peerd_oci.Action.◌>>=◌ peerd_oci.Action.continue pure wrapped bytes_eq lift size_of_response
b_answers = refl

peer_loop-answer_example :
    peer_loop network
      (codes "n")
      request
      (map peer (peer_a ∷ []) ++ peer peer_b ∷ closed ∷ [])
      (codes "k")
      (pos 0)
      (pos 0)
      operation_fstat_remote
      (after_calls 0)
    ≡ (ok (pos 5), after_calls 2)
peer_loop-answer_example =
    peer_loop-answer network (codes "n") request (codes "k") (pos 0) (pos 0) operation_fstat_remote
      (peer_a ∷ []) peer_b (closed ∷ []) (after_calls 0) (after_calls 1) (after_calls 2) (pos 5)
      (next_fails a_fails none_left) b_answers

peer_loop-exhausted_example :
    peer_loop network
      (codes "n")
      request
      (map peer (peer_a ∷ []) ++ closed ∷ [])
      (codes "k")
      (pos 0)
      (pos 0)
      operation_fstat_remote
      (after_calls 0)
    ≡ (err peer_not_found, after_calls 101)
peer_loop-exhausted_example =
    peer_loop-exhausted network (codes "n") request (codes "k") (pos 0) (pos 0)
      operation_fstat_remote (peer_a ∷ []) (closed ∷ []) (after_calls 0) (after_calls 1)
      (next_fails a_fails none_left) (inr refl)

pub origin_answers : (req : Request) (n : ℕ) → network.send [] req n ≡ (ok hello, n + 1)
unfolding bytes_eq
origin_answers req n = refl

fetch_file-origin_example :
    fetch_file network (codes "n") peer_request_7 (pos 0) (pos 3) 0 ≡ (ok (codes "hel"), 1)
fetch_file-origin_example =
    fetch_file-origin network (codes "n") peer_request_7 (pos 0) 3 0 1 hello from_a_peer refl
      (origin_answers (origin_get network (codes "n") peer_request_7 (pos 0) 3) 0) (inl refl)
