-- ===== src/Tests/Served.antt =====
-- Reads through a cache with no block of the file, from servers that hold it.
use peerd_oci.Store.File.Reads.Transparent.{read_on-transparent, read_on-Truthful}
use peerd_oci.Int64.Laws.{add64-pos, sub64-pos}
use peerd_oci.Store.File.Reads.{read_on, cursor, with_cache}
use peerd_oci.Prelude.Dict.{Dict}
use peerd_oci.Store.File.{Session, seek, seek_start}
use peerd_oci.Int64.{ℤ, pos, sub64, negsuc, add64}
use peerd_oci.Cache.Item.{World}
use peerd_oci.Context.{Context, range_start_index}
use peerd_oci.Prelude.{
  ◌⊎◌, leb, ◌≡◌, ◌≤◌, Outcome, ℕ, codes, refl, if◌then◌else◌, Bytes, ◌+◌, bytes_eq, ◌<◌, drop, [],
  err, slice, ap, ok, transport_failure, ◌-◌, inr, ◌∷◌, arith, inl, panic, sym, blocked, ◌∙◌,
  take-drop_append, take, ◌++◌, Bool-cases, subst, read_at_failed, false,
}
use peerd_oci.Prelude.Dict
use peerd_oci.Store.File.Serves.{block_bytes}
use peerd_oci.Files.{cache_block_size}
use peerd_oci.Math.Align.{block_start}
use peerd_oci.Prelude.{length, ◌≢◌}
use peerd_oci.Prelude.{bytes_eq_sound}
use peerd_oci.Cache.FileCache.{get_key}
use peerd_oci.Store.File.{fstat}
use peerd_oci.Strings.{after_last}
use peerd_oci.Reader.{size_of_response, range_size}
use peerd_oci.Store.File.Reads.Fresh.{GivesSize, read_on-fresh}
use peerd_oci.Cache.SyncMap
use peerd_oci.Os.{Disk}
use peerd_oci.Cache.FileCache.Start.{new_cache}
use peerd_oci.Cache.FileCache.{metainfo_key}
use peerd_oci.Prelude.{some, none}
use peerd_oci.Store.File.Serves.Start.{new_cache_from-Serves, new_cache-Serves}
use peerd_oci.Tests.Files.{size_of_g, session, size_of_f, known_file, any_order}
use peerd_oci.Tests.Requests.{network, request}
use peerd_oci.Tests.Caches.{no_block, item_map, cache_path}
use peerd_oci.Reader.Requests.{remote_header-received}
use peerd_oci.Reader.{remote_header, peer, closed, Network}
use peerd_oci.Http.{header_get, Response}
use peerd_oci.Reader.Honest.{
  range_get, StartsWith, Honest, Truthful, no_answer, serves, origin_url, peer_url, MayServe,
}
use peerd_oci.Store.File.Serves.{Serves, Lossless, absent}
use peerd_oci.Action.{◌>>◌}

-- The answer of a server that holds "hello", from the start of a range on.
answer : Outcome ℤ → Outcome Response
answer (ok (pos i)) =
    ok (record { status = 206; content_length = pos 5; header = []; body = drop i (codes "hello") })
answer (ok (negsuc i)) = err transport_failure
answer (err e) = err e
answer panic = panic
answer blocked = blocked

-- A network in which the origin serves "hello", and one peer is found, whose requests fail.
abbrev serving : Network
serving = record network {
  send = λ client req n.
      if bytes_eq client (codes "a")
      then (err transport_failure, n + 1)
      else (answer (range_start_index (header_get (codes "Range") req.header)), n + 1);
  resolve = λ key n.
      (ok (peer (record { id = codes "a"; http_host = codes "http://a" }) ∷ closed ∷ []), n);
}

answer-range :
    (c : Context) (url : Bytes) (start n : ℕ)
    → 0 < n
    → start + n ≤ 5
    → answer (
        range_start_index (header_get (codes "Range") (range_get (codes "n") c url start n).header))
      ≡ answer (ok (pos start))
answer-range c url start n some_bytes inside =
    let end : sub64 (add64 (pos n) (pos start)) (pos 1) ≡ pos (n + start - 1) =
      ap (λ x. sub64 x (pos 1)) (add64-pos n start (omega arith))
      ∙ sub64-pos (n + start) 1 (omega arith) (omega arith) in
    ap answer (
      (remote_header-received (codes "n") start (n + start - 1) c
        (record request { header = (range_get (codes "n") c url start n).header }) (omega arith)
        (omega arith) (ap (λ e. remote_header (codes "n") (pos start) e c) end)).1)

answer-StartsWith :
    (start n : ℕ)
    → start + n ≤ 5
    → StartsWith (drop start (codes "hello")) (slice (codes "hello") start (start + n))
answer-StartsWith start n inside =
    let x = drop start (codes "hello") in
    let same : start + n - start ≡ n = omega arith in
    (drop n x, sym (take-drop_append n x) ∙ ap (λ m. take m x ++ drop n x) (sym same))

-- The peer with the id "a" does not answer, and any other serves the file.
serving-MayServe :
    (id url : Bytes) (start n net : ℕ)
    → 0 < n
    → start + n ≤ 5
    → MayServe
        (slice (codes "hello") start (start + n))
        (serving.send id (range_get (codes "n") request url start n) net).0
unfolding answer
serving-MayServe id url start n net some_bytes inside =
    elim (Bool-cases (bytes_eq id (codes "a"))) [
      | inl silent ↦ rw silent no_answer
      | inr other ↦ rw other (
          subst (MayServe (slice (codes "hello") start (start + n)))
            (sym (answer-range request url start n some_bytes inside))
            (serves (inr refl) (answer-StartsWith start n inside)))
    ]

serving-Truthful : Truthful serving (codes "n") request (codes "hello")
serving-Truthful = record {
  url_valid = refl;
  origin = serving-MayServe [] (origin_url request);
  peers = λ id host. serving-MayServe id (peer_url request host);
  resolves = λ key net. inl (_, refl);
}

serving-Honest : Honest serving (codes "n") request (codes "hello")
unfolding bytes_eq answer
serving-Honest = record {
  truthful = serving-Truthful;
  serving = λ start n net some_bytes inside. (
    record { status = 206; content_length = pos 5; header = []; body = drop start (codes "hello") },
    net + 1,
    ap (λ r. (r, net + 1)) (answer-range request (origin_url request) start n some_bytes inside),
    inr refl,
    answer-StartsWith start n inside,
  );
}

-- The same servers, of which none answers after the third request.
abbrev flaky : Network
flaky = record serving {
  send =
      λ client req n. if leb 3 n then (err transport_failure, n + 1) else serving.send client req n;
}

flaky-MayServe :
    (id url : Bytes) (start n net : ℕ)
    → 0 < n
    → start + n ≤ 5
    → MayServe
        (slice (codes "hello") start (start + n))
        (flaky.send id (range_get (codes "n") request url start n) net).0
flaky-MayServe id url start n net some_bytes inside = elim (Bool-cases (leb 3 net)) [
  | inl late ↦ rw late no_answer
  | inr early ↦ rw early (serving-MayServe id url start n net some_bytes inside)
]

flaky-Truthful : Truthful flaky (codes "n") request (codes "hello")
flaky-Truthful = record {
  url_valid = refl;
  origin = flaky-MayServe [] (origin_url request);
  peers = λ id host. flaky-MayServe id (peer_url request host);
  resolves = λ key net. inl (_, refl);
}

item_map-Lossless : Lossless item_map
item_map-Lossless = record {
  takes = λ key p s. (
    Dict.insert key p s,
    refl,
    Dict.lookup-insert_self key p s,
    λ other differ. Dict.lookup-insert_ne key other p s differ,
  );
}

-- A store with no block of the file "f", whose size is known.
abbrev new_store : Session (Dict ℕ) ℕ
new_store = record known_file { cache = no_block }

new_store-Serves : Serves item_map cache_path no_block (codes "f") (codes "hello")
unfolding Dict.lookup
new_store-Serves = record {
  free = refl;
  calm = refl;
  owner = λ i. [];
  blocks = λ o inside. absent refl refl;
}

read_on-transparent_example :
    (w' : World (Dict ℕ) ℕ) × ((seek item_map serving cache_path
            (codes "n")
            any_order
            (pos 1)
            seek_start
          >> read_on item_map serving cache_path (codes "n") any_order 3 2 3)
        new_store
      ≡ (
        ok (codes "ell"),
        cursor item_map serving cache_path
            (codes "n")
            any_order
            5
            4
            (with_cache item_map serving cache_path (codes "n") any_order w' new_store),
      ))
    × Serves item_map cache_path w' (codes "f") (codes "hello")
read_on-transparent_example =
    read_on-transparent item_map serving cache_path (codes "n") any_order new_store (codes "hello")
      1 2 3 item_map-Lossless serving-Honest new_store-Serves (omega arith) refl size_of_f refl
      (omega arith) (omega arith)

read_on-Truthful_example :
    (w' : World (Dict ℕ) ℕ) × (r : Outcome Bytes) × (cur : ℕ) × ((seek item_map flaky cache_path
            (codes "n")
            any_order
            (pos 1)
            seek_start
          >> read_on item_map flaky cache_path (codes "n") any_order 3 2 3)
        new_store
      ≡ (
        r,
        cursor item_map flaky cache_path
            (codes "n")
            any_order
            5
            cur
            (with_cache item_map flaky cache_path (codes "n") any_order w' new_store),
      ))
    × ((r ≡ ok (codes "ell")) ⊎ (r ≡ err read_at_failed))
    × Serves item_map cache_path w' (codes "f") (codes "hello")
read_on-Truthful_example =
    read_on-Truthful item_map flaky cache_path (codes "n") any_order new_store (codes "hello") 1 2 3
      item_map-Lossless flaky-Truthful new_store-Serves (omega arith) refl size_of_f refl
      (omega arith) (omega arith)

-- A disk with a part of the first block of "f", which an earlier run left.
abbrev used_disk : Disk
used_disk = record {
  content = λ i. codes "hel";
  names = (get_key cache_path (codes "f") (pos 0), 0) ∷ [];
  next = 1;
  faults = [];
}

used_disk-owned :
    (key : Bytes) (i : ℕ)
    → Dict.lookup key used_disk.names ≡ some i
    → (get_key cache_path (codes "f") (pos 0) ≡ key) × (i < 1)
unfolding Dict.lookup
used_disk-owned key i there =
    elim (Bool-cases (bytes_eq (get_key cache_path (codes "f") (pos 0)) key)) [
      | inl same ↦ (bytes_eq_sound _ _ same, ground arith)
      | inr other ↦ absurd (ground arith)
    ]

part-differs :
    (o : ℕ) → o < 5 → 3 ≢ length (block_bytes (codes "hello") (block_start o cache_block_size))
part-differs o inside =
    let first : 0 ≡ block_start o cache_block_size = omega arith in
    subst (λ s. 3 ≢ length (block_bytes (codes "hello") s)) first
      (λ same. absurd (omega (arith, same)))

used_disk-Serves :
    (w : World (Dict ℕ) ℕ) × (new_cache (ok []) 0 used_disk ≡ (some w, used_disk))
    × Serves item_map cache_path w (codes "f") (codes "hello")
    × (SyncMap.get (metainfo_key (codes "f")) w.sizes ≡ none)
unfolding Dict.lookup
used_disk-Serves =
    new_cache_from-Serves item_map cache_path 0 used_disk [] (codes "f") (codes "hello")
      (λ i. get_key cache_path (codes "f") (pos 0)) refl
      (λ o i inside there. used_disk-owned _ i there)
      (λ o i inside there. inr (part-differs o inside)) (λ key. refl)

-- What is left when the servers have failed in the middle of a read.
abbrev interrupted : World (Dict ℕ) ℕ
interrupted =
    (read_on-Truthful item_map flaky cache_path (codes "n") any_order new_store (codes "hello") 1 2
      3 item_map-Lossless flaky-Truthful new_store-Serves (omega arith) refl size_of_f refl
      (omega arith) (omega arith)).0

interrupted-Serves : Serves item_map cache_path interrupted (codes "f") (codes "hello")
interrupted-Serves =
    (read_on-Truthful item_map flaky cache_path (codes "n") any_order new_store (codes "hello") 1 2
      3 item_map-Lossless flaky-Truthful new_store-Serves (omega arith) refl size_of_f refl
      (omega arith) (omega arith)).5

new_cache-Serves_example :
    (w : World (Dict ℕ) ℕ) × (new_cache (ok []) 0 interrupted.disk ≡ (some w, interrupted.disk))
    × Serves item_map cache_path w (codes "f") (codes "hello")
    × (SyncMap.get (metainfo_key (codes "f")) w.sizes ≡ none)
unfolding Dict.lookup
new_cache-Serves_example =
    new_cache-Serves item_map cache_path interrupted 0 [] (codes "f") (codes "hello")
      interrupted-Serves (λ key. refl)

-- A file of which nothing is known.
abbrev fresh_file : Session (Dict ℕ) ℕ
fresh_file = record (session (codes "g")) { cache = no_block }

fresh_file-Serves : Serves item_map cache_path no_block (codes "g") (codes "hello")
unfolding Dict.lookup
fresh_file-Serves = record {
  free = refl;
  calm = refl;
  owner = λ i. [];
  blocks = λ o inside. absent refl refl;
}

serving-GivesSize : GivesSize serving (codes "n") request 5
unfolding size_of_response range_size bytes_eq after_last sub64 answer peerd_oci.Int64.wrap64 add64
    header_get Dict.lookup
serving-GivesSize net = (
  record { status = 206; content_length = pos 5; header = []; body = codes "hello" },
  net + 1,
  ap (λ r. (r, net + 1))
      (answer-range request (origin_url request) 0 1 (omega arith) (omega arith)),
  refl,
)

read_on-fresh_example :
    (t : Session (Dict ℕ) ℕ) × ((fstat item_map serving cache_path (codes "n") any_order
          >> (seek item_map serving cache_path (codes "n") any_order (pos 1) seek_start
              >> read_on item_map serving cache_path (codes "n") any_order 3 2 3))
        fresh_file
      ≡ (ok (codes "ell"), t))
    × (t.file.stat_locked ≡ false)
    × (t.file.cur ≡ pos 4)
    × Serves item_map cache_path t.cache (codes "g") (codes "hello")
read_on-fresh_example =
    read_on-fresh item_map serving cache_path (codes "n") any_order fresh_file (codes "hello") 1 2 3
      item_map-Lossless serving-Honest serving-GivesSize fresh_file-Serves (omega arith) size_of_g
      refl refl (omega arith) (omega arith)
