-- ===== src/Tests/Numbers.antt =====
-- Segments, ranges, digests and maps at concrete inputs.
use peerd_oci.Urlparser.Digest.{parse_digest_sound}
use peerd_oci.Urlparser.Regexp.Captures.{IsCapture}
use peerd_oci.Math.Cover.{Covers, all-Covers}
use peerd_oci.Strings.{format_int, parse_int}
use peerd_oci.Int64.{pos}
use peerd_oci.Cache.SyncMap.Room.{IsValid, Visits}
use peerd_oci.Cache.SyncMap.Laws.{set-IsValid}
use peerd_oci.Urlparser.{parse_digest, regexes, alphanumeric}
use peerd_oci.Strings.Split.{Lacks}
use peerd_oci.Context.{range_start_index}
use peerd_oci.Context.Range.{byte_range, range_start_index-format_int, range_start_index_sound}
use peerd_oci.Math.{new_segments, Segment, all}
use peerd_oci.Prelude.{
  Bytes, ℕ, List, ◌≡◌, codes, ◌≢◌, ok, [], ◌∷◌, arith, ◌^◌, none, ◌++◌, ◌>>=◌, ◌<◌, refl, bytes_eq,
}
use peerd_oci.Prelude.Dict
use peerd_oci.Cache.SyncMap
use peerd_oci.Cache.SyncMap.{SyncMap, set, get, new_sync_map, num_to_evict}

all-Covers_example :
    (segs : List Segment) × ((new_segments (pos 5) (pos (2 ^ 3)) (pos 20) (pos 17) >>= all 18)
      ≡ ok segs)
    × Covers (2 ^ 3) 5 17 segs
all-Covers_example = all-Covers 5 3 20 17 17 (omega arith) (omega arith) (omega arith) (omega arith)

abbrev range_header : Bytes
range_header = byte_range (format_int (pos 42)) (codes "99")

range_header_start : range_start_index range_header ≡ ok (pos 42)
range_header_start =
    range_start_index-format_int 42 (codes "99") (omega arith) (omega arith) (omega arith)

range_start_index-format_int_example : range_start_index range_header ≡ ok (pos 42)
range_start_index-format_int_example =
    range_start_index-format_int 42 (codes "99") (omega arith) (omega arith) (omega arith)

range_start_index_sound_example :
    (n : ℕ) × (start : Bytes) × (end : Bytes) × (range_header ≡ byte_range start end)
    × Lacks b'=' (start ++ b'-' ∷ end)
    × Lacks b'-' start
    × Lacks b'-' end
    × (parse_int start ≡ (pos n, none))
    × (pos 42 ≡ pos n)
    × (n < 2 ^ 63)
range_start_index_sound_example = range_start_index_sound range_header (pos 42) range_header_start

abbrev registry_url : Bytes
registry_url =
    codes
      "https://aviral26.eastus.data.azurecr.io?t=A2&d=sha256:1b930d010525941c1d56ec53b97bd057a67ae1865eebf042686d2a2d18271ced&p=my"

abbrev registry_digest : Bytes
registry_digest = codes "1b930d010525941c1d56ec53b97bd057a67ae1865eebf042686d2a2d18271ced"

registry_url_digest : parse_digest registry_url ≡ ok (codes "sha256:" ++ registry_digest)
unfolding parse_digest regexes
registry_url_digest = refl

parse_digest_sound_example :
    (registry_url ≢ [])
    × (g : Bytes) × (codes "sha256:" ++ registry_digest ≡ codes "sha256:" ++ g)
    × IsCapture 64 alphanumeric registry_url g
parse_digest_sound_example = parse_digest_sound registry_url registry_url_digest

-- A full map of two entries.
abbrev full_map : SyncMap ℕ
full_map = record {
  entries = (codes "a", 1) ∷ (codes "b", 2) ∷ [];
  capacity = 2;
  eviction_percentage = 5;
}

full_map-IsValid : IsValid full_map
unfolding Dict.lookup bytes_eq
full_map-IsValid = record {
  nodup = (refl, (refl, tt));
  positive = omega arith;
  bounded = omega arith;
  percentage = omega arith;
}

abbrev a_then_b : List Bytes
a_then_b = codes "a" ∷ codes "b" ∷ []

a_then_b-Visits : Visits a_then_b full_map.entries
unfolding Dict.lookup Dict.erase bytes_eq
a_then_b-Visits = ((1, refl), ((2, refl), refl))

set-IsValid_example : IsValid (SyncMap.set a_then_b (codes "c") 3 full_map)
set-IsValid_example = set-IsValid a_then_b (codes "c") 3 full_map full_map-IsValid a_then_b-Visits
