-- ===== src/Cache/SyncMap/Laws.antt =====
-- The size of the map, and what can be read after a `Set`.
use peerd_oci.Prelude.{
  List, length, Bytes, ◌≤◌, ◌≡◌, ◌+◌, ◌⊎◌, some, arith, none, leb, inl, [], inr, refl, bytes_eq,
  if◌then◌else◌, ◌-◌, Option-cases, false,
}
use peerd_oci.Prelude.Dict
use peerd_oci.Prelude.Dict.{Dict}
use peerd_oci.Prelude.Dict.Size
use peerd_oci.Prelude.Dict.Size.{NodupKeys}
use peerd_oci.Cache.SyncMap.{SyncMap, new_sync_map, get, num_to_evict, make_room, set, ℤ}
use peerd_oci.Cache.SyncMap.Room.{
  IsValid, Visits, num_to_evict_bounds, make_room-NodupKeys, length-make_room, lookup-make_room,
  make_room_fresh,
}

module _ {ℓ} {V : Type ℓ} where
  -- How many entries there are after `Set` in a valid map: as many as before for a key that is
  -- there, one more for a new key where there is room, and for a new key in a full map one more
  -- than are left when entries were dropped to make room.
  pub length-set :
      (order : List Bytes) (key : Bytes) (entry : V) (sm : SyncMap V)
      → IsValid sm
      → Visits order sm.entries
      → length (set order key entry sm).entries ≡ elim (get key sm) [
        | some old ↦ length sm.entries
        | none ↦
            if leb sm.capacity (length sm.entries)
            then length sm.entries - num_to_evict sm + 1
            else length sm.entries + 1
      ]
  unfolding set get
  length-set order key entry sm v visits = elim (Option-cases (Dict.lookup key sm.entries)) [
    | inl fresh ↦
        let new =
          Size.length-insert_new key entry (make_room order sm)
            (make_room_fresh order sm key fresh) in
        rw fresh (ground (arith, new, length-make_room order sm v visits))
    | inr (old, here) ↦ rw here (Size.length-insert_old key entry old sm.entries here)
  ]

  -- `Set` keeps a valid map valid: no key stands twice, and there are never more entries than the
  -- capacity, whatever the order of the range over the map.
  pub set-IsValid :
      (order : List Bytes) (key : Bytes) (entry : V) (sm : SyncMap V)
      → IsValid sm
      → Visits order sm.entries
      → IsValid (set order key entry sm)
  unfolding set
  set-IsValid order key entry sm v visits = elim (Option-cases (Dict.lookup key sm.entries)) [
    | inl fresh ↦
        rw (fresh, set)
          (record {
            nodup = Size.insert-NodupKeys key entry _ (make_room-NodupKeys order sm v);
            positive = v.positive;
            bounded = ground (
              arith,
              Size.length-insert_new key entry (make_room order sm)
                  (make_room_fresh order sm key fresh),
              length-make_room order sm v visits,
              num_to_evict_bounds sm v,
            );
            percentage = v.percentage;
          })
    | inr (old, here) ↦
        rw (here, set)
          (record {
            nodup = Size.insert-NodupKeys key entry sm.entries v.nodup;
            positive = v.positive;
            bounded = omega (arith, Size.length-insert_old key entry old sm.entries here);
            percentage = v.percentage;
          })
  ]

  -- After `Set` the key is read as the new entry.
  pub get-set_self :
      (order : List Bytes) (key : Bytes) (entry : V) (sm : SyncMap V)
      → get key (set order key entry sm) ≡ some entry
  unfolding get set
  get-set_self order key entry sm = Dict.lookup-insert_self key entry _

  -- After `Set` any other key is read as before, unless the map was full and the key of the call
  -- new; then its entry may have been dropped to make room.
  pub get-set_ne :
      (order : List Bytes) (key q : Bytes) (entry : V) (sm : SyncMap V)
      → bytes_eq key q ≡ false
      → (get q (set order key entry sm) ≡ get q sm)
        ⊎ ((get key sm ≡ none)
            × (sm.capacity ≤ length sm.entries)
            × (get q (set order key entry sm) ≡ none))
  unfolding get set
  get-set_ne order key q entry sm other = elim (Option-cases (Dict.lookup key sm.entries)) [
    | inl fresh ↦
        rw (Dict.lookup-insert_ne key q entry _ other, fresh)
          (elim (lookup-make_room order sm q) [
            | inl same ↦ inl same
            | inr gone ↦ inr (refl, gone.0, gone.1)
          ])
    | inr (old, here) ↦ rw (Dict.lookup-insert_ne key q entry _ other, here) (inl refl)
  ]

  -- A new map is valid and empty, whatever capacity is asked for.
  pub new_sync_map-IsValid :
      (max_entries : ℤ)
      → IsValid (new_sync_map {V = V} max_entries)
        × ((new_sync_map {V = V} max_entries).entries ≡ [])
  unfolding new_sync_map
  new_sync_map-IsValid max_entries = (
    record {
      nodup = tt;
      positive = ground arith;
      bounded = ground arith;
      percentage = omega arith;
    },
    refl,
  )
