-- ===== src/Cache/SyncMap/Room.antt =====
-- What is left of the map when room is made for a new key.
use peerd_oci.Prelude.{
  ◌<◌, List, length, Bytes, ◌≤◌, ◌≡◌, ℕ, ◌∷◌, ◌+◌, ◌⊎◌, some, Bool-cases, arith, none, leb, inl, [],
  inr, refl, ap, bytes_eq, if◌then◌else◌, bytes_eq_sound, ◌-◌, ◌*◌, leb→le, ◌∙◌,
}
use peerd_oci.Prelude.Dict
use peerd_oci.Prelude.Dict.{Dict}
use peerd_oci.Prelude.Dict.Size
use peerd_oci.Prelude.Dict.Size.{NodupKeys}
use peerd_oci.Cache.SyncMap.{SyncMap, evict, num_to_evict, make_room}

module _ {ℓ} {V : Type ℓ} where
  pub record IsValid (sm : SyncMap V) : Type ℓ where
    pub nodup : NodupKeys sm.entries
    pub positive : 0 < sm.capacity
    pub bounded : length sm.entries ≤ sm.capacity
    pub percentage : sm.eviction_percentage ≤ 100

  -- A range over a map that deletes each key it visits: it visits a key that is in the map, as long
  -- as there is one.
  abbrev pub Visits : List Bytes → Dict V → Type ℓ
  Visits [] m = m ≡ []
  Visits (k ∷ order) m = ((v : V) × (Dict.lookup k m ≡ some v)) × Visits order (Dict.erase k m)

  pub evict-NodupKeys :
      (order : List Bytes) (t n : ℕ) (m : Dict V) → NodupKeys m → NodupKeys (evict order t n m)
  unfolding evict
  evict-NodupKeys [] t n m h = h
  evict-NodupKeys (k ∷ order) t n m h = elim (Bool-cases (leb t (n + 1))) [
    | inl last ↦ rw last (Size.erase-NodupKeys k m h)
    | inr more ↦
        rw more (evict-NodupKeys order t (n + 1) (Dict.erase k m) (Size.erase-NodupKeys k m h))
  ]

  -- The loop deletes the entries that are still to go, while there are any.
  pub length-evict :
      (order : List Bytes) (t n : ℕ) (m : Dict V)
      → NodupKeys m
      → Visits order m
      → n < t
      → t ≤ n + length m
      → length (evict order t n m) + t ≡ length m + n
  unfolding evict
  length-evict [] t n m h v small enough = absurd (omega (arith, ap length v))
  length-evict (k ∷ order) t n m h ((v, here), rest) small enough = ground (
    arith,
    Size.length-erase k m v h here,
    length-evict order t (n + 1) (Dict.erase k m) (Size.erase-NodupKeys k m h) rest,
  )

  pub lookup-erase :
      (k q : Bytes) (m : Dict V)
      → (Dict.lookup q (Dict.erase k m) ≡ Dict.lookup q m) ⊎ (Dict.lookup q (Dict.erase k m) ≡ none)
  lookup-erase k q m = elim (Bool-cases (bytes_eq k q)) [
    | inl same ↦ inr (rw (bytes_eq_sound k q same) (Dict.lookup-erase_self q m))
    | inr other ↦ inl (Dict.lookup-erase_ne k q m other)
  ]

  -- A key is read as before the loop, or is gone.
  pub lookup-evict :
      (order : List Bytes) (t n : ℕ) (m : Dict V) (q : Bytes)
      → (Dict.lookup q (evict order t n m) ≡ Dict.lookup q m)
        ⊎ (Dict.lookup q (evict order t n m) ≡ none)
  unfolding evict
  lookup-evict [] t n m q = inl refl
  lookup-evict (k ∷ order) t n m q = elim (Bool-cases (leb t (n + 1))) [
    | inl last ↦ rw last (lookup-erase k q m)
    | inr more ↦ rw more (elim (lookup-evict order t (n + 1) (Dict.erase k m) q) [
      | inl same ↦ rw same (lookup-erase k q m)
      | inr gone ↦ inr gone
    ])
  ]

  -- The number of entries that a full map gives up is from one to its size.
  pub num_to_evict_bounds :
      (sm : SyncMap V)
      → IsValid sm
      → sm.capacity ≤ length sm.entries
      → (0 < num_to_evict sm) × (num_to_evict sm ≤ length sm.entries)
  unfolding num_to_evict
  num_to_evict_bounds sm v full =
      let most : length sm.entries * sm.eviction_percentage ≤ length sm.entries * 100 =
        grind arith in
      ground arith

  pub make_room-NodupKeys :
      (order : List Bytes) (sm : SyncMap V) → IsValid sm → NodupKeys (make_room order sm)
  unfolding make_room
  make_room-NodupKeys order sm v = elim (Bool-cases (leb sm.capacity (length sm.entries))) [
    | inl full ↦ rw full (evict-NodupKeys order (num_to_evict sm) 0 sm.entries v.nodup)
    | inr room ↦ rw room v.nodup
  ]

  pub length-make_room :
      (order : List Bytes) (sm : SyncMap V)
      → IsValid sm
      → Visits order sm.entries
      → length (make_room order sm) ≡ (
          if leb sm.capacity (length sm.entries)
          then length sm.entries - num_to_evict sm
          else length sm.entries)
  unfolding make_room
  length-make_room order sm v visits = elim (Bool-cases (leb sm.capacity (length sm.entries))) [
    | inl full ↦
        let (low, high) = num_to_evict_bounds sm v (leb→le _ _ full) in
        rw full (
          omega (
            arith,
            length-evict order (num_to_evict sm) 0 sm.entries v.nodup visits low (omega arith),
          ))
    | inr room ↦ rw room
  ]

  pub lookup-make_room :
      (order : List Bytes) (sm : SyncMap V) (q : Bytes)
      → (Dict.lookup q (make_room order sm) ≡ Dict.lookup q sm.entries)
        ⊎ ((sm.capacity ≤ length sm.entries) × (Dict.lookup q (make_room order sm) ≡ none))
  unfolding make_room
  lookup-make_room order sm q = elim (Bool-cases (leb sm.capacity (length sm.entries))) [
    | inl full ↦ rw full (elim (lookup-evict order (num_to_evict sm) 0 sm.entries q) [
      | inl same ↦ inl same
      | inr gone ↦ inr (leb→le _ _ full, gone)
    ])
    | inr room ↦ rw room (inl refl)
  ]

  pub make_room_fresh :
      (order : List Bytes) (sm : SyncMap V) (q : Bytes)
      → Dict.lookup q sm.entries ≡ none
      → Dict.lookup q (make_room order sm) ≡ none
  make_room_fresh order sm q fresh = elim (lookup-make_room order sm q) [
    | inl same ↦ same ∙ fresh
    | inr gone ↦ gone.1
  ]
