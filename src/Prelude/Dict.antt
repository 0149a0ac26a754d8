-- ===== src/Prelude/Dict.antt =====
-- Maps with string keys, as association lists.
pub mod Size
use peerd_oci.Prelude.Tests.{if◌then◌else◌}
use peerd_oci.Prelude.Texts.{Bytes, bytes_eq, bytes_eq_refl, bytes_eq_sound}
use mathlib.Core.Path.{◌≡◌, refl}
use mathlib.Core.Bool.{false}
use mathlib.Core.List.{List, [], ◌∷◌}
use mathlib.Core.Option.{Option, none, some}
use native.Mathlib.Omega.{arith}

abbrev pub Dict {ℓ} : Type ℓ → Type ℓ
Dict V = List (Bytes × V)

module _ {ℓ} {V : Type ℓ} where
  unfoldable pub lookup : Bytes → Dict V → Option V
  lookup k [] = none
  lookup k ((j, v) ∷ m) = if bytes_eq j k then some v else lookup k m

  -- A new key goes to the end.
  unfoldable pub insert : Bytes → V → Dict V → Dict V
  insert k v [] = (k, v) ∷ []
  insert k v ((j, w) ∷ m) = if bytes_eq j k then (k, v) ∷ m else (j, w) ∷ insert k v m

  unfoldable pub erase : Bytes → Dict V → Dict V
  erase k [] = []
  erase k ((j, w) ∷ m) = let rest = erase k m in if bytes_eq j k then rest else (j, w) ∷ rest

  pub lookup-insert_self : (k : Bytes) (v : V) (m : Dict V) → lookup k (insert k v m) ≡ some v
  unfolding lookup insert
  lookup-insert_self k v [] = ground (arith, bytes_eq_refl k)
  lookup-insert_self k v ((j, w) ∷ m) = ground (arith, bytes_eq_refl k, lookup-insert_self k v m)

  pub lookup-insert_ne :
      (k q : Bytes) (v : V) (m : Dict V)
      → bytes_eq k q ≡ false
      → lookup q (insert k v m) ≡ lookup q m
  unfolding lookup insert
  lookup-insert_ne k q v [] h = ground arith
  lookup-insert_ne k q v ((j, w) ∷ m) h =
      ground (arith, bytes_eq_sound j k, lookup-insert_ne k q v m)

  pub lookup-erase_self : (k : Bytes) (m : Dict V) → lookup k (erase k m) ≡ none
  unfolding lookup erase
  lookup-erase_self k [] = refl
  lookup-erase_self k ((j, w) ∷ m) = ground (arith, lookup-erase_self k m)

  pub lookup-erase_ne :
      (k q : Bytes) (m : Dict V) → bytes_eq k q ≡ false → lookup q (erase k m) ≡ lookup q m
  unfolding lookup erase
  lookup-erase_ne k q [] h = refl
  lookup-erase_ne k q ((j, w) ∷ m) h = ground (arith, bytes_eq_sound j k, lookup-erase_ne k q m)
