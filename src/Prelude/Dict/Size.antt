-- ===== src/Prelude/Dict/Size.antt =====
-- Maps hold a key once, and their size.
use mathlib.Core.List.{[], ◌∷◌}
use mathlib.Core.Option.{none, some}
use mathlib.Core.Path.{◌≡◌, refl, subst, ◌∙◌}
use mathlib.Core.Logic.{inl, inr}
use native.Mathlib.Omega.{arith}
use peerd_oci.Prelude.Tests.{Bool-cases}
use peerd_oci.Prelude.{◌≡◌, none, some, arith}
use peerd_oci.Prelude.Dict.{Dict, lookup, insert, erase, lookup-insert_ne}
use peerd_oci.Prelude.Texts.{Bytes, bytes_eq, bytes_eq_sound, bytes_eq_swap}
use peerd_oci.Prelude.Lists.{length}
use Prim.Native.Nat.{◌+◌}

module _ {ℓ} {V : Type ℓ} where
  -- No key stands twice.
  abbrev pub NodupKeys : Dict V → Type ℓ
  NodupKeys [] = Unit
  NodupKeys ((k, v) ∷ m) = (lookup k m ≡ none) × NodupKeys m

  pub lookup-erase-none :
      (k q : Bytes) (m : Dict V) → lookup q m ≡ none → lookup q (erase k m) ≡ none
  unfolding lookup erase
  lookup-erase-none k q [] h = refl
  lookup-erase-none k q ((j, w) ∷ m) h = ground (arith, lookup-erase-none k q m)

  pub erase-NodupKeys : (k : Bytes) (m : Dict V) → NodupKeys m → NodupKeys (erase k m)
  unfolding erase
  erase-NodupKeys k [] h = tt
  erase-NodupKeys k ((j, w) ∷ m) (fresh, h) = elim (Bool-cases (bytes_eq j k)) [
    | inl same ↦ rw same (erase-NodupKeys k m h)
    | inr other ↦ rw other (lookup-erase-none k j m fresh, erase-NodupKeys k m h)
  ]

  erase_absent : (k : Bytes) (m : Dict V) → lookup k m ≡ none → erase k m ≡ m
  unfolding lookup erase
  erase_absent k [] h = refl
  erase_absent k ((j, w) ∷ m) h = ground (arith, erase_absent k m)

  pub length-erase :
      (k : Bytes) (m : Dict V) (v : V)
      → NodupKeys m
      → lookup k m ≡ some v
      → length (erase k m) + 1 ≡ length m
  unfolding lookup erase
  length-erase k [] v h e = absurd (ground arith)
  length-erase k ((j, w) ∷ m) v (fresh, h) e =
      ground (arith, bytes_eq_sound j k, erase_absent k m, length-erase k m v h)

  pub insert-NodupKeys : (k : Bytes) (v : V) (m : Dict V) → NodupKeys m → NodupKeys (insert k v m)
  unfolding insert
  insert-NodupKeys k v [] h = (unfold lookup in refl, tt)
  insert-NodupKeys k v ((j, w) ∷ m) (fresh, h) = elim (Bool-cases (bytes_eq j k)) [
    | inl same ↦ rw same (subst (λ q. lookup q m ≡ none) (bytes_eq_sound j k same) fresh, h)
    | inr other ↦
        rw other
          (lookup-insert_ne k j v m (bytes_eq_swap j k other) ∙ fresh, insert-NodupKeys k v m h)
  ]

  pub length-insert_new :
      (k : Bytes) (v : V) (m : Dict V) → lookup k m ≡ none → length (insert k v m) ≡ length m + 1
  unfolding lookup insert
  length-insert_new k v [] h = omega arith
  length-insert_new k v ((j, w) ∷ m) h = ground (arith, length-insert_new k v m)

  pub length-insert_old :
      (k : Bytes) (v u : V) (m : Dict V) → lookup k m ≡ some u → length (insert k v m) ≡ length m
  unfolding lookup insert
  length-insert_old k v u [] h = absurd (ground arith)
  length-insert_old k v u ((j, w) ∷ m) h = ground (arith, length-insert_old k v u m)
