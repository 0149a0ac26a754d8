-- ===== src/Strings/Split.antt =====
-- What `Split` returns.
use peerd_oci.Prelude.{
  ℕ, Bytes, All, ◌≡◌, ◌++◌, ◌≢◌, ◌∷◌, [], arith, refl, List, Bool-cases, ◌==◌, inl, inr,
}
use peerd_oci.Strings.{split, push_byte}

abbrev pub Lacks : ℕ → Bytes → Type 0
Lacks b = All (λ c. c ≢ b)

pub split-Lacks : (sep : ℕ) (s : Bytes) → Lacks sep s → split sep s ≡ s ∷ []
unfolding split
split-Lacks sep [] h = refl
split-Lacks sep (c ∷ s) h = ground (arith, split-Lacks sep s h.1)

-- A part that lacks the separator, in front of it, is the first part.
pub split-append :
    (sep : ℕ) (p s : Bytes) → Lacks sep p → split sep (p ++ sep ∷ s) ≡ p ∷ split sep s
unfolding split
split-append sep [] s h = ground arith
split-append sep (c ∷ p) s h = ground (arith, split-append sep p s h.1)

split_cons : (sep : ℕ) (s : Bytes) → (p : Bytes) × (ps : List Bytes) × (split sep s ≡ p ∷ ps)
unfolding split push_byte
split_cons sep [] = ([], [], refl)
split_cons sep (c ∷ s) =
    let (p, ps, e) = split_cons sep s in
    elim (Bool-cases (c == sep)) [
      | inl here ↦ ([], p ∷ ps, ground arith)
      | inr other ↦ (c ∷ p, ps, ground arith)
    ]

split_one : (sep : ℕ) (s p : Bytes) → split sep s ≡ p ∷ [] → (s ≡ p) × Lacks sep p
unfolding split push_byte
split_one sep [] p h = ground arith
split_one sep (c ∷ s) p h = let (q, qs, e) = split_cons sep s in ground (arith, split_one sep s q)

-- A text that is split into two parts is the first, the separator and the second.
pub split_two :
    (sep : ℕ) (s p q : Bytes)
    → split sep s ≡ p ∷ q ∷ []
    → (s ≡ p ++ sep ∷ q) × Lacks sep p × Lacks sep q
unfolding split push_byte
split_two sep [] p q h = absurd (ground arith)
split_two sep (c ∷ s) p q h =
    let (r, rs, e) = split_cons sep s in ground (arith, split_one sep s q, split_two sep s r q)
