-- ===== src/Urlparser/Regexp.antt =====
-- What the program uses of Go's `regexp`: a sequence of byte classes with repetition, one group of a
-- fixed length, and the leftmost match that a greedy, backtracking search finds first.
pub mod Captures
use peerd_oci.Prelude.{
  ℕ, Option, Bytes, List, Bool, ◌∷◌, none, [], some, take, if◌then◌else◌, ◌++◌, length, suc, ◌-◌,
  zero,
}

abbrev pub Class : Type 0
Class = ℕ → Bool

pub data Atom : Type 0 where
  one plus star optional : Class → Atom
  times group : ℕ → Class → Atom

-- What a match leaves unread, and the groups that it captured.
abbrev pub Match : Type 0
Match = Option (Bytes × List Bytes)

or_else : Match → Match → Match
or_else (some m) other = some m
or_else none other = other

-- As many bytes of the class as let the rest match.
many : Class → (Bytes → Match) → Bytes → Match
many p k [] = k []
many p k (c ∷ s) = let longer = many p k s in if p c then or_else longer (k (c ∷ s)) else k (c ∷ s)

one_of : Class → (Bytes → Match) → Bytes → Match
one_of p k [] = none
one_of p k (c ∷ s) = if p c then k s else none

-- The first `n` bytes, if all are of the class.
exactly : ℕ → Class → (Bytes → Bytes → Match) → Bytes → Match
exactly zero p k s = k [] s
exactly (suc n) p k [] = none
exactly (suc n) p k (c ∷ s) =
    let rest = exactly n p (λ g t. k (c ∷ g) t) s in if p c then rest else none

match_here : List Atom → List Bytes → Bytes → Match
match_here [] gs s = some (s, gs)
match_here (one p ∷ r) gs s = one_of p (match_here r gs) s
match_here (plus p ∷ r) gs s = one_of p (many p (match_here r gs)) s
match_here (star p ∷ r) gs s = many p (match_here r gs) s
match_here (optional p ∷ r) gs s = or_else (one_of p (match_here r gs) s) (match_here r gs s)
match_here (times n p ∷ r) gs s = exactly n p (λ _. match_here r gs) s
match_here (group n p ∷ r) gs s = exactly n p (λ g. match_here r (gs ++ g ∷ [])) s

matched : Bytes → Bytes × List Bytes → List Bytes
matched s (rest, gs) = take (length s - length rest) s ∷ gs

-- `FindStringSubmatch`: the text of the match and of its groups, or nil.
unfoldable pub find_submatch : List Atom → Bytes → List Bytes
unfolding or_else many one_of exactly match_here matched
find_submatch r [] = elim (match_here r [] []) [ none ↦ [] | some m ↦ matched [] m ]
find_submatch r (c ∷ s) = elim (match_here r [] (c ∷ s)) [
  | none ↦ find_submatch r s
  | some m ↦ matched (c ∷ s) m
]
