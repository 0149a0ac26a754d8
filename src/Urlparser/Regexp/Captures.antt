-- ===== src/Urlparser/Regexp/Captures.antt =====
-- A group that a match captures is part of the text, has its length and consists of its class.
use mathlib.Core.List.{tail}
use peerd_oci.Prelude.{
  Bytes, ℕ, List, ◌≡◌, ◌++◌, ◌∷◌, some, ap, ◌⊎◌, Bool-cases, arith, ◌∙◌, length, All, inr, [], sym,
  true, inl, suc, refl, none, zero, append_assoc, subst, Option-cases, some-injective, All-append,
}
use peerd_oci.Urlparser.Regexp.{
  Match, many, one_of, exactly, match_here, or_else, matched, find_submatch, Class, Atom, one, plus,
  star, optional, times, group,
}

-- The parts of a call of a continuation that succeeds behind some bytes of `s`.
abbrev Behind : Bytes → (Bytes → Match) → Bytes × List Bytes → Type 0
Behind s k m = (pre : Bytes) × (t : Bytes) × (s ≡ pre ++ t) × (k t ≡ some m)

Behind-cons :
    (c : ℕ) (s : Bytes) (k : Bytes → Match) {m : Bytes × List Bytes}
    → Behind s k m
    → Behind (c ∷ s) k m
Behind-cons c s k (pre, t, e, h) = (c ∷ pre, t, ap (◌∷◌ c) e, h)

or_else_cases :
    (a b : Match) {m : Bytes × List Bytes} → or_else a b ≡ some m → (a ≡ some m) ⊎ (b ≡ some m)
unfolding or_else
or_else_cases none b h = inr h
or_else_cases (some a) b h = inl h

many-Behind :
    (p : Class) (k : Bytes → Match) (s : Bytes) {m : Bytes × List Bytes}
    → many p k s ≡ some m
    → Behind s k m
unfolding many
many-Behind p k [] h = ([], [], refl, h)
many-Behind p k (c ∷ s) h = elim (Bool-cases (p c)) [
  | inl fits ↦ elim (or_else_cases (many p k s) (k (c ∷ s)) (ground arith)) [
    | inl longer ↦ Behind-cons c s k (many-Behind p k s longer)
    | inr here ↦ ([], c ∷ s, refl, here)
  ]
  | inr stop ↦ ([], c ∷ s, refl, ground arith)
]

one_of-Behind :
    (p : Class) (k : Bytes → Match) (s : Bytes) {m : Bytes × List Bytes}
    → one_of p k s ≡ some m
    → Behind s k m
unfolding one_of
one_of-Behind p k [] h = absurd (ground arith)
one_of-Behind p k (c ∷ s) h = (c ∷ [], s, refl, ground arith)

Behind-trans :
    (s : Bytes) (j k : Bytes → Match) {m : Bytes × List Bytes}
    → ((t : Bytes) → j t ≡ some m → Behind t k m)
    → Behind s j m
    → Behind s k m
Behind-trans s j k step (pre, t, e, h) =
    let (pre', t', e', h') = step t h in
    (pre ++ pre', t', e ∙ ap (◌++◌ pre) e' ∙ sym (append_assoc pre pre' t'), h')

-- What `exactly` hands to the rest.
exactly_inv :
    (n : ℕ) (p : Class) (k : Bytes → Bytes → Match) (s : Bytes) {m : Bytes × List Bytes}
    → exactly n p k s ≡ some m
    → (g : Bytes) × (t : Bytes) × (s ≡ g ++ t)
      × (length g ≡ n)
      × All (λ c. p c ≡ true) g
      × (k g t ≡ some m)
unfolding exactly
exactly_inv zero p k s h = ([], s, refl, refl, tt, h)
exactly_inv (suc n) p k [] h = absurd (ground arith)
exactly_inv (suc n) p k (c ∷ s) h =
    let fits : p c ≡ true = ground arith in
    let (g, t, e, len, all, rest) = exactly_inv n p (λ g t. k (c ∷ g) t) s (ground arith) in
    (c ∷ g, t, ap (◌∷◌ c) e, ap suc len, (fits, all), rest)

module _ (n : ℕ) (p : Class) (url : Bytes) where
  -- A part of the URL of `n` bytes of the class.
  pub record IsCapture (g : Bytes) : Type 0 where
    pub before : Bytes
    pub behind : Bytes
    pub found : url ≡ before ++ (g ++ behind)
    pub size : length g ≡ n
    pub class : All (λ c. p c ≡ true) g

  -- Every group of the expression is of `n` bytes of the class.
  abbrev pub Captures : List Atom → Type 0
  Captures [] = Unit
  Captures (one q ∷ r) = Captures r
  Captures (plus q ∷ r) = Captures r
  Captures (star q ∷ r) = Captures r
  Captures (optional q ∷ r) = Captures r
  Captures (times k q ∷ r) = Captures r
  Captures (group k q ∷ r) = (k ≡ n) × (q ≡ p) × Captures r

  abbrev pub Suffix : Bytes → Type 0
  Suffix s = (pre : Bytes) × (url ≡ pre ++ s)

  Suffix-append : (s pre t : Bytes) → s ≡ pre ++ t → Suffix s → Suffix t
  Suffix-append s pre t e (before, whole) =
      (before ++ pre, whole ∙ ap (◌++◌ before) e ∙ sym (append_assoc before pre t))

  match_here-IsCapture :
      (r : List Atom) (gs : List Bytes) (s : Bytes) {m : Bytes × List Bytes}
      → Captures r
      → Suffix s
      → All IsCapture gs
      → match_here r gs s ≡ some m
      → All IsCapture m.1
  unfolding match_here
  match_here-IsCapture [] gs s c x good h =
      subst (All IsCapture) (ap (λ o. o.1) (some-injective _ _ h)) good
  match_here-IsCapture (one q ∷ r) gs s c x good h =
      let (pre, t, e, k) = one_of-Behind q (match_here r gs) s h in
      match_here-IsCapture r gs t c (Suffix-append s pre t e x) good k
  match_here-IsCapture (plus q ∷ r) gs s c x good h =
      let (pre, t, e, k) =
        Behind-trans s (many q (match_here r gs)) (match_here r gs)
          (λ t. many-Behind q (match_here r gs) t)
          (one_of-Behind q (many q (match_here r gs)) s h) in
      match_here-IsCapture r gs t c (Suffix-append s pre t e x) good k
  match_here-IsCapture (star q ∷ r) gs s c x good h =
      let (pre, t, e, k) = many-Behind q (match_here r gs) s h in
      match_here-IsCapture r gs t c (Suffix-append s pre t e x) good k
  match_here-IsCapture (optional q ∷ r) gs s c x good h =
      elim (or_else_cases (one_of q (match_here r gs) s) (match_here r gs s) h) [
        | inl taken ↦
            let (pre, t, e, k) = one_of-Behind q (match_here r gs) s taken in
            match_here-IsCapture r gs t c (Suffix-append s pre t e x) good k
        | inr left ↦ match_here-IsCapture r gs s c x good left
      ]
  match_here-IsCapture (times j q ∷ r) gs s c x good h =
      let (g, t, e, len, all, k) = exactly_inv j q (λ _. match_here r gs) s h in
      match_here-IsCapture r gs t c (Suffix-append s g t e x) good k
  match_here-IsCapture (group j q ∷ r) gs s c x good h =
      let (g, t, e, len, all, k) = exactly_inv j q (λ g. match_here r (gs ++ g ∷ [])) s h in
      let here : IsCapture g = record {
        before = x.0;
        behind = t;
        found = x.1 ∙ ap (◌++◌ x.0) e;
        size = len ∙ c.0;
        class = subst (λ f. All (λ b. f b ≡ true) g) c.1 all;
      } in
      match_here-IsCapture r (gs ++ g ∷ []) t c.2 (Suffix-append s g t e x)
        (All-append IsCapture gs (g ∷ []) good (here, tt)) k

  first-IsCapture :
      (s : Bytes) (m : Bytes × List Bytes) {whole g : Bytes} {gs : List Bytes}
      → All IsCapture m.1
      → matched s m ≡ whole ∷ g ∷ gs
      → IsCapture g
  unfolding matched
  first-IsCapture s (rest, ms) {whole} {g} {gs} good e =
      let same : ms ≡ g ∷ gs = ap tail e in (subst (All IsCapture) same good).0

  -- The first group that `find_submatch` returns, behind the whole match.
  pub find_submatch-IsCapture :
      (r : List Atom) (s : Bytes) {whole g : Bytes} {gs : List Bytes}
      → Captures r
      → Suffix s
      → find_submatch r s ≡ whole ∷ g ∷ gs
      → IsCapture g
  unfolding find_submatch
  find_submatch-IsCapture r [] {whole} {g} {gs} c x h = elim (Option-cases (match_here r [] [])) [
    | inl miss ↦ absurd (ground arith)
    | inr (m, hit) ↦
        first-IsCapture [] m {whole = whole} {g = g} {gs = gs}
          (match_here-IsCapture r [] [] c x tt hit) (ground arith)
  ]
  find_submatch-IsCapture r (b ∷ s) {whole} {g} {gs} c x h =
      elim (Option-cases (match_here r [] (b ∷ s))) [
        | inl miss ↦
            find_submatch-IsCapture r s {whole = whole} {gs = gs} c
              (Suffix-append (b ∷ s) (b ∷ []) s refl x) (ground arith)
        | inr (m, hit) ↦
            first-IsCapture (b ∷ s) m {whole = whole} {g = g} {gs = gs}
              (match_here-IsCapture r [] (b ∷ s) c x tt hit) (ground arith)
      ]
