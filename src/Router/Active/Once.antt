-- ===== src/Router/Active/Once.antt =====
-- That this node is active is reported at most once, and all peers are sent.
use peerd_oci.Router.Active.{
  Announced, Lookup, peers_of, System, reporting, Turn, Reach, put_lookup, Event, skip, begin, send,
  later, swap, no_swap, report, active, no_recorder, Place, looping, swapping,
}
use peerd_oci.Prelude.{
  ◌∷◌, ◌++◌, ◌≡◌, ◌≢◌, ◌≤◌, append_assoc, Bytes, ℕ, Bool, false, List, length, [], true, arith, sym,
  ◌∙◌, ap, refl, subst, append-nil, Bool-cases, ◌==◌, inl, inr,
}
use native.Mathlib.Decide.{ℕ_discrete}

-- At most one goroutine is about to report, and nothing was reported before it.
data Once (a : Announced) (f : ℕ → Lookup) : Type 0 where
  before : a.is_active ≡ false → a.events ≡ [] → ((i : ℕ) → (f i).place ≢ reporting) → Once a f
  during :
      (i : ℕ)
      → a.is_active ≡ true
      → a.events ≡ []
      → ((j : ℕ) → i ≢ j → (f j).place ≢ reporting)
      → Once a f
  after : a.is_active ≡ true → length a.events ≤ 1 → ((i : ℕ) → (f i).place ≢ reporting) → Once a f

looping-ne : (q : Place) → q ≡ looping → q ≢ reporting
looping-ne q here e = cc

swapping-ne : swapping ≢ reporting
swapping-ne e = cc

-- What holds of the lookup that is put, and of the others.
put_lookup-cases :
    (P : Lookup → Type 0) (f : ℕ → Lookup) (i : ℕ) (l : Lookup) (j : ℕ)
    → P l
    → (i ≢ j → P (f j))
    → P (put_lookup f i l j)
put_lookup-cases P f i l j it others = elim (Bool-cases (i == j)) [
  | inl same ↦ rw same it
  | inr other ↦ rw other (others (λ e. ground arith))
]

put_lookup-other :
    (f : ℕ → Lookup) (i : ℕ) (l : Lookup) (j : ℕ)
    → i ≢ j
    → (f j).place ≢ reporting
    → (put_lookup f i l j).place ≢ reporting
put_lookup-other f i l j differ z = let other : (i == j) ≡ false = ground arith in rw other z

module _ (a : Announced) (f : ℕ → Lookup) (i : ℕ) (l : Lookup) where
  none_else :
      l.place ≢ reporting
      → (j : ℕ) → (i ≢ j → (f j).place ≢ reporting)
      → (put_lookup f i l j).place ≢ reporting
  none_else other j rest = put_lookup-cases (λ m. m.place ≢ reporting) f i l j other rest

  still : l.place ≢ reporting → Once a f → Once a (put_lookup f i l)
  still other (before x y z) = before x y (λ j. none_else other j (λ _. z j))
  still other (during k x y z) = during k x y (λ j differ. none_else other j (λ _. z j differ))
  still other (after x y z) = after x y (λ j. none_else other j (λ _. z j))

  swapped : a.is_active ≡ false → Once a f → Once (record a { is_active = true }) (put_lookup f i l)
  swapped idle (before x y z) = during i refl y (λ j differ. put_lookup-other f i l j differ (z j))
  swapped idle (during k x y z) = absurd (cc)
  swapped idle (after x y z) = absurd (cc)

  ended :
      (es : List Event)
      → length es ≤ 1
      → (f i).place ≡ reporting
      → l.place ≢ reporting
      → Once a f
      → Once (record a { events = a.events ++ es }) (put_lookup f i l)
  ended es one here other (before x y z) = absurd (z i here)
  ended es one here other (during k x y z) = elim (ℕ_discrete k i) [
    | no differ ↦ absurd (z i differ here)
    | yes same ↦
        after x (rw y one) (λ j. none_else other j (λ differ. z j (λ e. differ (sym same ∙ e))))
  ]
  ended es one here other (after x y z) = absurd (z i here)

module _ (self port : Bytes) (allow_self : Bool) where
  Turn-Once :
      (a : Announced) (f : ℕ → Lookup) (i : ℕ) {b : Announced} {l : Lookup}
      → Turn self port allow_self a (f i) b l
      → Once a f
      → Once b (put_lookup f i l)
  Turn-Once a f i (skip here _ _) once = still a f i _ (looping-ne _ here) once
  Turn-Once a f i (send here _ _) once = still a f i _ swapping-ne once
  Turn-Once a f i (swap here idle) once = swapped a f i _ idle once
  Turn-Once a f i (no_swap here _) once = still a f i _ (looping-ne looping refl) once
  Turn-Once a f i (report er here) once =
      ended a f i _ (active er ∷ []) (omega arith) here (looping-ne looping refl) once
  Turn-Once a f i (no_recorder here) once =
      let l : Lookup = record (f i) { place = looping } in
      subst (λ es. Once (record a { events = es }) (put_lookup f i l)) (append-nil a.events)
        (ended a f i l [] (omega arith) here (looping-ne looping refl) once)

  -- What was sent, and what will be sent of the providers that are left.
  abbrev Sends : Lookup → Type 0
  Sends l =
      peers_of self port allow_self l.providers ≡ l.sent ++ peers_of self port allow_self l.left

  Turn-Sends :
      {a b : Announced} {l m : Lookup} → Turn self port allow_self a l b m → Sends l → Sends m
  unfolding peers_of
  Turn-Sends {l = l} (skip {info} {rest} here e none_of) h =
      h ∙ ap (λ x. l.sent ++ peers_of self port allow_self x) e ∙ rw (none_of, peers_of) refl
  Turn-Sends {l = l} (send {info} {rest} {p} here e some_of) h =
      h
      ∙ ap (λ x. l.sent ++ peers_of self port allow_self x) e
      ∙ rw (some_of, peers_of)
          (sym (append_assoc l.sent (p ∷ []) (peers_of self port allow_self rest)))
  Turn-Sends (swap _ _) h = h
  Turn-Sends (no_swap _ _) h = h
  Turn-Sends (report _ _) h = h
  Turn-Sends (no_recorder _) h = h

  Reach-Once :
      {s : System}
      → Reach self port allow_self s
      → Once s.announced s.lookups × ((i : ℕ) → Sends (s.lookups i))
  Reach-Once (begin found) = (before refl refl (λ i. cc), λ i. refl)
  Reach-Once (later {s} {a} {l} i r move) =
      let (once, sends) = Reach-Once r in
      (
        Turn-Once s.announced s.lookups i move once,
        λ j. put_lookup-cases Sends s.lookups i l j (Turn-Sends move (sends i)) (λ _. sends j),
      )

  Once-length : {a : Announced} {f : ℕ → Lookup} → Once a f → length a.events ≤ 1
  Once-length (before x y z) = rw y (omega arith)
  Once-length (during i x y z) = rw y (omega arith)
  Once-length (after x y z) = y

  -- However the goroutines of any number of calls of `Resolve` interleave, the cluster gets at most one
  -- event that this node is active; and each goroutine has sent just the peers of the providers that it
  -- has looked at, in their order, so that it has sent `peers_of` of all providers when none is left.
  pub Reach-Announced :
      {s : System}
      → Reach self port allow_self s
      → (length s.announced.events ≤ 1)
        × ((i : ℕ)
            → peers_of self port allow_self (s.lookups i).providers
              ≡ (s.lookups i).sent ++ peers_of self port allow_self (s.lookups i).left)
  Reach-Announced r = let (once, sends) = Reach-Once r in (Once-length once, sends)
