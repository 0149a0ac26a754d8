-- ===== src/Router/Active.antt =====
-- The goroutines of `Resolve` of router.go, for any number of calls at once, step by step: what they
-- send, and the event that this node is active.
pub mod Once
use peerd_oci.Prelude.{
  ◌∷◌, ◌++◌, ◌≡◌, List, Bool, Bytes, ℕ, ◌∙◌, none, if◌then◌else◌, false, ap, some, ◌==◌, [], true,
  ◌≢◌, length, ◌≤◌,
}
use peerd_oci.Router.{peer_of, peers_of, AddrInfo, PeerInfo}
use peerd_oci.K8s.Events.{Event, EventRecorder, active}

-- Where a goroutine stands.
pub data Place : Type 0 where
  looping : Place  -- before the next provider
  swapping : Place  -- before `r.active.CompareAndSwap`
  reporting : Place  -- before `events.NewRecorder`

-- A goroutine: the providers that its channel gives, those of them that are left, and what it sent.
pub record Lookup : Type 0 where
  pub providers : List AddrInfo
  pub left : List AddrInfo
  pub sent : List PeerInfo
  pub place : Place

-- The field `active` of the router, and the events that the cluster got from it.
pub record Announced : Type 0 where
  pub is_active : Bool
  pub events : List Event

-- All goroutines, by their number.
pub record System : Type 0 where
  pub announced : Announced
  pub lookups : ℕ → Lookup

abbrev pub put_lookup : (ℕ → Lookup) → ℕ → Lookup → ℕ → Lookup
put_lookup f i l j = if i == j then l else f j

module _ (self port : Bytes) (allow_self : Bool) where
  -- One step of a goroutine.
  pub data Turn (a : Announced) (l : Lookup) : Announced → Lookup → Type 0 where
    skip :
        {info : AddrInfo} {rest : List AddrInfo}
        → l.place ≡ looping
        → l.left ≡ info ∷ rest
        → peer_of self port allow_self info ≡ none
        → Turn a l a (record l { left = rest })
    send :
        {info : AddrInfo} {rest : List AddrInfo} {p : PeerInfo}
        → l.place ≡ looping
        → l.left ≡ info ∷ rest
        → peer_of self port allow_self info ≡ some p
        → Turn a l a (record l { left = rest; sent = l.sent ++ p ∷ []; place = swapping })
    swap :
        l.place ≡ swapping
        → a.is_active ≡ false
        → Turn a l (record a { is_active = true }) (record l { place = reporting })
    no_swap : l.place ≡ swapping → a.is_active ≡ true → Turn a l a (record l { place = looping })
    -- `NewRecorder` returns a recorder or an error, which is logged.
    report :
        (er : EventRecorder)
        → l.place ≡ reporting
        → Turn a l (record a { events = a.events ++ active er ∷ [] }) (record l { place = looping })
    no_recorder : l.place ≡ reporting → Turn a l a (record l { place = looping })

  pub data Reach : System → Type 0 where
    begin :
        (found : ℕ → List AddrInfo)
        → Reach (record {
          announced = record { is_active = false; events = [] };
          lookups = λ i. record { providers = found i; left = found i; sent = []; place = looping };
        })
    later :
        {s : System} {a : Announced} {l : Lookup} (i : ℕ)
        → Reach s
        → Turn s.announced (s.lookups i) a l
        → Reach (record { announced = a; lookups = put_lookup s.lookups i l })
