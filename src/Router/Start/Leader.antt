-- ===== src/Router/Start/Leader.antt =====
-- From which peers the hash table starts, for the leader that the cluster elects.
use peerd_oci.Action.Rules.{ok-injective}
use peerd_oci.Prelude.{
  Bytes, Outcome, List, ◌≡◌, blocked, some, ok, if◌then◌else◌, bytes_eq, [], ◌∷◌, ◌++◌, err, none,
  panic, ◌∙◌, ap, refl, false, Bool, ◌⊎◌, inl, sym, inr, true, Option, panic≢ok, blocked≢ok,
}
use peerd_oci.Router.{AddrInfo}
use peerd_oci.Router.Start.{bootstrap_peers, bootstrap_at, bootstrap_from}
use peerd_oci.K8s.{leader}
use peerd_oci.K8s.Election.{after, latest_known, leader-on_new_leader}
use peerd_oci.K8s.Events.{Event, EventRecorder, connected, disconnected}
use peerd_oci.Action.{lift, attempt, settle, modify, pure, continue, ◌>>=◌}

module _ {A : Type 0} (addr_info : A → Outcome AddrInfo) (er : EventRecorder) (host_id : Bytes)
    (events : List Event) where
  -- What is made of the peer in the address of the leader.
  abbrev pub started_at : Outcome AddrInfo → Outcome (List AddrInfo) × List Event
  started_at (ok info) =
      (ok (if bytes_eq info.id host_id then [] else info ∷ []), events ++ connected er ∷ [])
  started_at (err e) = (ok [], events)
  started_at panic = (panic, events)
  started_at blocked = (blocked, events)

  -- What is made of the address of the leader.
  abbrev pub started_from : Outcome A → Outcome (List AddrInfo) × List Event
  started_from (ok addr) = started_at (addr_info addr)
  started_from (err e) = (ok [], events ++ disconnected er ∷ [])
  started_from panic = (panic, events)
  started_from blocked = (blocked, events)

  bootstrap_at_lem :
      (lookup : Outcome AddrInfo) → bootstrap_at er host_id lookup events ≡ started_at lookup
  unfolding bootstrap_at attempt settle lift modify pure ◌>>=◌ continue
  bootstrap_at_lem (ok info) = refl
  bootstrap_at_lem (err e) = refl
  bootstrap_at_lem panic = refl
  bootstrap_at_lem blocked = refl

  bootstrap_from_lem :
      (found : Outcome A) → bootstrap_from addr_info er host_id found events ≡ started_from found
  unfolding bootstrap_from attempt settle lift modify pure ◌>>=◌ continue
  bootstrap_from_lem (ok addr) = bootstrap_at_lem (addr_info addr)
  bootstrap_from_lem (err e) = refl
  bootstrap_from_lem panic = refl
  bootstrap_from_lem blocked = refl

  bootstrap_peers-on_new_leader :
      (new_multiaddr : Bytes → Outcome A) (unknown : Bytes) (calls : List Bytes)
      → bootstrap_peers new_multiaddr addr_info er host_id (after unknown calls) events
        ≡ started_from
            (elim (latest_known unknown calls) [ none ↦ blocked | some id ↦ new_multiaddr id ])
  unfolding bootstrap_peers
  bootstrap_peers-on_new_leader new_multiaddr unknown calls =
      bootstrap_from_lem (leader new_multiaddr (after unknown calls))
      ∙ ap started_from (leader-on_new_leader unknown new_multiaddr calls)

  -- A peer other than the node, and the events that say so.
  abbrev pub FromOther : AddrInfo → List AddrInfo → List Event → Type 0
  FromOther p peers reported =
      (peers ≡ p ∷ []) × (bytes_eq p.id host_id ≡ false) × (reported ≡ events ++ connected er ∷ [])

  at_one :
      (info : AddrInfo) (same : Bool) (peers : List AddrInfo) (reported : List Event)
      → bytes_eq info.id host_id ≡ same
      → (if same then [] else info ∷ []) ≡ peers
      → events ++ connected er ∷ [] ≡ reported
      → (peers ≡ []) ⊎ FromOther info peers reported
  at_one info true peers reported self e r = inl (sym e)
  at_one info false peers reported other e r = inr (sym e, other, sym r)

  started_at_inv :
      (lookup : Outcome AddrInfo) (peers : List AddrInfo) (reported : List Event)
      → started_at lookup ≡ (ok peers, reported)
      → (peers ≡ []) ⊎ ((p : AddrInfo) × (lookup ≡ ok p) × FromOther p peers reported)
  started_at_inv (ok info) peers reported e =
      elim (at_one info _ peers reported refl (ok-injective (ap (λ r. r.0) e)) (ap (λ r. r.1) e)) [
        | inl nobody ↦ inl nobody
        | inr other ↦ inr (info, refl, other)
      ]
  started_at_inv (err x) peers reported e = inl (sym (ok-injective (ap (λ r. r.0) e)))
  started_at_inv panic peers reported e = absurd (panic≢ok (ap (λ r. r.0) e))
  started_at_inv blocked peers reported e = absurd (blocked≢ok (ap (λ r. r.0) e))

  -- The address from which the hash table starts, if it does.
  abbrev pub StartsFrom : Outcome A → List AddrInfo → List Event → Type 0
  StartsFrom found peers reported =
      (p : AddrInfo) × (addr : A) × (found ≡ ok addr)
      × (addr_info addr ≡ ok p)
      × FromOther p peers reported

  started_from_inv :
      (found : Outcome A) (peers : List AddrInfo) (reported : List Event)
      → started_from found ≡ (ok peers, reported)
      → (peers ≡ []) ⊎ StartsFrom found peers reported
  started_from_inv (ok addr) peers reported e =
      elim (started_at_inv (addr_info addr) peers reported e) [
        | inl nobody ↦ inl nobody
        | inr (p, there, other) ↦ inr (p, addr, refl, there, other)
      ]
  started_from_inv (err x) peers reported e = inl (sym (ok-injective (ap (λ r. r.0) e)))
  started_from_inv panic peers reported e = absurd (panic≢ok (ap (λ r. r.0) e))
  started_from_inv blocked peers reported e = absurd (blocked≢ok (ap (λ r. r.0) e))

  of_latest :
      (new_multiaddr : Bytes → Outcome A) (latest : Option Bytes) (peers : List AddrInfo)
      (reported : List Event)
      → started_from (elim latest [ none ↦ blocked | some id ↦ new_multiaddr id ])
        ≡ (ok peers, reported)
      → (peers ≡ [])
        ⊎ ((id : Bytes) × (latest ≡ some id) × StartsFrom (new_multiaddr id) peers reported)
  of_latest new_multiaddr none peers reported e = absurd (blocked≢ok (ap (λ r. r.0) e))
  of_latest new_multiaddr (some id) peers reported e =
      elim (started_from_inv (new_multiaddr id) peers reported e) [
        | inl nobody ↦ inl nobody
        | inr from ↦ inr (id, refl, from)
      ]

  -- After any calls of `onNewLeader`, the hash table starts from no peer, or from one: the peer in the
  -- address of the latest leader that is known, which is another node, and then the event that the node is
  -- connected is reported, and no other.
  pub bootstrap_peers-StartsFrom :
      (new_multiaddr : Bytes → Outcome A) (unknown : Bytes) (calls : List Bytes)
      (peers : List AddrInfo) (reported : List Event)
      → bootstrap_peers new_multiaddr addr_info er host_id (after unknown calls) events
        ≡ (ok peers, reported)
      → (peers ≡ [])
        ⊎ ((id : Bytes) × (latest_known unknown calls ≡ some id)
            × StartsFrom (new_multiaddr id) peers reported)
  bootstrap_peers-StartsFrom new_multiaddr unknown calls peers reported e =
      of_latest new_multiaddr (latest_known unknown calls) peers reported
        (sym (bootstrap_peers-on_new_leader new_multiaddr unknown calls) ∙ e)
