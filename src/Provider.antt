-- ===== src/Provider.antt =====
-- pkg/discovery/content/provider/provider.go: the loop that advertises the keys of blobs.
use peerd_oci.Action.Steps.{bind-ok}
use peerd_oci.Prelude.{Bytes, Outcome, List, ok, ◌∷◌, ◌≡◌, err, [], panic, blocked, refl, ◌∙◌}
use peerd_oci.Action.{
  Action, ◌>>=◌, ◌>>◌, lift, settle, attempt, pure, Attempt, done, continue, failed,
}
use peerd_oci.Router.{Router, Content, LookupCache, provide_all, provide_id}

-- A call comes back, with a result or an error.
abbrev pub ComesBack : {A : Type 0} → Outcome A → Type 0
ComesBack (ok a) = Unit
ComesBack (err e) = Unit
ComesBack panic = ⊥
ComesBack blocked = ⊥

module _ (D : Content) (L : LookupCache) (self port : Bytes) where
  -- `Provide`, on the blobs that it receives before it is cancelled. An error is logged.
  unfoldable pub advertise : List Bytes → Action (Router D.State L.State) (Unit {0})
  advertise [] = pure tt
  advertise (blob ∷ blobs) = do _ ← attempt (provide_all D L self port (blob ∷ [])); advertise blobs

  provide_one-ComesBack :
      (key : Bytes) (r : Router D.State L.State)
      → ComesBack (D.content_id key)
      → ((id : Bytes) (s : D.State) → ComesBack (D.provide id s).0)
      → ComesBack (provide_all D L self port (key ∷ []) r).0
  unfolding provide_all lift provide_id peerd_oci.Action.◌>>=◌ peerd_oci.Action.continue pure
  provide_one-ComesBack key r known provided = go (D.content_id key) known
    where
      after_provide :
          (o : Outcome (Unit {0})) (t : Router D.State L.State)
          → ComesBack o
          → ComesBack (continue o (λ _. pure tt) t).0
      after_provide (ok u) t h = tt
      after_provide (err e) t h = tt
      after_provide panic t h = absurd h
      after_provide blocked t h = absurd h

      go :
          (o : Outcome Bytes)
          → ComesBack o
          → ComesBack (continue o (λ id. provide_id D L self port id >>= λ _. pure tt) r).0
      go (ok id) h = after_provide (D.provide id r.content).0 _ (provided id r.content)
      go (err e) h = tt
      go panic h = absurd h
      go blocked h = absurd h

  settle-ok :
      {A : Type 0} (o : Outcome A) (r : Router D.State L.State)
      → ComesBack o
      → (a : Attempt A) × (settle o r ≡ (ok a, r))
  unfolding settle
  settle-ok (ok a) r h = (done a, refl)
  settle-ok (err e) r h = (failed e, refl)
  settle-ok panic r h = absurd h
  settle-ok blocked r h = absurd h

  -- What is left after a call of `Provide` for each blob, in their order.
  abbrev pub after_each : List Bytes → Router D.State L.State → Router D.State L.State
  after_each [] r = r
  after_each (blob ∷ blobs) r = after_each blobs (provide_all D L self port (blob ∷ []) r).1

  -- The loop calls `Provide` for each of the blobs, in their order, also behind those that cannot be
  -- advertised, and ends without an error, as long as each call of the network comes back with a
  -- result or an error.
  pub advertise-ends :
      (blobs : List Bytes) (r : Router D.State L.State)
      → ((key : Bytes) → ComesBack (D.content_id key))
      → ((id : Bytes) (s : D.State) → ComesBack (D.provide id s).0)
      → advertise blobs r ≡ (ok tt, after_each blobs r)
  unfolding advertise attempt pure
  advertise-ends [] r known provided = refl
  advertise-ends (blob ∷ blobs) r known provided =
      let m = provide_all D L self port (blob ∷ []) in
      let (a, e) = settle-ok (m r).0 (m r).1 (provide_one-ComesBack blob r (known blob) provided) in
      bind-ok (attempt m) (λ _. advertise blobs) r e ∙ advertise-ends blobs (m r).1 known provided
