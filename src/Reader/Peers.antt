-- ===== src/Reader/Peers.antt =====
-- The loop over the peers: what it asks of whom, and what it comes to.
use peerd_oci.Prelude.{
  Bytes, List, [], Error, map, ◌≡◌, err, ok, ◌⊎◌, ◌∷◌, ◌++◌, ◌∙◌, peer_not_found, refl, Outcome,
  inl, ap, inr,
}
use peerd_oci.Reader.{
  Network, Call, peer_loop, Context, ℤ, Operation, PeerInfo, Event, ask_peer, peer, closed, attempt,
  dismiss_key,
}
use peerd_oci.Action.{◌>>◌, pure, modify, raise}
use peerd_oci.Action.Steps.{bind-ok, attempt-err, attempt-ok}

module _ (N : Network) (node : Bytes) (c : Context) (key : Bytes) (start end : ℤ)
    (o : Operation) where
  open N use {State, dismiss}

  -- The peers are asked in turn from `s`, and each fails with an error; `t` is the state behind them.
  pub data Fails : List PeerInfo → Call State → Call State → Type 0 where
    none_left : {s : Call State} → Fails [] s s
    next_fails :
        {p : PeerInfo} {ps : List PeerInfo} {s t u : Call State} {e : Error}
        → ask_peer N node c p start end o s ≡ (err e, t)
        → Fails ps t u
        → Fails (p ∷ ps) s u

  skip :
      {ps : List PeerInfo} {s t : Call State} (rest : List Event)
      → Fails ps s t
      → peer_loop N node c (map peer ps ++ rest) key start end o s
        ≡ peer_loop N node c rest key start end o t
  unfolding peer_loop
  skip rest none_left = refl
  skip {ps = p ∷ ps} {s = s} rest (next_fails {t = t} asked more) =
      bind-ok (attempt (ask_peer N node c p start end o)) _ s
        (attempt-err (ask_peer N node c p start end o) s asked)
      ∙ skip rest more

  -- The first peer that answers gives the result, whatever comes behind it, and the key is not put
  -- into the negative cache: the network is as that peer left it.
  pub peer_loop-answer :
      (ps : List PeerInfo) (p : PeerInfo) (rest : List Event) (s t u : Call State) (n : ℤ)
      → Fails ps s t
      → ask_peer N node c p start end o t ≡ (ok n, u)
      → peer_loop N node c (map peer ps ++ peer p ∷ rest) key start end o s ≡ (ok n, u)
  unfolding peer_loop pure
  peer_loop-answer ps p rest s t u n failing asked =
      skip (peer p ∷ rest) failing
      ∙ bind-ok (attempt (ask_peer N node c p start end o)) _ t
          (attempt-ok (ask_peer N node c p start end o) t asked)

  -- If every peer fails, whether the channel is closed behind them or the time is over, no peer is
  -- found, and the key is put into the negative cache, once and last.
  pub peer_loop-exhausted :
      (ps : List PeerInfo) (rest : List Event) (s t : Call State)
      → Fails ps s t
      → (rest ≡ []) ⊎ (rest ≡ closed ∷ [])
      → peer_loop N node c (map peer ps ++ rest) key start end o s
        ≡ (err peer_not_found, record t { net = dismiss key t.net })
  unfolding peer_loop dismiss_key modify raise
  peer_loop-exhausted ps rest s t failing end_of_peers =
      let stop : (dismiss_key N node c key >> raise peer_not_found) t
          ≡ (err peer_not_found, record t { net = dismiss key t.net }) =
        bind-ok (dismiss_key N node c key) (λ _. raise peer_not_found) t refl in
      let at : List Event → Outcome ℤ × Call State = λ r. peer_loop N node c r key start end o t in
      skip rest failing ∙ elim end_of_peers [ inl e ↦ ap at e ∙ stop | inr e ↦ ap at e ∙ stop ]
