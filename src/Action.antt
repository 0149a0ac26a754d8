-- ===== src/Action.antt =====
-- Functions that read and change a state: the state comes back beside the outcome, so what was
-- written before an error stays written. `attempt` hands the outcome of a call to the code that
-- looks at `err` before it returns.
pub mod Rules
pub mod Steps
use peerd_oci.Prelude.{Outcome, ok, Error, blocked, panic, err}

abbrev pub Action {ℓ} : Type ℓ → Type ℓ → Type ℓ
Action S A = S → Outcome A × S

module _ {ℓ} {S A : Type ℓ} where
  unfoldable pub pure : A → Action S A
  pure a s = (ok a, s)

  unfoldable pub raise : Error → Action S A
  raise e s = (err e, s)

  unfoldable pub lift : Outcome A → Action S A
  lift r s = (r, s)

  unfoldable pub gets : (S → A) → Action S A
  gets f s = (ok (f s), s)

  -- A call that waits for ever, and a run-time panic.
  unfoldable pub wait_for_ever : Action S A
  wait_for_ever s = (blocked, s)

  unfoldable pub fault : Action S A
  fault s = (panic, s)

unfoldable pub modify {ℓ} : {S : Type ℓ} → (S → S) → Action S (Unit {ℓ})
modify f s = (ok tt, f s)

module _ {ℓ} {S A B : Type ℓ} where
  unfoldable pub continue : Outcome A → (A → Action S B) → Action S B
  continue (ok a) f s = f a s
  continue (err e) f s = (err e, s)
  continue panic f s = (panic, s)
  continue blocked f s = (blocked, s)

  infixl 5 ◌>>=◌ ◌>>◌
  unfoldable pub ◌>>=◌ : Action S A → (A → Action S B) → Action S B
  unfolding continue pure raise lift gets wait_for_ever fault modify
  ◌>>=◌ m f s = let (r, s') = m s in continue r f s'

  abbrev pub ◌>>◌ : Action S A → Action S B → Action S B
  m >> n = m >>= λ _. n

-- The result or the error of a call, for the code that tests it; a panic is not caught.
pub data Attempt {ℓ} (A : Type ℓ) : Type ℓ where
  done : A → Attempt A
  failed : Error → Attempt A

module _ {ℓ} {S A : Type ℓ} where
  unfoldable pub settle : Outcome A → Action S (Attempt A)
  settle (ok a) s = (ok (done a), s)
  settle (err e) s = (ok (failed e), s)
  settle panic s = (panic, s)
  settle blocked s = (blocked, s)

  unfoldable pub attempt : Action S A → Action S (Attempt A)
  unfolding settle
  attempt m s = let (r, s') = m s in settle r s'
