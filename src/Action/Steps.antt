-- ===== src/Action/Steps.antt =====
-- The run of a composite action, step by step.
use peerd_oci.Prelude.{◌≡◌, Error, ok, err, panic, blocked, ap}
use peerd_oci.Action.{Action, continue, ◌>>=◌, attempt, settle, done, failed}

module _ {ℓ} {S A B : Type ℓ} where
  pub bind-ok :
      (m : Action S A) (f : A → Action S B) (s : S) {t : S} {a : A}
      → m s ≡ (ok a, t)
      → (m >>= f) s ≡ f a t
  unfolding ◌>>=◌ continue
  bind-ok m f s e = ap (λ r. continue r.0 f r.1) e

  pub bind-err :
      (m : Action S A) (f : A → Action S B) (s : S) {t : S} {e : Error}
      → m s ≡ (err e, t)
      → (m >>= f) s ≡ (err e, t)
  unfolding ◌>>=◌ continue
  bind-err m f s e = ap (λ r. continue r.0 f r.1) e

  pub bind-panic :
      (m : Action S A) (f : A → Action S B) (s : S) {t : S}
      → m s ≡ (panic, t)
      → (m >>= f) s ≡ (panic, t)
  unfolding ◌>>=◌ continue
  bind-panic m f s e = ap (λ r. continue r.0 f r.1) e

  pub bind-blocked :
      (m : Action S A) (f : A → Action S B) (s : S) {t : S}
      → m s ≡ (blocked, t)
      → (m >>= f) s ≡ (blocked, t)
  unfolding ◌>>=◌ continue
  bind-blocked m f s e = ap (λ r. continue r.0 f r.1) e

module _ {ℓ} {S A : Type ℓ} where
  pub attempt-ok :
      (m : Action S A) (s : S) {t : S} {a : A} → m s ≡ (ok a, t) → attempt m s ≡ (ok (done a), t)
  unfolding attempt
  attempt-ok m s e = ap (λ r. settle r.0 r.1) e

  pub attempt-err :
      (m : Action S A) (s : S) {t : S} {e : Error}
      → m s ≡ (err e, t)
      → attempt m s ≡ (ok (failed e), t)
  unfolding attempt
  attempt-err m s e = ap (λ r. settle r.0 r.1) e
