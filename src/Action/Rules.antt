-- ===== src/Action/Rules.antt =====
-- Postconditions of actions, one rule for each way to build an action.
use peerd_oci.Prelude.{
  ◌≡◌, subst, Error, ok, arith, Outcome, panic, blocked, refl, Bool, if◌then◌else◌, true, false,
}
use peerd_oci.Action.{Action, pure, raise, continue, ◌>>=◌, err, lift, Attempt, failed, done}

-- Every result that the action returns satisfies `P`.
pub ok-injective {ℓ} : {A : Type ℓ} {a b : A} → ok a ≡ ok b → a ≡ b
ok-injective h = cc

pub record Returns {ℓ} {S A : Type ℓ} (P : A → Type ℓ) (m : Action S A) : Type ℓ where
  pub at : (s : S) {a : A} → (m s).0 ≡ ok a → P a

module _ {ℓ} {S A : Type ℓ} {P : A → Type ℓ} where
  pub Returns-pure : (a : A) → P a → Returns {S = S} P (pure a)
  unfolding pure
  Returns-pure a h = record { at = λ s e. subst P (ok-injective e) h }

  pub Returns-raise : (e : Error) → Returns {S = S} P (raise e)
  unfolding raise
  Returns-raise e = record { at = λ s h. absurd (ground arith) }

module _ {ℓ} {S A B : Type ℓ} {P : B → Type ℓ} where
  continue-Returns :
      (r : Outcome A) (f : A → Action S B) (s : S) {b : B}
      → ((a : A) → Returns P (f a))
      → (continue r f s).0 ≡ ok b
      → P b
  unfolding continue
  continue-Returns (ok a) f s h e = (h a).at s e
  continue-Returns (err x) f s h e = absurd (ground arith)
  continue-Returns panic f s h e = absurd (ground arith)
  continue-Returns blocked f s h e = absurd (ground arith)

  pub Returns-bind :
      (m : Action S A) (f : A → Action S B) → ((a : A) → Returns P (f a)) → Returns P (m >>= f)
  unfolding ◌>>=◌
  Returns-bind m f h = record { at = λ s e. continue-Returns (m s).0 f (m s).1 h e }

module _ {ℓ} {S A B : Type ℓ} {Q : A → Type ℓ} {P : B → Type ℓ} where
  -- What the first part returns is known to the rest.
  pub Returns-trans :
      (m : Action S A) (f : A → Action S B)
      → Returns Q m
      → ((a : A) → Q a → Returns P (f a))
      → Returns P (m >>= f)
  unfolding ◌>>=◌ continue
  Returns-trans m f first rest = record { at = λ s e. go (m s).0 (m s).1 (λ a h. first.at s h) e }
    where
      go :
          (r : Outcome A) (t : S)
          → ((a : A) → r ≡ ok a → Q a)
          → {b : B} → (continue r f t).0 ≡ ok b
          → P b
      go (ok a) t known e = (rest a (known a refl)).at t e
      go (err x) t known e = absurd (ground arith)
      go panic t known e = absurd (ground arith)
      go blocked t known e = absurd (ground arith)

module _ {ℓ} {S A : Type ℓ} {P : A → Type ℓ} where
  pub Returns-lift : (o : Outcome A) → ((a : A) → o ≡ ok a → P a) → Returns {S = S} P (lift o)
  unfolding lift
  Returns-lift o known = record { at = λ s e. known _ e }

module _ {ℓ} {S A : Type ℓ} {P : A → Type ℓ} where
  pub Returns-if :
      (b : Bool) {m n : Action S A} → Returns P m → Returns P n → Returns P (if b then m else n)
  Returns-if true at_m at_n = at_m
  Returns-if false at_m at_n = at_n

module _ {ℓ} {S A B : Type ℓ} {P : B → Type ℓ} where
  pub Returns-answer :
      (answer : Attempt A) {f : Error → Action S B} {g : A → Action S B}
      → ((e : Error) → Returns P (f e))
      → ((a : A) → Returns P (g a))
      → Returns P (elim answer [ failed e ↦ f e | done a ↦ g a ])
  Returns-answer (failed e) at_f at_g = at_f e
  Returns-answer (done a) at_f at_g = at_g a

-- From a state in `P` the action ends in a state in `Q`, whether it returns or not.
pub record Leads {ℓ κ} {S A : Type ℓ} (P Q : S → Type κ) (m : Action S A) : Type (ℓ ⊔ κ) where
  pub at : (s : S) → P s → Q (m s).1

module _ {ℓ κ} {S A B : Type ℓ} {P Q R : S → Type κ} where
  -- The rest runs only if the first part returns; else the state must already be as wanted.
  pub Leads-bind :
      (m : Action S A) (f : A → Action S B)
      → ((s : S) (a : A) → P s → (m s).0 ≡ ok a → Q (m s).1)
      → ((s : S) → P s → ((a : A) → (m s).0 ≡ ok a → ⊥) → R (m s).1)
      → ((a : A) → Leads Q R (f a))
      → Leads P R (m >>= f)
  unfolding ◌>>=◌ continue
  Leads-bind m f good bad rest = record {
    at = λ s p. go (m s).0 (m s).1 (λ a e. good s a p e) (λ none_ok. bad s p none_ok);
  }
    where
      go :
          (r : Outcome A) (t : S)
          → ((a : A) → r ≡ ok a → Q t)
          → (((a : A) → r ≡ ok a → ⊥) → R t)
          → R (continue r f t).1
      go (ok a) t g b = (rest a).at t (g a refl)
      go (err e) t g b = b (λ a h. absurd (ground arith))
      go panic t g b = b (λ a h. absurd (ground arith))
      go blocked t g b = b (λ a h. absurd (ground arith))
