-- ===== src/Prelude/Results.antt =====
-- What a call of a Go function comes to: a result, an error value, a run-time panic, or no return
-- at all (a loop that goes on past its fuel, a wait for a lock or a channel that nobody serves).
use Prim.Native.Nat.{ℕ}
use mathlib.Core.Logic.{◌≢◌}
use mathlib.Core.Path.{◌≡◌, refl}

-- The error values of the program and of the standard library, by the place that makes them.
pub data Error : Type 0 where
  -- pkg/math
  step_not_power_of_two : Error
  -- pkg/context, strconv
  no_range_header invalid_range_format invalid_syntax value_out_of_range : Error
  -- pkg/urlparser
  empty_url unknown_url : Error
  -- io and os
  eof unexpected_eof not_exist io_failure : Error
  -- pkg/cache
  fill_mismatch bytes_mismatch : Error
  -- pkg/discovery
  peer_not_found content_not_found transport_failure bad_request advertise_failure : Error
  unexpected_status : ℕ → Error
  -- pkg/files/store
  only_single_chunk read_at_failed : Error
  -- cmd/proxy, pkg/k8s
  unknown_subcommand k8s_failure no_leader : Error

pub data Outcome {ℓ} (A : Type ℓ) : Type ℓ where
  ok : A → Outcome A
  err : Error → Outcome A
  panic blocked : Outcome A

infixl 5 ◌>>=◌ ◌>>◌
abbrev pub ◌>>=◌ {ℓ κ} : {A : Type ℓ} {B : Type κ} → Outcome A → (A → Outcome B) → Outcome B
ok a >>= f = f a
err e >>= f = err e
panic >>= f = panic
blocked >>= f = blocked

abbrev pub ◌>>◌ {ℓ} : {B : Type ℓ} → Outcome (Unit {0}) → Outcome B → Outcome B
m >> k = m >>= λ _. k

-- A split on the result of a call that keeps the equation.
pub data OutcomeCase {ℓ} {A : Type ℓ} (m : Outcome A) : Type ℓ where
  returns : (a : A) → m ≡ ok a → OutcomeCase m
  fails : (e : Error) → m ≡ err e → OutcomeCase m
  panics : m ≡ panic → OutcomeCase m
  waits : m ≡ blocked → OutcomeCase m

pub Outcome-cases {ℓ} : {A : Type ℓ} (m : Outcome A) → OutcomeCase m
Outcome-cases (ok a) = returns a refl
Outcome-cases (err e) = fails e refl
Outcome-cases panic = panics refl
Outcome-cases blocked = waits refl

-- A chain that returns has come through both its parts.
pub bind_inv {ℓ κ} :
    {A : Type ℓ} {B : Type κ} (m : Outcome A) (f : A → Outcome B) {b : B}
    → (m >>= f) ≡ ok b
    → (a : A) × (m ≡ ok a) × (f a ≡ ok b)
bind_inv (ok a) f e = (a, refl, e)
bind_inv (err x) f e = absurd (cc)
bind_inv panic f e = absurd (cc)
bind_inv blocked f e = absurd (cc)

pub panic≢ok {ℓ} : {A : Type ℓ} {a : A} → panic ≢ ok a
panic≢ok e = cc

pub blocked≢ok {ℓ} : {A : Type ℓ} {a : A} → blocked ≢ ok a
blocked≢ok e = cc
