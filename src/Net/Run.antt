-- ===== src/Net/Run.antt =====
-- How a call of a coroutine ends: with a value, in a `wait_event` from which it is never resumed
-- because the environment's events have run out, or with the model's fuel used up.
use mathlib.Core.Path.{subst}
use coroutine_http.Prelude.{◌≡◌, refl, ◌≢◌, arith, Bool, true, false, if◌then◌else◌}

pub data Run {ℓ} (A : Type ℓ) : Type ℓ where
  done : A → Run A
  suspended out_of_fuel : Run A

infixl 5 ◌>>=◌
abbrev pub ◌>>=◌ {ℓ κ} : {A : Type ℓ} {B : Type κ} → Run A → (A → Run B) → Run B
done a >>= f = f a
suspended >>= f = suspended
out_of_fuel >>= f = out_of_fuel

module _ {ℓ} {A : Type ℓ} where
  -- Inversion of a bind that returned.
  pub >>=-eq-done {κ} :
      {B : Type κ} (m : Run A) (f : A → Run B) {b : B}
      → (m >>= f) ≡ done b
      → (a : A) × (m ≡ done a) × (f a ≡ done b)
  >>=-eq-done (done a) f h = (a, refl, h)
  >>=-eq-done suspended f h = ground arith
  >>=-eq-done out_of_fuel f h = ground arith

  -- A bind has fuel enough when its parts have.
  pub >>=-ne-out_of_fuel {κ} :
      {B : Type κ} (m : Run A) (f : A → Run B)
      → m ≢ out_of_fuel
      → ((a : A) → f a ≢ out_of_fuel)
      → (m >>= f) ≢ out_of_fuel
  >>=-ne-out_of_fuel (done a) f h k = k a
  >>=-ne-out_of_fuel suspended f h k = λ e. ground arith
  >>=-ne-out_of_fuel out_of_fuel f h k = λ _. h refl

-- The call returns with a value that satisfies `P`, or it waits for ever and `W` holds. It does
-- not run out of fuel.
pub data Ends {ℓ κ ι} {A : Type ℓ} (W : Type ι) (P : A → Type κ) : Run A → Type (ℓ ⊔ κ ⊔ ι) where
  returns : {a : A} → P a → Ends W P (done a)
  waits : W → Ends W P suspended

module _ {ℓ κ ι} {A : Type ℓ} {W : Type ι} {P : A → Type κ} where
  pub Ends-bind {ℓ' κ' ι'} :
      {B : Type ℓ'} {V : Type ι'} {Q : B → Type κ'} {m : Run A} {f : A → Run B}
      → Ends W P m
      → (W → V)
      → ((a : A) → P a → Ends V Q (f a))
      → Ends V Q (m >>= f)
  Ends-bind (returns p) w k = k _ p
  Ends-bind (waits q) w k = waits (w q)

  pub Ends-map {κ' ι'} :
      {V : Type ι'} {Q : A → Type κ'} {m : Run A}
      → Ends W P m
      → (W → V)
      → ((a : A) → P a → Q a)
      → Ends V Q m
  Ends-map (returns p) w k = returns (k _ p)
  Ends-map (waits q) w k = waits (w q)

  pub Ends-done : {m : Run A} {a : A} → Ends W P m → m ≡ done a → P a
  Ends-done {a} (returns {a = b} p) e = let same : b ≡ a = cc in subst P same p
  Ends-done (waits q) e = absurd (ground arith)

  -- A call that cannot wait returns.
  pub Ends-returns : {m : Run A} → Ends W P m → ¬ W → (a : A) × (m ≡ done a) × P a
  Ends-returns (returns p) n = (_, refl, p)
  Ends-returns (waits q) n = absurd (n q)

  pub Ends-if :
      {x y : Run A} (b : Bool)
      → (b ≡ true → Ends W P x)
      → (b ≡ false → Ends W P y)
      → Ends W P (if b then x else y)
  Ends-if true p q = p refl
  Ends-if false p q = q refl
