-- ===== src/Base/Effects.antt =====
-- Code that changes a state and may panic: what was changed before the panic stays changed.
use mathlib.Core.Path.{◌≡◌, refl}
use mathlib.Core.Logic.{◌⊎◌, inl, inr}
use mathlib.Core.Option.{Option, none, some}

-- `unfinished` means that the fuel of a loop ran out.
pub data Outcome {ℓ} (A : Type ℓ) : Type ℓ where
  ok : A → Outcome A
  panicked : Outcome A
  unfinished : Outcome A

-- Rust's `Result`.
pub data Result {ℓ κ} (A : Type ℓ) (E : Type κ) : Type (ℓ ⊔ κ) where
  success : A → Result A E
  failure : E → Result A E

abbrev pub Exec {ℓ κ} : Type ℓ → Type κ → Type (ℓ ⊔ κ)
Exec S A = S → Outcome A × S

abbrev pub pure {ℓ κ} : {S : Type ℓ} {A : Type κ} → A → Exec S A
pure a s = (ok a, s)

abbrev pub panic {ℓ κ} : {S : Type ℓ} {A : Type κ} → Exec S A
panic s = (panicked, s)

abbrev pub gets {ℓ κ} : {S : Type ℓ} {A : Type κ} → (S → A) → Exec S A
gets f s = (ok (f s), s)

abbrev pub modify {ℓ} : {S : Type ℓ} → (S → S) → Exec S (Unit {0})
modify f s = (ok tt, f s)

abbrev pub after {ℓ κ μ} :
    {S : Type ℓ} {A : Type κ} {B : Type μ} → (A → Exec S B) → Outcome A × S → Outcome B × S
after f (ok a, s) = f a s
after f (panicked, s) = (panicked, s)
after f (unfinished, s) = (unfinished, s)

infixl 5 ◌>>=◌ ◌>>◌
abbrev pub ◌>>=◌ {ℓ κ μ} :
    {S : Type ℓ} {A : Type κ} {B : Type μ} → Exec S A → (A → Exec S B) → Exec S B
◌>>=◌ m f s = after f (m s)

abbrev pub ◌>>◌ {ℓ κ} : {S : Type ℓ} {B : Type κ} → Exec S (Unit {0}) → Exec S B → Exec S B
m >> k = m >>= λ _. k

-- `unwrap`, `expect`
abbrev pub unwrap {ℓ κ} : {S : Type ℓ} {A : Type κ} → Option A → Exec S A
unwrap none = panic
unwrap (some a) = pure a

-- To split on a computed result and keep the equation.
pub Result-cases {ℓ κ} :
    {A : Type ℓ} {E : Type κ} (r : Result A E)
    → ((a : A) × (r ≡ success a)) ⊎ ((e : E) × (r ≡ failure e))
Result-cases (success a) = inl (a, refl)
Result-cases (failure e) = inr (e, refl)
