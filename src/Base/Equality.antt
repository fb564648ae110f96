-- ===== src/Base/Equality.antt =====
-- Rust's `==` on the types that derive `PartialEq`, and texts as lists of code points.
use Prim.Native.Nat.{ℕ}
use Prim.Native.Char.{code}
use Prim.Native.String.{String}
use mathlib.Core.Path.{◌≡◌}
use mathlib.Core.Logic.{ite}
use mathlib.Core.Bool.{Bool, true, false}
use mathlib.Core.List.{List, [], ◌∷◌}
use native.Mathlib.Omega.{arith}
use native.Mathlib.Decide.{ℕ_discrete}

-- A text: its code points (Rust's `chars`).
abbrev pub Str : Type 0
Str = List ℕ

-- A literal of the source.
abbrev pub lit : String → Str
lit String.[] = []
lit (String.◌∷◌ c s) = code c ∷ lit s

pub record Eq {ℓ} (A : Type ℓ) : Type ℓ where
  pub dec : Discrete A

infix 50 ◌==◌
abbrev pub ◌==◌ {ℓ} : {A : Type ℓ} ⦃e : Eq A⦄ → A → A → Bool
◌==◌ ⦃e⦄ a b = ite (e.dec a b) true false

pub eq_refl {ℓ} : {A : Type ℓ} ⦃e : Eq A⦄ (a : A) → (a == a) ≡ true
eq_refl ⦃e⦄ a = ground arith

Str-discrete : Discrete Str
Str-discrete = hlevel ℕ_discrete

-- Shut in proofs, where a split on a test yields the equation or its negation.
instance unfoldable pub str_eq : Eq Str
unfolding Str-discrete ℕ_discrete
str_eq = record { dec = Str-discrete }
