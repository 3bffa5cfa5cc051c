-- ===== src/Double.antt =====
-- `double` (common/types.hpp: Price, Size, Notional).
pub mod Laws
pub mod Fixed
use cplusplus_arbitrage.Base.{ℕ, ◌≡◌, Bool, true, if◌then◌else◌}
use cplusplus_arbitrage.Base.Int.{ℤ}

-- All that the code does with a `double`. `of_ratio n m` is the constant nearest to n / m, and `trunc`
-- is the conversion to an integer.
pub record Double (D : Type 0) : Type 0 where
  pub of_ratio : ℕ → ℕ → D
  pub add : D → D → D
  pub sub : D → D → D
  pub mul : D → D → D
  pub div : D → D → D
  pub neg : D → D
  pub abs : D → D
  pub lt : D → D → Bool
  pub le : D → D → Bool
  pub eqv : D → D → Bool
  pub trunc : D → ℤ

-- The operators of the source. `a > b` is `b < a` and `a >= b` is `b <= a`, also at NaN.
module _ {D : Type 0} ⦃d : Double D⦄ where
  infixl 65 ◌⊕◌ ◌⊖◌
  infixl 70 ◌⊗◌ ◌⊘◌
  infix 50 ◌≺◌ ◌≼◌ ◌≻◌ ◌≽◌
  abbrev pub lit : ℕ → ℕ → D
  lit = d.of_ratio

  abbrev pub nought : D
  nought = d.of_ratio 0 1

  abbrev pub ◌⊕◌ : D → D → D
  ◌⊕◌ = d.add

  abbrev pub ◌⊖◌ : D → D → D
  ◌⊖◌ = d.sub

  abbrev pub ◌⊗◌ : D → D → D
  ◌⊗◌ = d.mul

  abbrev pub ◌⊘◌ : D → D → D
  ◌⊘◌ = d.div

  abbrev pub ◌≺◌ : D → D → Bool
  ◌≺◌ = d.lt

  abbrev pub ◌≼◌ : D → D → Bool
  ◌≼◌ = d.le

  abbrev pub ◌≻◌ : D → D → Bool
  a ≻ b = d.lt b a

  abbrev pub ◌≽◌ : D → D → Bool
  a ≽ b = d.le b a

  -- std::max and std::min, with the argument that they give back on a tie.
  abbrev pub max_of : D → D → D
  max_of a b = if d.lt a b then b else a

  abbrev pub min_of : D → D → D
  min_of a b = if d.lt b a then b else a

  -- NaN is the value that is not `<=` itself.
  abbrev pub IsNum : D → Type 0
  IsNum a = d.le a a ≡ true
