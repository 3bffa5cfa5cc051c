-- ===== src/Double/Laws.antt =====
-- What the proofs use of doubles. `IsOrdered` holds of IEEE 754 doubles, NaN and infinities included.
-- `IsExact` holds of sums and differences that do not round, as of amounts in whole cents.
use cplusplus_arbitrage.Base.{ltb, ◌≤◌, ℕ, suc, ◌≡◌, ◌⊎◌, true, false, not, arith}
use cplusplus_arbitrage.Double.{Double, IsNum, nought, ◌⊕◌, ◌⊖◌, ◌≺◌, ◌≼◌}

pub record IsOrdered (D : Type 0) ⦃d : Double D⦄ : Type 0 where
  pub lt_irrefl : (a : D) → (a ≺ a) ≡ false
  pub lt_trans : (a b c : D) → (a ≺ b) ≡ true → (b ≺ c) ≡ true → (a ≺ c) ≡ true
  pub lt_cotrans : (a b c : D) → IsNum b → (a ≺ c) ≡ true → ((a ≺ b) ≡ true) ⊎ ((b ≺ c) ≡ true)
  pub num_of_lt : (a b : D) → (a ≺ b) ≡ true → IsNum a × IsNum b
  pub num_of_le : (a b : D) → (a ≼ b) ≡ true → IsNum a × IsNum b
  pub le-eq-not-lt : (a b : D) → IsNum a → IsNum b → (a ≼ b) ≡ not (b ≺ a)
  pub le_of_eqv : (a b : D) → (d.eqv a b ≡ true) → ((a ≼ b) ≡ true) × ((b ≼ a) ≡ true)
  pub num_ratio : (n m : ℕ) → IsNum (d.of_ratio n (suc m))
  pub add_mono :
      (a b c e : D)
      → (a ≼ b) ≡ true
      → (c ≼ e) ≡ true
      → IsNum (a ⊕ c)
      → IsNum (b ⊕ e)
      → ((a ⊕ c) ≼ (b ⊕ e)) ≡ true
  pub add-le-zero : (a b : D) → IsNum (a ⊕ b) → ((a ⊕ b) ≼ nought) ≡ (b ≼ d.neg a)

pub record IsExact (D : Type 0) ⦃d : Double D⦄ : Type 0 where
  pub add_assoc : (a b c : D) → a ⊕ b ⊕ c ≡ a ⊕ (b ⊕ c)
  pub add_comm : (a b : D) → a ⊕ b ≡ b ⊕ a
  pub add-zero : (a : D) → a ⊕ nought ≡ a
  pub sub-eq-add_neg : (a b : D) → a ⊖ b ≡ a ⊕ d.neg b
  pub add-neg : (a : D) → IsNum a → a ⊕ d.neg a ≡ nought

-- Two different whole hundredths up to 1 are two different doubles, in the same order.
pub record HasHundredths (D : Type 0) ⦃d : Double D⦄ : Type 0 where
  pub lt_hundredths :
      (n k : ℕ) → n ≤ 100 → k ≤ 100 → (d.of_ratio n 100 ≺ d.of_ratio k 100) ≡ ltb n k

-- What `abs` and `==` are, of numbers that differ from 0.
pub record HasMagnitude (D : Type 0) ⦃d : Double D⦄ : Type 0 where
  pub abs_of_gt : (a : D) → (nought ≺ a) ≡ true → d.abs a ≡ a
  pub abs_of_lt : (a : D) → (a ≺ nought) ≡ true → d.abs a ≡ d.neg a
  pub eqv_of_le : (a b : D) → (a ≼ b) ≡ true → (b ≼ a) ≡ true → d.eqv a b ≡ true

module _ {D : Type 0} ⦃d : Double D⦄ (laws : IsOrdered D) where
  open laws use {lt_irrefl, lt_trans, lt_cotrans, num_of_lt, num_of_le, le-eq-not-lt}

  pub le_of_lt : (a c : D) → (a ≺ c) ≡ true → (a ≼ c) ≡ true
  le_of_lt a c h =
      let n = num_of_lt a c h in
      ground (arith, le-eq-not-lt a c n.0 n.1, lt_trans a c a h, lt_irrefl a)

  pub le_trans : (a b c : D) → (a ≼ b) ≡ true → (b ≼ c) ≡ true → (a ≼ c) ≡ true
  le_trans a b c p q =
      let n = num_of_le a b p in
      let k = num_of_le b c q in
      ground (
        arith,
        le-eq-not-lt a b n.0 n.1,
        le-eq-not-lt b c k.0 k.1,
        le-eq-not-lt a c n.0 k.1,
        lt_cotrans c b a n.1,
      )

  -- What is not above a bound is at most the bound.
  pub le_of_not_lt : (a b : D) → IsNum a → IsNum b → (b ≺ a) ≡ false → (a ≼ b) ≡ true
  le_of_not_lt a b n k h = ground (arith, le-eq-not-lt a b n k)

  pub lt_of_not_le : (a b : D) → IsNum a → IsNum b → (b ≼ a) ≡ false → (a ≺ b) ≡ true
  lt_of_not_le a b n k h = ground (arith, le-eq-not-lt b a k n)
