-- ===== src/Double/Fixed.antt =====
-- Doubles that can be run: whole ten-thousandths, with `none` for NaN. Products and quotients round
-- towards zero; sums are exact.
use Prim.Native.Nat.{◌*◌, ◌/◌}
use cplusplus_arbitrage.Base.{
  ℕ, ◌+◌, ◌≡◌, refl, ap, Bool, false, ◌&&◌, Option, none, some, arith, if◌then◌else◌, ◌==◌,
}
use cplusplus_arbitrage.Base.Int.{
  ℤ, pos, negsuc, pos_part, neg_part, ◌+ℤ◌, neg_ℤ, abs_ℤ, ltb_ℤ, leb_ℤ, +ℤ_comm, +ℤ_assoc, +ℤ-zero,
  +ℤ-neg,
}
use cplusplus_arbitrage.Double.{Double}
use cplusplus_arbitrage.Double.Laws.{IsOrdered, IsExact, HasHundredths, HasMagnitude}

abbrev pub Fixed : Type 0
Fixed = Option ℤ

abbrev unit : ℕ
unit = 10_000

abbrev with_sign : ℤ → ℤ → ℕ → ℤ
with_sign (pos _) (pos _) n = pos n
with_sign (negsuc _) (negsuc _) n = pos n
with_sign (pos _) (negsuc _) n = neg_ℤ (pos n)
with_sign (negsuc _) (pos _) n = neg_ℤ (pos n)

abbrev size : ℤ → ℕ
size a = pos_part a + neg_part a

abbrev on_numbers : (ℤ → ℤ → ℤ) → Fixed → Fixed → Fixed
on_numbers f (some a) (some b) = some (f a b)
on_numbers f (some a) none = none
on_numbers f none b = none

abbrev test_numbers : (ℤ → ℤ → Bool) → Fixed → Fixed → Bool
test_numbers f (some a) (some b) = f a b
test_numbers f (some a) none = false
test_numbers f none b = false

abbrev divide : Fixed → Fixed → Fixed
divide (some a) (some b) =
    if size b == 0 then none else some (with_sign a b (size a * unit / size b))
divide (some a) none = none
divide none b = none

abbrev negate : Fixed → Fixed
negate none = none
negate (some a) = some (neg_ℤ a)

abbrev magnitude : Fixed → Fixed
magnitude none = none
magnitude (some a) = some (abs_ℤ a)

abbrev whole : Fixed → ℤ
whole none = pos 0
whole (some a) = with_sign a (pos 0) (size a / unit)

instance abbrev pub fixed_double : Double Fixed
fixed_double = record {
  of_ratio = λ n m. some (pos (n * unit / m));
  add = on_numbers (◌+ℤ◌);
  sub = on_numbers (λ a b. a +ℤ neg_ℤ b);
  mul = on_numbers (λ a b. with_sign a b (size a * size b / unit));
  div = divide;
  neg = negate;
  abs = magnitude;
  lt = test_numbers ltb_ℤ;
  le = test_numbers leb_ℤ;
  eqv = test_numbers (λ a b. leb_ℤ a b && leb_ℤ b a);
  trunc = whole;
}

pub Fixed-IsOrdered : IsOrdered Fixed
Fixed-IsOrdered = record {
  lt_irrefl = λ a. ground arith;
  lt_trans = λ a b c. ground arith;
  lt_cotrans = λ a b c. ground arith;
  num_of_lt = λ a b. ground arith;
  num_of_le = λ a b. ground arith;
  le-eq-not-lt = λ a b. ground arith;
  le_of_eqv = λ a b. ground arith;
  num_ratio = λ n m. ground arith;
  add_mono = λ a b c e. ground arith;
  add-le-zero = λ a b. ground arith;
}

on_numbers_comm :
    (f : ℤ → ℤ → ℤ)
    → ((a b : ℤ) → f a b ≡ f b a)
    → (a b : Fixed) → on_numbers f a b ≡ on_numbers f b a
on_numbers_comm f h none none = refl
on_numbers_comm f h none (some b) = refl
on_numbers_comm f h (some a) none = refl
on_numbers_comm f h (some a) (some b) = ap some (h a b)

on_numbers_assoc :
    (f : ℤ → ℤ → ℤ)
    → ((a b c : ℤ) → f (f a b) c ≡ f a (f b c))
    → (a b c : Fixed) → on_numbers f (on_numbers f a b) c ≡ on_numbers f a (on_numbers f b c)
on_numbers_assoc f h none b c = refl
on_numbers_assoc f h (some a) none c = refl
on_numbers_assoc f h (some a) (some b) none = refl
on_numbers_assoc f h (some a) (some b) (some c) = ap some (h a b c)

pub Fixed-IsExact : IsExact Fixed
Fixed-IsExact = record {
  add_assoc = on_numbers_assoc (◌+ℤ◌) +ℤ_assoc;
  add_comm = on_numbers_comm (◌+ℤ◌) +ℤ_comm;
  add-zero = elim [ none ↦ refl | some a ↦ ap some (+ℤ-zero a) ];
  sub-eq-add_neg = λ a b. ground arith;
  add-neg = elim [ none ↦ λ h. cc | some a ↦ λ h. ap some (+ℤ-neg a) ];
}

pub Fixed-HasHundredths : HasHundredths Fixed
Fixed-HasHundredths = record { lt_hundredths = λ n k p q. ground arith }

pub Fixed-HasMagnitude : HasMagnitude Fixed
Fixed-HasMagnitude = record {
  abs_of_gt = λ a h. ground arith;
  abs_of_lt = λ a h. ground arith;
  eqv_of_le = λ a b. ground arith;
}
