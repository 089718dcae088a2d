-- ===== src/Floats.antt =====
-- `f32`, which is not code of the repository: its operations are a parameter, and what the program
-- relies on of IEEE 754 and of Rust's conversions are the laws of `IeeeLaws`.
use Prim.Native.Nat.{Ordering}
use tt_riingd.Common.{ℕ, ◌≤◌, ◌<◌, ◌≡◌, ◌≢◌, Bool, true, false, Option, none}

pub record Floats : Type 1 where
  pub F : Type 0
  -- `as f32` of an integer, which also gives the literals that are integers.
  pub of_nat : ℕ → F
  pub half : F
  pub epsilon : F  -- 1e-2
  pub fifth : F  -- 0.2
  pub tau : F
  pub add : F → F → F
  pub sub : F → F → F
  pub mul : F → F → F
  pub div : F → F → F
  pub rem : F → F → F
  pub abs : F → F
  pub round : F → F
  pub sin : F → F
  pub lt : F → F → Bool
  pub le : F → F → Bool
  pub partial_cmp : F → F → Option Ordering
  pub clamp : F → F → F → F
  -- `as u8`: truncated, saturated, and 0 for a NaN.
  pub to_u8 : F → ℕ
  pub to_u32 : F → ℕ
  -- `as_secs_f32` of a duration in nanoseconds.
  pub as_secs : ℕ → F
  pub is_nan : F → Bool
  pub is_finite : F → Bool

pub record IeeeLaws (R : Floats) : Type 0 where
  pub partial_cmp_some :
      (a b : R.F) → R.is_nan a ≡ false → R.is_nan b ≡ false → R.partial_cmp a b ≢ none
  pub to_u8-clamp : (x : R.F) → R.to_u8 (R.clamp (R.of_nat 0) (R.of_nat 100) x) ≤ 100
  pub to_u8-of_nat : (n : ℕ) → n < 256 → R.to_u8 (R.of_nat n) ≡ n
  pub lt_asymm : (a b : R.F) → R.lt a b ≡ true → R.lt b a ≡ false
  pub lt_trans : (a b c : R.F) → R.lt a b ≡ true → R.lt b c ≡ true → R.lt a c ≡ true
  pub lt_irrefl : (a : R.F) → R.lt a a ≡ false
  pub le_refl_of_finite : (a : R.F) → R.is_finite a ≡ true → R.le a a ≡ true
  pub sub_self : (a : R.F) → R.is_finite a ≡ true → R.sub a a ≡ R.of_nat 0
  pub zero_div_sub : (a b : R.F) → R.lt a b ≡ true → R.div (R.of_nat 0) (R.sub b a) ≡ R.of_nat 0
  pub one_sub_zero : R.sub (R.of_nat 1) (R.of_nat 0) ≡ R.of_nat 1
  pub mul_one : (n : ℕ) → n < 256 → R.mul (R.of_nat n) (R.of_nat 1) ≡ R.of_nat n
  pub mul_zero : (n : ℕ) → n < 256 → R.mul (R.of_nat n) (R.of_nat 0) ≡ R.of_nat 0
  pub add_zero : (n : ℕ) → n < 256 → R.add (R.of_nat n) (R.of_nat 0) ≡ R.of_nat n
