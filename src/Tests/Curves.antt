-- ===== src/Tests/Curves.antt =====
-- Curves over numbers with a fixed point, 1024 parts to the unit, in place of `f32`.
use Prim.Native.Nat.{compare}
use native.Mathlib.Nat.{zero-div}
use tt_riingd.Common.{
  ℕ, ◌+◌, ◌-◌, ◌*◌, ◌/◌, ◌≤◌, ◌≡◌, refl, List, [], ◌∷◌, some, true, false, ok, ltb, leb,
  if◌then◌else◌, arith,
}
use tt_riingd.Floats.{Floats, IeeeLaws}
use tt_riingd.Config.{Point}
use tt_riingd.Curve.{Bezier, get_speed_for_temp, bezier_speed, step_speed, segment_speed}
use tt_riingd.Curve.Bisection.{IsFound, get_speed_for_temp-IsFound, bezier_speed_total}
use tt_riingd.Curve.Steps.{step_speed-knot}

abbrev lowest : ℕ → ℕ → ℕ
lowest a b = if ltb a b then a else b

abbrev pub fixed : Floats
fixed = record {
  F = ℕ;
  of_nat = λ n. n * 1024;
  half = 512;
  epsilon = 10;
  fifth = 205;
  tau = 6434;
  add = λ a b. a + b;
  sub = λ a b. a - b;
  mul = λ a b. a * b / 1024;
  div = λ a b. a * 1024 / b;
  rem = λ a b. a - a / b * b;
  abs = λ a. a;
  round = λ a. (a + 512) / 1024 * 1024;
  sin = λ a. a;
  lt = ltb;
  le = leb;
  partial_cmp = λ a b. some (compare a b);
  clamp = λ low high a. if ltb a low then low else lowest a high;
  to_u8 = λ a. lowest (a / 1024) 255;
  to_u32 = λ a. a / 1024;
  as_secs = λ n. n / 976563;
  is_nan = λ a. false;
  is_finite = λ a. true;
}

pub fixed-laws : IeeeLaws fixed
fixed-laws = record {
  partial_cmp_some = λ a b h k e. absurd (cc e);
  to_u8-clamp = λ x. ground arith;
  to_u8-of_nat = λ n h. ground arith;
  lt_asymm = λ a b h. ground arith;
  lt_trans = λ a b c h k. ground arith;
  lt_irrefl = λ a. ground arith;
  le_refl_of_finite = λ a h. ground arith;
  sub_self = λ a h. omega arith;
  zero_div_sub = λ a b h. zero-div (b - a);
  one_sub_zero = refl;
  mul_one = λ n h. omega arith;
  mul_zero = λ n h. omega arith;
  add_zero = λ n h. omega arith;
}

abbrev at : ℕ → ℕ → Point ℕ
at temp speed = record { x = temp * 1024; y = speed * 1024 }

abbrev pub curve : Bezier fixed
curve = record { p0 = at 30 20; p1 = at 40 30; p2 = at 60 80; p3 = at 80 100 }

get_speed_for_temp-IsFound_example :
    IsFound fixed curve (50 * 1024) 100 (get_speed_for_temp fixed curve (50 * 1024))
get_speed_for_temp-IsFound_example = get_speed_for_temp-IsFound fixed curve (50 * 1024)

bezier_speed_total_example :
    (speed : ℕ) × (bezier_speed fixed curve (50 * 1024) ≡ ok speed) × (speed ≤ 100)
bezier_speed_total_example =
    bezier_speed_total fixed fixed-laws curve (50 * 1024) (refl, refl, refl, refl)

abbrev temps : List ℕ
temps = 30 * 1024 ∷ 50 * 1024 ∷ 70 * 1024 ∷ []

abbrev speeds : List ℕ
speeds = 20 ∷ 45 ∷ 100 ∷ []

step_speed-knot_example : step_speed fixed (50 * 1024) temps speeds ≡ ok 45
step_speed-knot_example =
    step_speed-knot fixed fixed-laws temps speeds 1 (50 * 1024) 45 (refl, (refl, tt))
      (refl, (refl, (refl, tt))) (omega arith, (omega arith, (omega arith, tt))) refl refl refl

-- Between two points of a step curve, left of it and right of it.
between_steps : step_speed fixed (40 * 1024) temps speeds ≡ ok 32
unfolding step_speed segment_speed
between_steps = refl

left_of_steps : step_speed fixed (10 * 1024) temps speeds ≡ ok 20
unfolding step_speed segment_speed
left_of_steps = refl

right_of_steps : step_speed fixed (90 * 1024) temps speeds ≡ ok 100
unfolding step_speed segment_speed
right_of_steps = refl
