-- ===== src/Curve.antt =====
-- `CurveCfg::calculate_speed` of config/cfg.rs: the speed of a fan at a temperature.
pub mod Steps
pub mod Bisection
pub mod Usable
use Prim.Native.Nat.{Ordering}
use tt_riingd.Common.{
  ℕ, zero, suc, List, [], ◌∷◌, Option, none, some, Bool, true, false, not, ◌&&◌, Result, ok, err,
  panic, ◌>>=◌, curve_lengths, empty_curve, bezier_points, if◌then◌else◌, eqb, length,
}
use tt_riingd.Floats.{Floats}
use tt_riingd.Config.{CurveCfg, constant, step_curve, bezier, Point}

abbrev pub max_iterations : ℕ
max_iterations = 100

module _ (R : Floats) where
  open R use {F, of_nat, half, epsilon, add, sub, mul, div, abs, lt, le, partial_cmp, clamp, to_u8}

  -- The four control points; `calculate_speed` checks that there are four.
  pub record Bezier : Type 0 where
    pub p0 : Point F
    pub p1 : Point F
    pub p2 : Point F
    pub p3 : Point F

  -- One coordinate of `compute_bezier_at_t`.
  abbrev pub blend : F → F → F → F → F → F
  blend t c0 c1 c2 c3 =
      let u = sub (of_nat 1) t in
      let tt' = mul t t in
      let uu = mul u u in
      let uuu = mul uu u in
      let ttt = mul tt' t in
      add
        (add (add (mul uuu c0) (mul (mul (mul (of_nat 3) uu) t) c1))
          (mul (mul (mul (of_nat 3) u) tt') c2))
        (mul ttt c3)

  unfoldable pub compute_bezier_at_t : Bezier → F → Point F
  compute_bezier_at_t b t = record {
    x = blend t b.p0.x b.p1.x b.p2.x b.p3.x;
    y = blend t b.p0.y b.p1.y b.p2.y b.p3.y;
  }

  abbrev pub midpoint : F → F → F
  midpoint low high = mul (add low high) half

  abbrev pub is_close : Bezier → F → F → Bool
  is_close b temp t = lt (abs (sub (compute_bezier_at_t b t).x temp)) epsilon

  abbrev pub is_left : Bezier → F → F → Bool
  is_left b temp t = lt (compute_bezier_at_t b t).x temp

  -- The loop of `get_speed_for_temp`, over the rounds that are left.
  unfoldable pub bisect : Bezier → F → ℕ → F → F → F → F
  bisect b temp zero low high mid = (compute_bezier_at_t b mid).y
  bisect b temp (suc rounds) low high mid =
      let next = midpoint low high in
      let right = bisect b temp rounds next high next in
      let left = bisect b temp rounds low next next in
      if is_close b temp next
      then (compute_bezier_at_t b next).y
      else (if is_left b temp next then right else left)

  unfoldable pub get_speed_for_temp : Bezier → F → F
  get_speed_for_temp b temp = bisect b temp max_iterations (of_nat 0) (of_nat 1) (of_nat 0)

  -- `sort_by` with `partial_cmp(...).unwrap()`: a stable sort, and a panic on a NaN.
  abbrev pub insert_compared :
      Option Ordering
      → Point F
      → Point F
      → List (Point F)
      → Result (List (Point F))
      → Result (List (Point F))
  insert_compared none p q points further = panic
  insert_compared (some Ordering.gt) p q points further = further >>= λ rest. ok (q ∷ rest)
  insert_compared (some Ordering.lt) p q points further = ok (p ∷ q ∷ points)
  insert_compared (some Ordering.eq) p q points further = ok (p ∷ q ∷ points)

  unfoldable pub insert_point : Point F → List (Point F) → Result (List (Point F))
  insert_point p [] = ok (p ∷ [])
  insert_point p (q ∷ points) =
      insert_compared (partial_cmp p.x q.x) p q points (insert_point p points)

  unfoldable pub sort_points : List (Point F) → Result (List (Point F))
  sort_points [] = ok []
  sort_points (p ∷ points) = sort_points points >>= insert_point p

  -- `sorted_points[0]` and `sorted_points[3]`.
  abbrev pub ends_of : List (Point F) → Result (Point F × Point F)
  ends_of (a ∷ b ∷ c ∷ d ∷ rest) = ok (a, d)
  ends_of _ = panic

  -- `clamp(0.0, 100.0) as u8`.
  abbrev pub percent : F → ℕ
  percent speed = to_u8 (clamp (of_nat 0) (of_nat 100) speed)

  abbrev pub speed_between : Bezier → F → Point F × Point F → ℕ
  speed_between b temp (first, last) =
      if le temp first.x
      then percent first.y
      else (if le last.x temp then percent last.y else percent (get_speed_for_temp b temp))

  unfoldable pub bezier_speed : Bezier → F → Result ℕ
  unfolding sort_points
  bezier_speed b temp = do
    sorted ← sort_points (b.p0 ∷ b.p1 ∷ b.p2 ∷ b.p3 ∷ [])
    ends ← ends_of sorted
    ok (speed_between b temp ends)

  abbrev pub interpolate : F → F → F → ℕ → ℕ → ℕ
  interpolate temperature t0 t1 s0 s1 =
      let t = div (sub temperature t0) (sub t1 t0) in
      to_u8 (add (mul (of_nat s0) (sub (of_nat 1) t)) (mul (of_nat s1) t))

  -- The loop over the segments of a step curve.
  unfoldable pub segment_speed : F → List F → List ℕ → Option ℕ
  segment_speed temperature (t0 ∷ t1 ∷ tmps) (s0 ∷ s1 ∷ spds) =
      let rest = segment_speed temperature (t1 ∷ tmps) (s1 ∷ spds) in
      if le t0 temperature && lt temperature t1
      then some (interpolate temperature t0 t1 s0 s1)
      else rest
  segment_speed temperature _ _ = none

  abbrev pub last_or : ℕ → List ℕ → ℕ
  last_or s [] = s
  last_or s (s' ∷ spds) = last_or s' spds

  -- Behind the loop: the first speed, or the last.
  abbrev pub end_speed : Option ℕ → F → F → ℕ → List ℕ → ℕ
  end_speed (some speed) temperature t0 s0 spds = speed
  end_speed none temperature t0 s0 spds = if lt temperature t0 then s0 else last_or s0 spds

  unfoldable pub step_speed : F → List F → List ℕ → Result ℕ
  unfolding segment_speed
  step_speed temperature [] [] = err empty_curve
  step_speed temperature (t0 ∷ tmps) (s0 ∷ spds) =
      if eqb (length tmps) (length spds)
      then ok (end_speed (segment_speed temperature (t0 ∷ tmps) (s0 ∷ spds)) temperature t0 s0 spds)
      else err curve_lengths
  step_speed temperature _ _ = err curve_lengths

  unfoldable pub calculate_speed : CurveCfg F → F → Result ℕ
  unfolding bezier_speed step_speed
  calculate_speed (constant id speed) temperature = ok speed
  calculate_speed (step_curve id tmps spds) temperature = step_speed temperature tmps spds
  calculate_speed (bezier id (p0 ∷ p1 ∷ p2 ∷ p3 ∷ [])) temperature =
      bezier_speed (record { p0 = p0; p1 = p1; p2 = p2; p3 = p3 }) temperature
  calculate_speed (bezier id _) temperature = err bezier_points
