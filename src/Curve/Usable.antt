-- ===== src/Curve/Usable.antt =====
-- The curves of config/cfg.rs that give a speed at every temperature.
use tt_riingd.Common.{String, ℕ, suc, List, [], ◌∷◌, ◌≡◌, refl, ok, All, length, eqb_iff, arith}
use tt_riingd.Floats.{Floats, IeeeLaws}
use tt_riingd.Config.{CurveCfg, constant, step_curve, bezier, Point}
use tt_riingd.Curve.{end_speed, segment_speed, step_speed, calculate_speed}
use tt_riingd.Curve.Bisection.{IsNumber, bezier_speed_total}

module _ (R : Floats) (laws : IeeeLaws R) where
  -- A Bezier curve has four control points without a NaN for a temperature, and a step curve as many
  -- speeds as temperatures, and at least one.
  abbrev pub IsUsable : CurveCfg R.F → Type 0
  IsUsable (constant id speed) = Unit
  IsUsable (step_curve id [] spds) = ⊥
  IsUsable (step_curve id (t ∷ tmps) spds) = suc (length tmps) ≡ length spds
  IsUsable (bezier id points) = (length points ≡ 4) × All (IsNumber R laws) points

  step_speed_total :
      (temp t : R.F) (tmps : List R.F) (spds : List ℕ)
      → suc (length tmps) ≡ length spds
      → (speed : ℕ) × (step_speed R temp (t ∷ tmps) spds ≡ ok speed)
  unfolding step_speed
  step_speed_total temp t tmps [] h = absurd (omega arith)
  step_speed_total temp t tmps (s ∷ spds) h =
      let same : length tmps ≡ length spds = omega arith in
      (
        end_speed R (segment_speed R temp (t ∷ tmps) (s ∷ spds)) temp t s spds,
        rw ((eqb_iff (length tmps) (length spds)).1 same) refl,
      )

  bezier_total :
      (id : String) (temp : R.F) (points : List (Point R.F))
      → (length points ≡ 4) × All (IsNumber R laws) points
      → (speed : ℕ) × (calculate_speed R (bezier id points) temp ≡ ok speed)
  unfolding calculate_speed
  bezier_total id temp (a ∷ b ∷ c ∷ d ∷ []) (h, (ha, (hb, (hc, (hd, rest))))) =
      let (speed, e, small) =
        bezier_speed_total R laws (record { p0 = a; p1 = b; p2 = c; p3 = d }) temp
          (ha, hb, hc, hd) in
      (speed, e)
  bezier_total id temp (a ∷ b ∷ c ∷ d ∷ e ∷ rest) (h, hs) = absurd (omega arith)
  bezier_total id temp (a ∷ b ∷ c ∷ []) (h, hs) = absurd (omega arith)
  bezier_total id temp (a ∷ b ∷ []) (h, hs) = absurd (omega arith)
  bezier_total id temp (a ∷ []) (h, hs) = absurd (omega arith)
  bezier_total id temp [] (h, hs) = absurd (omega arith)

  -- A usable curve gives a speed at every temperature.
  pub calculate_speed_total :
      (curve : CurveCfg R.F) (temp : R.F)
      → IsUsable curve
      → (speed : ℕ) × (calculate_speed R curve temp ≡ ok speed)
  unfolding calculate_speed
  calculate_speed_total (constant id speed) temp h = (speed, refl)
  calculate_speed_total (step_curve id [] spds) temp h = absurd h
  calculate_speed_total (step_curve id (t ∷ tmps) spds) temp h = step_speed_total temp t tmps spds h
  calculate_speed_total (bezier id points) temp h = bezier_total id temp points h
