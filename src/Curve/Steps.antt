-- ===== src/Curve/Steps.antt =====
-- The step curve goes through its points.
use mathlib.Core.Path.{subst}
use tt_riingd.Common.{
  ℕ, zero, suc, ◌<◌, ◌≡◌, refl, ap, ◌∙◌, List, [], ◌∷◌, Option, none, some, true, false, ok,
  eqb_iff, All, length, get_elem?, arith,
}
use tt_riingd.Floats.{Floats, IeeeLaws}
use tt_riingd.Curve.{segment_speed, end_speed, interpolate, step_speed}

-- The temperatures of the table rise.
abbrev pub IsIncreasing : (R : Floats) → List R.F → Type 0
IsIncreasing R [] = Unit
IsIncreasing R (t ∷ []) = Unit
IsIncreasing R (t0 ∷ t1 ∷ tmps) = (R.lt t0 t1 ≡ true) × IsIncreasing R (t1 ∷ tmps)

abbrev pub IsFinite : (R : Floats) → R.F → Type 0
IsFinite R t = R.is_finite t ≡ true

module _ (R : Floats) (laws : IeeeLaws R) where
  -- At the lower end of a segment the interpolation is exact.
  interpolate_lower :
      (t0 t1 : R.F) (s0 s1 : ℕ)
      → IsFinite R t0
      → R.lt t0 t1 ≡ true
      → s0 < 256
      → s1 < 256
      → interpolate R t0 t0 t1 s0 s1 ≡ s0
  interpolate_lower t0 t1 s0 s1 f h b0 b1 =
      rw
        (
          interpolate,
          laws.sub_self t0 f,
          laws.zero_div_sub t0 t1 h,
          laws.one_sub_zero,
          laws.mul_one s0 b0,
          laws.mul_zero s1 b1,
          laws.add_zero s0 b0,
        )
        (laws.to_u8-of_nat s0 b0)

  head-lt :
      (t0 t : R.F) (tmps : List R.F) (i : ℕ)
      → IsIncreasing R (t0 ∷ tmps)
      → get_elem? tmps i ≡ some t
      → R.lt t0 t ≡ true
  head-lt t0 t [] i inc h = cc
  head-lt t0 t (t1 ∷ tmps) zero (lt01, inc) h = ground arith
  head-lt t0 t (t1 ∷ tmps) (suc i) (lt01, inc) h =
      laws.lt_trans t0 t1 t lt01 (head-lt t1 t tmps i inc h)

  -- No point of the table lies left of its first one.
  not-lt-head :
      (t0 t : R.F) (tmps : List R.F) (i : ℕ)
      → IsIncreasing R (t0 ∷ tmps)
      → get_elem? (t0 ∷ tmps) i ≡ some t
      → R.lt t t0 ≡ false
  not-lt-head t0 t tmps zero inc h = ground (arith, laws.lt_irrefl t0)
  not-lt-head t0 t tmps (suc i) inc h = laws.lt_asymm t0 t (head-lt t0 t tmps i inc h)

  end_speed_next :
      (o : Option ℕ) (t first : R.F) (s0 s1 : ℕ) (spds : List ℕ)
      → R.lt t first ≡ false
      → end_speed R o t first s0 (s1 ∷ spds) ≡ end_speed R o t first s1 spds
  end_speed_next (some s) t first s0 s1 spds h = refl
  end_speed_next none t first s0 s1 spds h = rw h

  segment_single : (t t0 : R.F) (s0 : ℕ) → segment_speed R t (t0 ∷ []) (s0 ∷ []) ≡ none
  unfolding segment_speed
  segment_single t t0 s0 = refl

  -- At the lower end of a segment, and right of it.
  segment_lower :
      (t0 t1 : R.F) (tmps : List R.F) (s0 s1 : ℕ) (spds : List ℕ)
      → IsFinite R t0
      → R.lt t0 t1 ≡ true
      → s0 < 256
      → s1 < 256
      → segment_speed R t0 (t0 ∷ t1 ∷ tmps) (s0 ∷ s1 ∷ spds) ≡ some s0
  unfolding segment_speed
  segment_lower t0 t1 tmps s0 s1 spds f h b0 b1 =
      rw (laws.le_refl_of_finite t0 f, h) (ap some (interpolate_lower t0 t1 s0 s1 f h b0 b1))

  segment_next :
      (t t0 t1 : R.F) (tmps : List R.F) (s0 s1 : ℕ) (spds : List ℕ)
      → R.lt t t1 ≡ false
      → segment_speed R t (t0 ∷ t1 ∷ tmps) (s0 ∷ s1 ∷ spds)
        ≡ segment_speed R t (t1 ∷ tmps) (s1 ∷ spds)
  unfolding segment_speed
  segment_next t t0 t1 tmps s0 s1 spds h = rw h (ground arith)

  knot :
      (t first : R.F) (s : ℕ) (t0 : R.F) (tmps : List R.F) (s0 : ℕ) (spds : List ℕ) (i : ℕ)
      → IsIncreasing R (t0 ∷ tmps)
      → All (IsFinite R) (t0 ∷ tmps)
      → All (λ n. n < 256) (s0 ∷ spds)
      → length tmps ≡ length spds
      → R.lt t first ≡ false
      → get_elem? (t0 ∷ tmps) i ≡ some t
      → get_elem? (s0 ∷ spds) i ≡ some s
      → end_speed R (segment_speed R t (t0 ∷ tmps) (s0 ∷ spds)) t first s0 spds ≡ s
  knot t first s t0 [] s0 [] zero inc fin small e l ht hs =
      let same : s0 ≡ s = ground arith in
      ap (λ o. end_speed R o t first s0 []) (segment_single t t0 s0) ∙ rw l same
  knot t first s t0 [] s0 [] (suc i) inc fin small e l ht hs = cc
  knot t first s t0 [] s0 (s1 ∷ spds) i inc fin small e l ht hs = absurd (omega arith)
  knot t first s t0 (t1 ∷ tmps) s0 [] i inc fin small e l ht hs = absurd (omega arith)
  knot t first s t0 (t1 ∷ tmps) s0 (s1 ∷ spds) zero (lt01, inc) (f0, fin) (b0, (b1, small)) e l ht
        hs =
      let same : t0 ≡ t = ground arith in
      let low = segment_lower t0 t1 tmps s0 s1 spds f0 lt01 b0 b1 in
      let here : segment_speed R t (t0 ∷ t1 ∷ tmps) (s0 ∷ s1 ∷ spds) ≡ some s0 =
        subst (λ u. segment_speed R u (t0 ∷ t1 ∷ tmps) (s0 ∷ s1 ∷ spds) ≡ some s0) same low in
      ap (λ o. end_speed R o t first s0 (s1 ∷ spds)) here ∙ ground arith
  knot t first s t0 (t1 ∷ tmps) s0 (s1 ∷ spds) (suc i) (lt01, inc) (f0, fin) (b0, small) e l ht hs =
      let next = segment_next t t0 t1 tmps s0 s1 spds (not-lt-head t1 t tmps i inc ht) in
      ap (λ o. end_speed R o t first s0 (s1 ∷ spds)) next
      ∙ end_speed_next (segment_speed R t (t1 ∷ tmps) (s1 ∷ spds)) t first s0 s1 spds l
      ∙ knot t first s t1 tmps s1 spds i inc fin small (omega arith) l ht hs

  -- A step curve whose temperatures rise and are finite gives, at each of its temperatures, just the
  -- speed that stands beside it.
  pub step_speed-knot :
      (tmps : List R.F) (spds : List ℕ) (i : ℕ) (t : R.F) (s : ℕ)
      → IsIncreasing R tmps
      → All (IsFinite R) tmps
      → All (λ n. n < 256) spds
      → length tmps ≡ length spds
      → get_elem? tmps i ≡ some t
      → get_elem? spds i ≡ some s
      → step_speed R t tmps spds ≡ ok s
  unfolding step_speed
  step_speed-knot [] spds i t s inc fin small e ht hs = cc
  step_speed-knot (t0 ∷ tmps) [] i t s inc fin small e ht hs = cc
  step_speed-knot (t0 ∷ tmps) (s0 ∷ spds) i t s inc fin small e ht hs =
      let same : length tmps ≡ length spds = omega arith in
      rw ((eqb_iff (length tmps) (length spds)).1 same) (
        ap ok
          (knot t t0 s t0 tmps s0 spds i inc fin small same (not-lt-head t0 t tmps i inc ht) ht hs))
