-- ===== src/Curve/Bisection.antt =====
-- The Bezier curve: the search for its parameter, and the range of the speed.
use Prim.Native.Nat.{Ordering}
use mathlib.Core.Path.{subst}
use tt_riingd.Common.{
  ℕ, zero, suc, ◌+◌, ◌≤◌, ◌≡◌, ◌≢◌, refl, ap, ◌∙◌, ◌⊎◌, inl, inr, List, [], ◌∷◌, Option, none, some,
  true, false, Result, ok, ◌>>=◌, Bool-cases, All, length, arith,
}
use tt_riingd.Floats.{Floats, IeeeLaws}
use tt_riingd.Config.{Point}
use tt_riingd.Curve.{
  Bezier, compute_bezier_at_t, midpoint, is_close, is_left, bisect, get_speed_for_temp,
  max_iterations, insert_compared, insert_point, sort_points, ends_of, speed_between, bezier_speed,
}

-- The interval behind a number of halvings of the parameters from 0 to 1: each keeps the half on whose
-- left end the curve is left of the temperature, and on whose right end it is not.
pub data Halves (R : Floats) (b : Bezier R) (temp : R.F) : ℕ → R.F → R.F → Type 0 where
  whole : {low high : R.F} → low ≡ R.of_nat 0 → high ≡ R.of_nat 1 → Halves R b temp zero low high
  right_half :
      {n : ℕ} {low high : R.F}
      → Halves R b temp n low high
      → is_left R b temp (midpoint R low high) ≡ true
      → Halves R b temp (suc n) (midpoint R low high) high
  left_half :
      {n : ℕ} {low high : R.F}
      → Halves R b temp n low high
      → is_left R b temp (midpoint R low high) ≡ false
      → Halves R b temp (suc n) low (midpoint R low high)

-- The speed is that of a point of the curve, whose temperature is close to the one that was asked for,
-- or which is an end of the interval that the given number of halvings leaves.
abbrev pub IsFound : (R : Floats) → Bezier R → R.F → ℕ → R.F → Type 0
IsFound R b temp rounds speed =
    (t : R.F) × (speed ≡ (compute_bezier_at_t R b t).y)
    × ((is_close R b temp t ≡ true)
        ⊎ ((low : R.F) × (high : R.F) × Halves R b temp rounds low high × ((t ≡ low) ⊎ (t ≡ high))))

module _ (R : Floats) (b : Bezier R) (temp : R.F) where
  bisect-IsFound :
      (left done total : ℕ) (low high mid : R.F)
      → done + left ≡ total
      → Halves R b temp done low high
      → (mid ≡ low) ⊎ (mid ≡ high)
      → IsFound R b temp total (bisect R b temp left low high mid)
  unfolding bisect
  bisect-IsFound zero done total low high mid e halves at_end =
      let same : done ≡ total = omega arith in
      (mid, refl, inr (low, high, subst (λ n. Halves R b temp n low high) same halves, at_end))
  bisect-IsFound (suc left) done total low high mid e halves at_end =
      let next = midpoint R low high in
      elim (Bool-cases (is_close R b temp next)) [
        | inl close ↦ (next, rw close, inl close)
        | inr far ↦ elim (Bool-cases (is_left R b temp next)) [
          | inl below ↦
              rw (far, below)
                (bisect-IsFound left (suc done) total next high next (omega arith)
                  (right_half halves below) (inl refl))
          | inr above ↦
              rw (far, above)
                (bisect-IsFound left (suc done) total low next next (omega arith)
                  (left_half halves above) (inr refl))
        ]
      ]

  -- The search on a Bezier curve ends after at most 100 halvings, with the speed of a point of the
  -- curve: one within 0.01 of the temperature, or an end of the interval that 100 halvings leave.
  pub get_speed_for_temp-IsFound : IsFound R b temp 100 (get_speed_for_temp R b temp)
  unfolding get_speed_for_temp
  get_speed_for_temp-IsFound =
      bisect-IsFound max_iterations 0 100 (R.of_nat 0) (R.of_nat 1) (R.of_nat 0) (omega arith)
        (whole refl refl) (inl refl)

module _ (R : Floats) (laws : IeeeLaws R) where
  abbrev pub IsNumber : Point R.F → Type 0
  IsNumber p = R.is_nan p.x ≡ false

  -- A list of so many points, none with a NaN for its temperature.
  abbrev Sorts : Result (List (Point R.F)) → ℕ → Type 0
  Sorts r n =
      (points : List (Point R.F)) × (r ≡ ok points) × All IsNumber points × (length points ≡ n)

  insert_compared-Sorts :
      (o : Option Ordering) (p q : Point R.F) (points : List (Point R.F))
      (further : Result (List (Point R.F)))
      → o ≢ none
      → IsNumber p
      → IsNumber q
      → All IsNumber points
      → Sorts further (suc (length points))
      → Sorts (insert_compared R o p q points further) (suc (suc (length points)))
  insert_compared-Sorts none p q points further some_order h k hs more = absurd (some_order refl)
  insert_compared-Sorts (some Ordering.lt) p q points further some_order h k hs more =
      (p ∷ q ∷ points, refl, (h, (k, hs)), refl)
  insert_compared-Sorts (some Ordering.eq) p q points further some_order h k hs more =
      (p ∷ q ∷ points, refl, (h, (k, hs)), refl)
  insert_compared-Sorts (some Ordering.gt) p q points further some_order h k hs
        (rest, made, good, size) =
      (q ∷ rest, ap (λ r. r >>= λ rest'. ok (q ∷ rest')) made, (k, good), ap suc size)

  insert_point-Sorts :
      (p : Point R.F) (points : List (Point R.F))
      → IsNumber p
      → All IsNumber points
      → Sorts (insert_point R p points) (suc (length points))
  unfolding insert_point
  insert_point-Sorts p [] h hs = (p ∷ [], refl, (h, tt), refl)
  insert_point-Sorts p (q ∷ points) h (k, hs) =
      insert_compared-Sorts (R.partial_cmp p.x q.x) p q points (insert_point R p points)
        (laws.partial_cmp_some p.x q.x h k) h k hs (insert_point-Sorts p points h hs)

  sort_points-Sorts :
      (points : List (Point R.F))
      → All IsNumber points
      → Sorts (sort_points R points) (length points)
  unfolding sort_points
  sort_points-Sorts [] hs = ([], refl, tt, refl)
  sort_points-Sorts (p ∷ points) (h, hs) =
      let (sorted, made, good, size) = sort_points-Sorts points hs in
      let (more, put, fine, grown) = insert_point-Sorts p sorted h good in
      (more, ap (λ r. r >>= insert_point R p) made ∙ put, fine, grown ∙ ap suc size)

  ends_of-four :
      (points : List (Point R.F))
      → length points ≡ 4
      → (ends : Point R.F × Point R.F) × (ends_of R points ≡ ok ends)
  ends_of-four (a ∷ b ∷ c ∷ d ∷ rest) h = ((a, d), refl)
  ends_of-four (a ∷ b ∷ c ∷ []) h = absurd (omega arith)
  ends_of-four (a ∷ b ∷ []) h = absurd (omega arith)
  ends_of-four (a ∷ []) h = absurd (omega arith)
  ends_of-four [] h = absurd (omega arith)

  speed_between-le :
      (b : Bezier R) (temp : R.F) (ends : Point R.F × Point R.F) → speed_between R b temp ends ≤ 100
  speed_between-le b temp (first, last) = elim (Bool-cases (R.le temp first.x)) [
    | inl e ↦ rw e (laws.to_u8-clamp first.y)
    | inr e ↦ elim (Bool-cases (R.le last.x temp)) [
      | inl g ↦ rw (e, g) (laws.to_u8-clamp last.y)
      | inr g ↦ rw (e, g) (laws.to_u8-clamp (get_speed_for_temp R b temp))
    ]
  ]

  -- A Bezier curve none of whose control points has a NaN for its temperature gives a speed at every
  -- temperature, a NaN included, and never one above 100.
  pub bezier_speed_total :
      (b : Bezier R) (temp : R.F)
      → IsNumber b.p0 × IsNumber b.p1 × IsNumber b.p2 × IsNumber b.p3
      → (speed : ℕ) × (bezier_speed R b temp ≡ ok speed) × (speed ≤ 100)
  unfolding bezier_speed
  bezier_speed_total b temp (h0, h1, h2, h3) =
      let (sorted, made, good, size) =
        sort_points-Sorts (b.p0 ∷ b.p1 ∷ b.p2 ∷ b.p3 ∷ []) (h0, (h1, (h2, (h3, tt)))) in
      let (ends, found) = ends_of-four sorted size in
      (
        speed_between R b temp ends,
        ap (λ r. r >>= λ s. ends_of R s >>= λ e. ok (speed_between R b temp e)) made
            ∙ ap (λ r. r >>= λ e. ok (speed_between R b temp e)) found,
        speed_between-le b temp ends,
      )
