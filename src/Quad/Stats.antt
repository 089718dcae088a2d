-- ===== src/Quad/Stats.antt =====
-- The cached reports of the fans.
use tt_riingd.Common.{
  ℕ, zero, suc, ◌-◌, ◌≤◌, ◌<◌, ◌≡◌, refl, Bool, ◌&&◌, inl, inr, List, [], ◌∷◌, none, some, ok,
  panic, if◌then◌else◌, ltb, leb, length, length-set, get_elem?, set, all, Bool-cases, arith,
}
use tt_riingd.Quad.{Fan, update_stats, update_all_stats}

-- The channels are numbered from 1.
abbrev pub in_range : ℕ → ℕ × ℕ → Bool
in_range n (idx, _) = ltb 0 idx && leb idx n

abbrev pub in_range3 : ℕ → ℕ × ℕ × ℕ → Bool
in_range3 n (idx, _, _) = ltb 0 idx && leb idx n

-- The fans with the last report for each channel, up to the first channel that is not theirs.
abbrev pub stored : List Fan → List (ℕ × ℕ × ℕ) → List Fan
stored fans [] = fans
stored fans ((idx, speed, rpm) ∷ rest) =
    let more =
      stored (set fans (idx - 1) (record { current_speed = speed; current_rpm = rpm })) rest in
    if in_range3 (length fans) (idx, speed, rpm) then more else fans

get_elem?-in_range :
    {A : Type 0} (xs : List A) (i : ℕ) → i < length xs → (a : A) × (get_elem? xs i ≡ some a)
get_elem?-in_range [] i h = absurd (omega arith)
get_elem?-in_range (x ∷ xs) zero h = (x, refl)
get_elem?-in_range (x ∷ xs) (suc i) h = get_elem?-in_range xs i (omega arith)

get_elem?-past : {A : Type 0} (xs : List A) (i : ℕ) → length xs ≤ i → get_elem? xs i ≡ none
get_elem?-past [] i h = refl
get_elem?-past (x ∷ xs) zero h = absurd (omega arith)
get_elem?-past (x ∷ xs) (suc i) h = get_elem?-past xs i (omega arith)

-- One report is stored just when its channel is one of the fans'.
update_stats-eq :
    (fans : List Fan) (idx speed rpm : ℕ)
    → update_stats fans (idx, speed, rpm) ≡ (
        if in_range3 (length fans) (idx, speed, rpm)
        then ok (set fans (idx - 1) (record { current_speed = speed; current_rpm = rpm }))
        else panic)
unfolding update_stats
update_stats-eq fans zero speed rpm = refl
update_stats-eq fans (suc i) speed rpm = elim (Bool-cases (leb (suc i) (length fans))) [
  | inl e ↦ ground (arith, get_elem?-in_range fans i)
  | inr e ↦ ground (arith, get_elem?-past fans i)
]

pub update_all_stats-eq :
    (fans : List Fan) (seen : List (ℕ × ℕ × ℕ))
    → update_all_stats fans seen
      ≡ (if all (in_range3 (length fans)) seen then ok tt else panic, stored fans seen)
unfolding update_all_stats
update_all_stats-eq fans [] = refl
update_all_stats-eq fans ((idx, speed, rpm) ∷ rest) =
    let fan : Fan = record { current_speed = speed; current_rpm = rpm } in
    ground (
      arith,
      update_stats-eq fans idx speed rpm,
      length-set fans (idx - 1) fan,
      update_all_stats-eq (set fans (idx - 1) fan) rest,
    )
