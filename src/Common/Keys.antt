-- ===== src/Common/Keys.antt =====
-- Keys that the program compares: numbers and texts, and what derives `PartialEq` from them.
use Prim.Native.Nat.{ℕ}
use Prim.Native.String.{String}
use mathlib.Core.Path.{◌≡◌, refl}
use mathlib.Core.Logic.{◌↔◌}
use mathlib.Core.Bool.{Bool, true, false, ◌&&◌}
use mathlib.Core.List.{List, [], ◌∷◌}
use mathlib.Core.Option.{Option, none, some}
use native.Mathlib.Omega.{arith}
use text.Mathlib.Text.{◌==◌ as same_text}
use text.Mathlib.TextEquality.{eq_iff as same_text_iff}
use tt_riingd.Common.Bools.{eqb, eqb_iff}

pub record Eq {ℓ} (K : Type ℓ) : Type ℓ where
  pub beq : K → K → Bool
  pub beq_iff : (j k : K) → (beq j k ≡ true) ↔ (j ≡ k)

instance abbrev pub string_eq : Eq String
string_eq = record { beq = same_text; beq_iff = same_text_iff }

instance abbrev pub nat_eq : Eq ℕ
nat_eq = record { beq = eqb; beq_iff = eqb_iff }

-- `==` on keys.
infix 50 ◌==◌
abbrev pub ◌==◌ {ℓ} : {K : Type ℓ} ⦃keys : Eq K⦄ → (j k : K) → Bool
◌==◌ ⦃keys⦄ j k = keys.beq j k

module _ {ℓ} {A : Type ℓ} ⦃e : Eq A⦄ where
  abbrev pub option_beq : Option A → Option A → Bool
  option_beq none none = true
  option_beq (some a) (some b) = a == b
  option_beq _ _ = false

  pub option_beq_iff : (a b : Option A) → (option_beq a b ≡ true) ↔ (a ≡ b)
  option_beq_iff none none = ground arith
  option_beq_iff none (some b) = ground arith
  option_beq_iff (some a) none = ground arith
  option_beq_iff (some a) (some b) = ground (arith, e.beq_iff a b)

  instance abbrev pub option_eq : Eq (Option A)
  option_eq = record { beq = option_beq; beq_iff = option_beq_iff }

  pub ==_refl : (a : A) → (a == a) ≡ true
  ==_refl a = (e.beq_iff a a).1 refl

module _ {ℓ} {A : Type ℓ} ⦃e : Eq A⦄ where
  abbrev pub list_beq : List A → List A → Bool
  list_beq [] [] = true
  list_beq (a ∷ as') (b ∷ bs) = a == b && list_beq as' bs
  list_beq _ _ = false

  pub list_beq_iff : (xs ys : List A) → (list_beq xs ys ≡ true) ↔ (xs ≡ ys)
  list_beq_iff [] [] = ground arith
  list_beq_iff [] (b ∷ bs) = ground arith
  list_beq_iff (a ∷ as') [] = ground arith
  list_beq_iff (a ∷ as') (b ∷ bs) = ground (arith, e.beq_iff a b, list_beq_iff as' bs)

  instance abbrev pub list_eq : Eq (List A)
  list_eq = record { beq = list_beq; beq_iff = list_beq_iff }
