-- ===== src/Common/Dicts.antt =====
-- Maps as association lists (`HashMap`, `DashMap`): an insertion replaces the value of its key.
use Prim.Native.Nat.{suc}
use mathlib.Core.Path.{◌≡◌, refl}
use mathlib.Core.Bool.{false}
use mathlib.Core.Option.{Option, none, some}
use mathlib.Core.List.{List, [], ◌∷◌}
use native.Mathlib.Omega.{arith}
use tt_riingd.Common.Bools.{if◌then◌else◌, is_some}
use tt_riingd.Common.Lists.{length}
use tt_riingd.Common.Keys.{Eq, ◌==◌}

abbrev pub Dict {ℓ κ} : Type ℓ → Type κ → Type (ℓ ⊔ κ)
Dict K V = List (K × V)

module _ {ℓ κ} {K : Type ℓ} {V : Type κ} ⦃e : Eq K⦄ where
  unfoldable pub lookup : K → Dict K V → Option V
  lookup key [] = none
  lookup key ((first, value) ∷ rest) = if first == key then some value else lookup key rest

  unfoldable pub insert : K → V → Dict K V → Dict K V
  insert key value [] = (key, value) ∷ []
  insert key value ((first, old) ∷ rest) =
      if first == key then (key, value) ∷ rest else (first, old) ∷ insert key value rest

  -- An insertion is seen at its own key and nowhere else.
  pub lookup-insert :
      (new key : K) (value : V) (old : Dict K V)
      → lookup key (insert new value old) ≡ (if new == key then some value else lookup key old)
  unfolding lookup insert
  lookup-insert new key value [] = refl
  lookup-insert new key value ((first, w) ∷ rest) =
      let above = lookup-insert new key value rest in
      ground (arith, e.beq_iff new key, e.beq_iff first new, e.beq_iff first key, above)

  -- No key stands twice.
  abbrev pub IsMap : Dict K V → Type 0
  IsMap [] = Unit
  IsMap ((key, value) ∷ rest) = (is_some (lookup key rest) ≡ false) × IsMap rest

  pub insert-IsMap : (k : K) (v : V) (m : Dict K V) → IsMap m → IsMap (insert k v m)
  unfolding lookup insert
  insert-IsMap k v [] h = (refl, tt)
  insert-IsMap k v ((first, w) ∷ rest) (h, hs) = ground (
    arith,
    insert-IsMap k v rest hs,
    lookup-insert k first v rest,
    e.beq_iff first k,
    e.beq_iff k first,
  )

  -- An insertion makes the map longer just when its key is new.
  pub length-insert :
      (k : K) (v : V) (m : Dict K V)
      → length (insert k v m) ≡ (if is_some (lookup k m) then length m else suc (length m))
  unfolding lookup insert
  length-insert k v [] = refl
  length-insert k v ((i, w) ∷ m) = ground (arith, length-insert k v m)
