-- ===== src/Udev/Ids.antt =====
-- Reading the hexadecimal ids of the kernel.
use tt_riingd.Common.{
  ℕ, ◌+◌, ◌*◌, ◌/◌, ◌%◌, ◌<◌, List, [], ◌∷◌, Option, some, false, if◌then◌else◌, ltb, eqb, ◌≡◌,
  refl, ap, ◌∙◌, arith,
}
use tt_riingd.Udev.{
  trim_start, hex_value, push_digit, from_digits, from_str_radix, from_signed, parse_id,
}

-- A digit in lower case, and the four digits of an id.
abbrev pub hex_digit : ℕ → ℕ
hex_digit d = if ltb d 10 then d + 48 else d + 87

abbrev pub hex_id : ℕ → List ℕ
hex_id n =
    hex_digit (n / 4096)
    ∷ hex_digit (n / 256 % 16)
    ∷ hex_digit (n / 16 % 16)
    ∷ hex_digit (n % 16)
    ∷ []

value-hex_digit : (d : ℕ) → d < 16 → hex_value (hex_digit d) ≡ some d
unfolding hex_value
value-hex_digit d h = ground arith

trim-digits : (x a b : ℕ) (s : List ℕ) → eqb b x ≡ false → trim_start x (a ∷ b ∷ s) ≡ a ∷ b ∷ s
unfolding trim_start
trim-digits x a b s h = rw h (ground arith)

push-fits :
    (acc d : ℕ) → acc * 16 + d < 65536 → push_digit (some acc) (some d) ≡ some (acc * 16 + d)
push-fits acc d h = ground arith

from_digits-hex :
    (acc d : ℕ) (s : List ℕ)
    → d < 16
    → acc * 16 + d < 65536
    → from_digits (some acc) (hex_digit d ∷ s) ≡ from_digits (some (acc * 16 + d)) s
unfolding from_digits
from_digits-hex acc d s small fits =
    ap (λ o. from_digits (push_digit (some acc) o) s) (value-hex_digit d small)
    ∙ ap (λ o. from_digits o s) (push-fits acc d fits)

not_letter : (d : ℕ) → d < 16 → (eqb (hex_digit d) 120 ≡ false) × (eqb (hex_digit d) 88 ≡ false)
not_letter d h = (ground arith, ground arith)

no_sign :
    (c : ℕ) (s : List ℕ) → eqb c 43 ≡ false → from_str_radix (c ∷ s) ≡ from_digits (some 0) (c ∷ s)
unfolding from_str_radix
no_sign c s h = ap (λ b. from_signed b c s) h

from_end : (acc : Option ℕ) → from_digits acc [] ≡ acc
unfolding from_digits
from_end acc = refl

four_digits :
    (a b c d : ℕ)
    → a < 16
    → b < 16
    → c < 16
    → d < 16
    → from_str_radix (hex_digit a ∷ hex_digit b ∷ hex_digit c ∷ hex_digit d ∷ [])
      ≡ some (((a * 16 + b) * 16 + c) * 16 + d)
four_digits a b c d ha hb hc hd =
    no_sign (hex_digit a) (hex_digit b ∷ hex_digit c ∷ hex_digit d ∷ []) (ground arith)
    ∙ from_digits-hex 0 a (hex_digit b ∷ hex_digit c ∷ hex_digit d ∷ []) ha (omega arith)
    ∙ ap (λ n. from_digits (some n) (hex_digit b ∷ hex_digit c ∷ hex_digit d ∷ [])) (omega arith)
    ∙ from_digits-hex a b (hex_digit c ∷ hex_digit d ∷ []) hb (omega arith)
    ∙ from_digits-hex (a * 16 + b) c (hex_digit d ∷ []) hc (omega arith)
    ∙ from_digits-hex ((a * 16 + b) * 16 + c) d [] hd (omega arith)
    ∙ from_end _

parse-hex_id : (n : ℕ) → n < 65536 → from_str_radix (hex_id n) ≡ some n
parse-hex_id n h =
    four_digits (n / 4096) (n / 256 % 16) (n / 16 % 16) (n % 16) (omega arith) (omega arith)
      (omega arith) (omega arith)
    ∙ ap some (omega arith)

trim_prefix : (s : List ℕ) → trim_start 120 (48 ∷ 120 ∷ s) ≡ trim_start 120 s
unfolding trim_start
trim_prefix s = refl

trim-hex_id : (n : ℕ) → trim_start 88 (trim_start 120 (hex_id n)) ≡ hex_id n
trim-hex_id n =
    let letter = not_letter (n / 256 % 16) (omega arith) in
    let rest = hex_digit (n / 16 % 16) ∷ hex_digit (n % 16) ∷ [] in
    ap (trim_start 88)
      (trim-digits 120 (hex_digit (n / 4096)) (hex_digit (n / 256 % 16)) rest letter.0)
    ∙ trim-digits 88 (hex_digit (n / 4096)) (hex_digit (n / 256 % 16)) rest letter.1

-- `parse_id` reads back every 16-bit id that is written with four hexadecimal digits in lower case,
-- with the prefix 0x and without it.
pub parse_id-hex_id :
    (n : ℕ)
    → n < 65536
    → (parse_id (hex_id n) ≡ some n) × (parse_id (b'0' ∷ b'x' ∷ hex_id n) ≡ some n)
unfolding parse_id
parse_id-hex_id n h =
    let read = ap from_str_radix (trim-hex_id n) ∙ parse-hex_id n h in
    (read, ap (λ s. from_str_radix (trim_start 88 s)) (trim_prefix (hex_id n)) ∙ read)
