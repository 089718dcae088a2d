-- ===== src/Colors/Leds.antt =====
-- The LEDs of a fan in a buffer, and the colours that they are painted in.
use tt_riingd.Common.{
  or_else, or_else-none, or_else_assoc, ℕ, zero, suc, is_some, List, [], ◌∷◌, ◌++◌, map, Option,
  none, some, Bool, true, false, ◌||◌, lookup, length, replicate, if◌then◌else◌, ◌==◌, nat_eq,
  string_eq, ◌≡◌, refl, sym, ap, ◌∙◌, arith, Bool-cases, inl, inr,
}
use tt_riingd.Protocol.{Rgb}
use tt_riingd.Floats.{Floats}
use tt_riingd.Mapping.{FanRef, fan_eq, contains}
use tt_riingd.Effects.{EffectStore, next_rgb}
use tt_riingd.Monitoring.Tick.{or_default}
use tt_riingd.Colors.{
  ControllerColorBuffer, Buffer, get_read_buffer, write_buffer, swap_buffers, has_channel,
  set_channel, black, add_leds,
}

-- The LEDs of a channel, of its first entry.
abbrev pub find_leds : ℕ → ControllerColorBuffer → Option (List Rgb)
find_leds channel [] = none
find_leds channel ((c, leds) ∷ buf) = if c == channel then some leds else find_leds channel buf

abbrev pub leds_at : FanRef → Buffer → Option (List Rgb)
leds_at fan b = find_leds fan.channel (or_default (lookup fan.controller_id b))

-- How many LEDs the fan has: those of its entry, or as many as its controller says.
abbrev pub size_of : ℕ → Option (List Rgb) → ℕ
size_of n none = n
size_of n (some leds) = length leds

-- The fan in one colour; without one it stays as it is.
abbrev pub painted : ℕ → Option Rgb → Option (List Rgb) → Option (List Rgb)
painted n none old = old
painted n (some rgb) old = some (replicate (size_of n old) rgb)

map-replicate : (rgb : Rgb) (leds : List Rgb) → map (λ led. rgb) leds ≡ replicate (length leds) rgb
map-replicate rgb [] = refl
map-replicate rgb (led ∷ leds) = ap (λ l. rgb ∷ l) (map-replicate rgb leds)

length-replicate : (n : ℕ) (rgb : Rgb) → length (replicate n rgb) ≡ n
length-replicate zero rgb = refl
length-replicate (suc n) rgb = ap suc (length-replicate n rgb)

-- All LEDs in one colour.
abbrev recolored : Rgb → Option (List Rgb) → Option (List Rgb)
recolored rgb none = none
recolored rgb (some leds) = some (map (λ led. rgb) leds)

has-find :
    (channel : ℕ) (buf : ControllerColorBuffer)
    → has_channel channel buf ≡ is_some (find_leds channel buf)
has-find channel [] = refl
has-find channel ((c, leds) ∷ buf) = ground (arith, has-find channel buf)

find-set :
    (channel other : ℕ) (rgb : Rgb) (buf : ControllerColorBuffer)
    → find_leds channel (set_channel other rgb buf)
      ≡ (if other == channel then recolored rgb (find_leds channel buf) else find_leds channel buf)
unfolding set_channel
find-set channel other rgb [] = ground arith
find-set channel other rgb ((c, leds) ∷ buf) = ground (arith, find-set channel other rgb buf)

find-append :
    (channel other : ℕ) (leds : List Rgb) (buf : ControllerColorBuffer)
    → find_leds channel (buf ++ (other, leds) ∷ [])
      ≡ or_else (find_leds channel buf) (if other == channel then some leds else none)
find-append channel other leds [] = refl
find-append channel other leds ((c, old) ∷ buf) = ground (arith, find-append channel other leds buf)

recolored-painted :
    (n : ℕ) (rgb : Rgb) (o : Option (List Rgb))
    → is_some o ≡ true
    → recolored rgb o ≡ painted n (some rgb) o
recolored-painted n rgb none h = cc
recolored-painted n rgb (some leds) h = ap some (map-replicate rgb leds)

-- The list of a controller behind `paint_fan`.
abbrev pub new_list : Rgb → FanRef → Option ℕ → ControllerColorBuffer → ControllerColorBuffer
new_list rgb fan led buf =
    if has_channel fan.channel buf
    then set_channel fan.channel rgb buf
    else add_leds led fan rgb buf

fresh-painted :
    (n : ℕ) (rgb : Rgb) (o : Option (List Rgb))
    → is_some o ≡ false
    → recolored rgb (or_else o (some (replicate n black))) ≡ painted n (some rgb) o
fresh-painted n rgb none h =
    ap some
      (map-replicate rgb (replicate n black) ∙ ap (λ k. replicate k rgb) (length-replicate n black))
fresh-painted n rgb (some leds) h = cc

pub find-new_list :
    (channel n : ℕ) (rgb : Rgb) (fan : FanRef) (buf : ControllerColorBuffer)
    → find_leds channel (new_list rgb fan (some n) buf) ≡ (
        if fan.channel == channel
        then painted n (some rgb) (find_leds channel buf)
        else find_leds channel buf)
find-new_list channel n rgb fan buf =
    let fresh = replicate n black in
    let more = buf ++ (fan.channel, fresh) ∷ [] in
    let old = find_leds channel buf in
    elim (Bool-cases (has_channel fan.channel buf)) [
      | inl e ↦ rw e (
          ground (
            arith,
            find-set channel fan.channel rgb buf,
            has-find fan.channel buf,
            recolored-painted n rgb old,
          ))
      | inr e ↦ rw e (
          ground (
            arith,
            find-set channel fan.channel rgb more,
            has-find fan.channel buf,
            find-append channel fan.channel fresh buf,
            fresh-painted n rgb old,
          ))
    ]

size-painted :
    (n : ℕ) (c : Option Rgb) (old : Option (List Rgb)) → size_of n (painted n c old) ≡ size_of n old
size-painted n none old = refl
size-painted n (some rgb) old = length-replicate (size_of n old) rgb

-- The later colour hides the earlier one.
pub painted-twice :
    (n : ℕ) (later earlier : Option Rgb) (old : Option (List Rgb))
    → painted n later (painted n earlier old) ≡ painted n (or_else later earlier) old
painted-twice n none earlier old = refl
painted-twice n (some rgb) earlier old =
    ap (λ k. some (replicate k rgb)) (size-painted n earlier old)

abbrev pub color_if : Bool → Rgb → Option Rgb
color_if hit rgb = if hit then some rgb else none

pub color_if-or :
    (hit more : Bool) (rgb : Rgb)
    → or_else (color_if more rgb) (color_if hit rgb) ≡ color_if (hit || more) rgb
color_if-or true true rgb = refl
color_if-or true false rgb = refl
color_if-or false true rgb = refl
color_if-or false false rgb = refl

-- The colour of the last effect with the fan among its targets.
abbrev pub last_color : FanRef → List (Rgb × List FanRef) → Option Rgb
last_color g [] = none
last_color g ((rgb, fans) ∷ effects) =
    or_else (last_color g effects) (color_if (contains g fans) rgb)

pub if_painted :
    (b : Bool) (n : ℕ) (rgb : Rgb) (o : Option (List Rgb))
    → (if b then painted n (some rgb) o else o) ≡ painted n (color_if b rgb) o
if_painted true n rgb o = refl
if_painted false n rgb o = refl

pub last_color-append :
    (g : FanRef) (xs ys : List (Rgb × List FanRef))
    → last_color g (xs ++ ys) ≡ or_else (last_color g ys) (last_color g xs)
last_color-append g [] ys = sym (or_else-none (last_color g ys))
last_color-append g ((rgb, fans) ∷ xs) ys =
    ap (λ c. or_else c (color_if (contains g fans) rgb)) (last_color-append g xs ys)
    ∙ or_else_assoc (last_color g ys) (last_color g xs) (color_if (contains g fans) rgb)

pub read_swapped :
    (buf first second : Buffer) (w : Bool)
    → get_read_buffer (
        swap_buffers
          (write_buffer buf (record { first = first; second = second; write_second = w })))
      ≡ buf
read_swapped buf first second true = refl
read_swapped buf first second false = refl

-- What the effects of a store yield at an instant.
abbrev pub yielded : Option Rgb → List FanRef → List (Rgb × List FanRef)
yielded none fans = []
yielded (some rgb) fans = (rgb, fans) ∷ []

abbrev pub yields : (R : Floats) → ℕ → EffectStore R → List (Rgb × List FanRef)
yields R now [] = []
yields R now ((id, e) ∷ store) = yielded (next_rgb R now e.runner).0 e.targets ++ yields R now store
