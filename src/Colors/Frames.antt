-- ===== src/Colors/Frames.antt =====
-- What a frame of colours shows, fan by fan.
use tt_riingd.Common.{
  ℕ, List, [], ◌∷◌, String, Option, none, some, lookup, insert, lookup-insert, ◌==◌, nat_eq,
  string_eq, ◌≡◌, refl, sym, ap, ◌∙◌, Bool-cases, inl, inr,
}
use tt_riingd.Protocol.{Rgb}
use tt_riingd.Floats.{Floats}
use tt_riingd.Mapping.{FanRef, fan_eq, contains}
use tt_riingd.Effects.{EffectStore, next_rgb}
use tt_riingd.Monitoring.Tick.{or_default}
use tt_riingd.Colors.{
  Buffer, DoubleBuffer, get_write_buffer, get_read_buffer, has_channel, paint_fan, paint_fans,
  paint_next, paint_effects, calculate_fan_colors,
}
use tt_riingd.Colors.Leds.{
  find_leds, leds_at, painted, new_list, find-new_list, painted-twice, color_if, color_if-or,
  last_color, if_painted, last_color-append, read_swapped, yielded, yields,
}

module _ {S : Type 0} (leds : String → S → Option ℕ × S) where
  paint_fan-new_list :
      (rgb : Rgb) (fan : FanRef) (b : Buffer) (s : S)
      → (paint_fan leds rgb fan (b, s)).0
        ≡ insert fan.controller_id
            (new_list rgb fan
              (leds fan.controller_id s).0
              (or_default (lookup fan.controller_id b)))
            b
  unfolding paint_fan
  paint_fan-new_list rgb fan b s =
      elim (Bool-cases (has_channel fan.channel (or_default (lookup fan.controller_id b)))) [
        | inl e ↦ rw e refl
        | inr e ↦ rw e refl
      ]

  -- The controllers stay in states in which that of the fan answers that it has n LEDs.
  module _ (g : FanRef) (n : ℕ) (Answers : S → Type 0)
      (known : (s : S) → Answers s → (leds g.controller_id s).0 ≡ some n)
      (kept : (id : String) (s : S) → Answers s → Answers (leds id s).1) where
    paint_fan-Answers :
        (rgb : Rgb) (fan : FanRef) (p : Buffer × S)
        → Answers p.1
        → Answers (paint_fan leds rgb fan p).1
    unfolding paint_fan
    paint_fan-Answers rgb fan (b, s) h =
        elim (Bool-cases (has_channel fan.channel (or_default (lookup fan.controller_id b)))) [
          | inl e ↦ rw e h
          | inr e ↦ rw e (kept fan.controller_id s h)
        ]

    paint_fans-Answers :
        (rgb : Rgb) (fans : List FanRef) (p : Buffer × S)
        → Answers p.1
        → Answers (paint_fans leds rgb fans p).1
    unfolding paint_fans
    paint_fans-Answers rgb [] p h = h
    paint_fans-Answers rgb (fan ∷ fans) p h =
        paint_fans-Answers rgb fans (paint_fan leds rgb fan p) (paint_fan-Answers rgb fan p h)

    paint_next-Answers :
        (c : Option Rgb) (fans : List FanRef) (p : Buffer × S)
        → Answers p.1
        → Answers (paint_next leds c fans p).1
    paint_next-Answers none fans p h = h
    paint_next-Answers (some rgb) fans p h = paint_fans-Answers rgb fans p h

    leds_at-paint_fan :
        (rgb : Rgb) (fan : FanRef) (p : Buffer × S)
        → Answers p.1
        → leds_at g (paint_fan leds rgb fan p).0
          ≡ painted n (color_if (fan == g) rgb) (leds_at g p.0)
    leds_at-paint_fan rgb fan (b, s) h =
        let buf = or_default (lookup fan.controller_id b) in
        let list = new_list rgb fan (leds fan.controller_id s).0 buf in
        ap (leds_at g) (paint_fan-new_list rgb fan b s)
        ∙ ap (λ o. find_leds g.channel (or_default o))
            (lookup-insert fan.controller_id g.controller_id list b)
        ∙ elim (Bool-cases (fan.controller_id == g.controller_id)) [
          | inl e ↦
              let same = (string_eq.beq_iff fan.controller_id g.controller_id).0 e in
              rw (e, same, known s h)
                (find-new_list g.channel n rgb (record fan { controller_id = g.controller_id })
                    (or_default (lookup g.controller_id b))
                  ∙ if_painted (fan.channel == g.channel) n rgb (leds_at g b))
          | inr e ↦ rw e refl
        ]

    leds_at-paint_fans :
        (rgb : Rgb) (fans : List FanRef) (p : Buffer × S)
        → Answers p.1
        → leds_at g (paint_fans leds rgb fans p).0
          ≡ painted n (color_if (contains g fans) rgb) (leds_at g p.0)
    unfolding paint_fans
    leds_at-paint_fans rgb [] p h = refl
    leds_at-paint_fans rgb (fan ∷ fans) p h =
        leds_at-paint_fans rgb fans (paint_fan leds rgb fan p) (paint_fan-Answers rgb fan p h)
        ∙ ap (painted n (color_if (contains g fans) rgb)) (leds_at-paint_fan rgb fan p h)
        ∙ painted-twice n (color_if (contains g fans) rgb) (color_if (fan == g) rgb) (leds_at g p.0)
        ∙ ap (λ c. painted n c (leds_at g p.0)) (color_if-or (fan == g) (contains g fans) rgb)

    leds_at-paint_next :
        (c : Option Rgb) (fans : List FanRef) (p : Buffer × S)
        → Answers p.1
        → leds_at g (paint_next leds c fans p).0
          ≡ painted n (last_color g (yielded c fans)) (leds_at g p.0)
    leds_at-paint_next none fans p h = refl
    leds_at-paint_next (some rgb) fans p h = leds_at-paint_fans rgb fans p h

    leds_at-paint_effects :
        (R : Floats) (now : ℕ) (store : EffectStore R) (p : Buffer × S)
        → Answers p.1
        → leds_at g (paint_effects leds R now store p).1
          ≡ painted n (last_color g (yields R now store)) (leds_at g p.0)
    unfolding paint_effects
    leds_at-paint_effects R now [] p h = refl
    leds_at-paint_effects R now ((id, e) ∷ store) p h =
        let c = (next_rgb R now e.runner).0 in
        let p' = paint_next leds c e.targets p in
        leds_at-paint_effects R now store p' (paint_next-Answers c e.targets p h)
        ∙ ap (painted n (last_color g (yields R now store))) (leds_at-paint_next c e.targets p h)
        ∙ painted-twice n (last_color g (yields R now store)) (last_color g (yielded c e.targets))
            (leds_at g p.0)
        ∙ ap (λ k. painted n k (leds_at g p.0))
            (sym (last_color-append g (yielded c e.targets) (yields R now store)))

    pub frame_lem :
        (R : Floats) (now : ℕ) (runners : EffectStore R) (buffer : DoubleBuffer) (s : S)
        → Answers s
        → leds_at g (get_read_buffer (calculate_fan_colors leds R now runners buffer s).1)
          ≡ painted n (last_color g (yields R now runners)) (leds_at g (get_write_buffer buffer))
    unfolding calculate_fan_colors
    frame_lem R now runners buffer s h =
        ap (leds_at g) (
          read_swapped (paint_effects leds R now runners (get_write_buffer buffer, s)).1
            buffer.first buffer.second buffer.write_second)
        ∙ leds_at-paint_effects R now runners (get_write_buffer buffer, s) h
