-- ===== src/Quad/Batch.antt =====
-- `update_speed_batch` and `update_color_batch` on a device that obeys and acknowledges.
use tt_riingd.Common.{
  ℕ, ◌%◌, ◌≡◌, refl, ap, ◌∙◌, Bool, ◌&&◌, inl, inr, List, [], ◌∷◌, ok, err, panic, encode_failed,
  if◌then◌else◌, leb, leb_iff, length, all, Bool-cases, arith,
}
use tt_riingd.Protocol.{Command, get_data, set_speed, set_rgb, Rgb, to_bytes}
use tt_riingd.Protocol.Encoding.{encode-eq-to_bytes, encode_set_rgb_iff, encode_set_rgb_long}
use tt_riingd.Protocol.Replies.{Reply, state_reply, version_reply, data_reply, response_of, Answers}
use tt_riingd.Hid.{HidDevice, lift, ◌>>=◌, >>=-of_ok, >>=-of_err}
use tt_riingd.Quad.{
  Controller, request, ctrl_set_speed, ctrl_get_data, ctrl_set_rgb, process_fan_inner,
  process_fan_inner_color, process_speeds, process_colors, update_speed_batch, update_color_batch,
  expect_status, expect_data,
}
use tt_riingd.Quad.Stats.{in_range, in_range3, stored, update_all_stats-eq}
use tt_riingd.Quad.Compliant.{Compliant, request-obey, request_unencodable}

pub record Acknowledges {D : HidDevice} (c : Compliant D) : Type 0 where
  pub speed_ack :
      (port speed : ℕ) (s : D.State) → c.answer (set_speed port speed) s ≡ state_reply 0xFC
  pub rgb_ack :
      (port mode : ℕ) (colors : List Rgb) (s : D.State)
      → c.answer (set_rgb port mode colors) s ≡ state_reply 0xFC

-- The packets of a speed batch, in their order.
abbrev pub speed_commands : List (ℕ × ℕ) → List Command
speed_commands [] = []
speed_commands ((idx, speed) ∷ batch) =
    set_speed (idx % 256) speed ∷ get_data (idx % 256) ∷ speed_commands batch

abbrev pub fits : ℕ × List Rgb → Bool
fits (idx, colors) = leb (length colors) 62

-- The packets of a colour batch, up to the first buffer that no packet can hold.
abbrev pub color_commands : List (ℕ × List Rgb) → List Command
color_commands [] = []
color_commands ((idx, colors) ∷ batch) =
    if fits (idx, colors) then set_rgb (idx % 256) 0x24 colors ∷ color_commands batch else []

abbrev pub reading : Reply → ℕ × ℕ
reading (data_reply speed rpm) = (speed, rpm)
reading _ = (0, 0)

module _ {D : HidDevice} (c : Compliant D) where
  -- The device behind a sequence of commands.
  abbrev pub obey_all : List Command → D.State → D.State
  obey_all [] s = s
  obey_all (cmd ∷ cmds) s = obey_all cmds (c.obey cmd s)

  -- What the device reports of each fan of the batch, just after its speed was set.
  abbrev pub seen : List (ℕ × ℕ) → D.State → List (ℕ × ℕ × ℕ)
  seen [] s = []
  seen ((idx, speed) ∷ batch) s =
      let s' = c.obey (set_speed (idx % 256) speed) s in
      let r = reading (c.answer (get_data (idx % 256)) s') in
      (idx, r.0, r.1) ∷ seen batch (c.obey (get_data (idx % 256)) s')

module _ {D : HidDevice} (c : Compliant D) (a : Acknowledges c) where
  set_speed-obey :
      (port speed : ℕ) (s : D.State)
      → ctrl_set_speed D port speed s ≡ (ok tt, c.obey (set_speed port speed) s)
  unfolding ctrl_set_speed to_bytes
  set_speed-obey port speed s =
      >>=-of_ok (request D (set_speed port speed)) (λ r. lift (expect_status r)) s
        (request-obey c (set_speed port speed) s (encode-eq-to_bytes (set_speed port speed) []))
      ∙ rw (a.speed_ack port speed s)

  -- The reply to `GetData` is a data reply.
  expect_data-reading :
      (port : ℕ) (r : Reply)
      → Answers (get_data port) r
      → expect_data (response_of r) ≡ ok (reading r)
  expect_data-reading port (state_reply code) h = absurd h
  expect_data-reading port (version_reply _ _ _) h = absurd h
  expect_data-reading port (data_reply speed rpm) h = refl

  get_data-obey :
      (port : ℕ) (s : D.State)
      → ctrl_get_data D port s
        ≡ (ok (reading (c.answer (get_data port) s)), c.obey (get_data port) s)
  unfolding ctrl_get_data to_bytes
  get_data-obey port s =
      >>=-of_ok (request D (get_data port)) (λ r. lift (expect_data r)) s
        (request-obey c (get_data port) s (encode-eq-to_bytes (get_data port) []))
      ∙ ap (λ r. (r, c.obey (get_data port) s))
          (expect_data-reading port (c.answer (get_data port) s) (c.answers (get_data port) s))

  process_fan_inner-obey :
      (idx speed : ℕ) (s : D.State)
      → let s' = c.obey (set_speed (idx % 256) speed) s in
        process_fan_inner D idx speed s
        ≡ (ok (reading (c.answer (get_data (idx % 256)) s')), c.obey (get_data (idx % 256)) s')
  unfolding process_fan_inner
  process_fan_inner-obey idx speed s =
      >>=-of_ok (ctrl_set_speed D (idx % 256) speed) (λ _. ctrl_get_data D (idx % 256)) s
        (set_speed-obey (idx % 256) speed s)
      ∙ get_data-obey (idx % 256) (c.obey (set_speed (idx % 256) speed) s)

  process_speeds-obey :
      (batch : List (ℕ × ℕ)) (s : D.State)
      → process_speeds D batch s ≡ (ok (seen c batch s), obey_all c (speed_commands batch) s)
  unfolding process_speeds
  process_speeds-obey [] s = refl
  process_speeds-obey ((idx, speed) ∷ batch) s =
      let s' = c.obey (set_speed (idx % 256) speed) s in
      let s'' = c.obey (get_data (idx % 256)) s' in
      let r = reading (c.answer (get_data (idx % 256)) s') in
      >>=-of_ok (process_fan_inner D idx speed)
        (λ got. process_speeds D batch >>= λ rest. lift (ok ((idx, got.0, got.1) ∷ rest))) s
        (process_fan_inner-obey idx speed s)
      ∙ >>=-of_ok (process_speeds D batch) (λ rest. lift (ok ((idx, r.0, r.1) ∷ rest))) s''
          (process_speeds-obey batch s'')

  all-seen :
      (n : ℕ) (batch : List (ℕ × ℕ)) (s : D.State)
      → all (in_range3 n) (seen c batch s) ≡ all (in_range n) batch
  all-seen n [] s = refl
  all-seen n ((idx, speed) ∷ batch) s =
      ap (◌&&◌ (in_range n (idx, speed)))
        (all-seen n batch (c.obey (get_data (idx % 256)) (c.obey (set_speed (idx % 256) speed) s)))

  -- On a device that obeys the protocol and acknowledges every command that sets a speed or
  -- colours, a speed batch sends, for each entry in its order, the new speed and a request for the
  -- data of that fan, and nothing else. Then it stores the reports with their fans: it succeeds if
  -- all channels are from 1 to the number of fans, and else panics at the first that is not.
  pub update_speed_batch-eq :
      (batch : List (ℕ × ℕ)) (q : Controller D)
      → update_speed_batch D batch q ≡ (
        if all (in_range (length q.fans)) batch then ok tt else panic,
        record q {
          dev = obey_all c (speed_commands batch) q.dev;
          fans = stored q.fans (seen c batch q.dev);
        },
      )
  unfolding update_speed_batch
  update_speed_batch-eq batch q = rw (process_speeds-obey batch q.dev) (
      rw (update_all_stats-eq q.fans (seen c batch q.dev), all-seen (length q.fans) batch q.dev)
        refl)

  set_rgb-obey :
      (idx : ℕ) (colors : List Rgb) (s : D.State)
      → process_fan_inner_color D idx colors s ≡ (
          if fits (idx, colors)
          then (ok tt, c.obey (set_rgb (idx % 256) 0x24 colors) s)
          else (err encode_failed, s))
  unfolding process_fan_inner_color ctrl_set_rgb
  set_rgb-obey idx colors s =
      let cmd = set_rgb (idx % 256) 0x24 colors in
      elim (Bool-cases (fits (idx, colors))) [
        | inl e ↦ rw e (
            >>=-of_ok (request D cmd) (λ r. lift (expect_status r)) s
              (request-obey c cmd s
                ((encode_set_rgb_iff (idx % 256) 0x24 colors []).1 ((leb_iff _ _).0 e)))
            ∙ rw (a.rgb_ack (idx % 256) 0x24 colors s))
        | inr e ↦ rw e (
            >>=-of_err (request D cmd) (λ r. lift (expect_status r)) s
              (request_unencodable D cmd s (
                encode_set_rgb_long (idx % 256) 0x24 colors []
                  (ground (arith, leb_iff (length colors) 62)))))
      ]

  process_colors-obey :
      (batch : List (ℕ × List Rgb)) (s : D.State)
      → process_colors D batch s
        ≡ (if all fits batch then ok tt else err encode_failed, obey_all c (color_commands batch) s)
  unfolding process_colors
  process_colors-obey [] s = refl
  process_colors-obey ((idx, colors) ∷ batch) s =
      let s' = c.obey (set_rgb (idx % 256) 0x24 colors) s in
      elim (Bool-cases (fits (idx, colors))) [
        | inl e ↦ rw e (
            >>=-of_ok (process_fan_inner_color D idx colors) (λ _. process_colors D batch) s
              (set_rgb-obey idx colors s ∙ rw e)
            ∙ process_colors-obey batch s')
        | inr e ↦ rw e (
            >>=-of_err (process_fan_inner_color D idx colors) (λ _. process_colors D batch) s
              (set_rgb-obey idx colors s ∙ rw e))
      ]

  -- On a device that obeys the protocol and acknowledges every command that sets a speed or
  -- colours, a colour batch sends one packet for each buffer in its order, up to the first that
  -- holds more than 62 colours; there it fails, and the later buffers are not sent.
  pub update_color_batch-eq :
      (batch : List (ℕ × List Rgb)) (q : Controller D)
      → update_color_batch D batch q ≡ (
        if all fits batch then ok tt else err encode_failed,
        record q { dev = obey_all c (color_commands batch) q.dev },
      )
  unfolding update_color_batch
  update_color_batch-eq batch q =
      ap (λ r. (r.0, record q { dev = r.1 })) (process_colors-obey batch q.dev)
