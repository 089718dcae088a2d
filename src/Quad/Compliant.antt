-- ===== src/Quad/Compliant.antt =====
-- What the driver relies on of the hardware: a device that takes each packet as the command that it
-- encodes, obeys it, and sends one reply of the kind that the command asks for.
use tt_riingd.Common.{
  ℕ, ◌≤◌, ◌≡◌, refl, ap, ◌∙◌, List, [], ◌∷◌, ◌++◌, some, Error, ok, err, length, drop, replicate,
  arith,
}
use tt_riingd.Protocol.{Command, to_bytes, encode, parse}
use tt_riingd.Protocol.Decoding.{decode, decode-encode}
use tt_riingd.Protocol.Replies.{
  Reply, state_reply, version_reply, data_reply, reply_bytes, response_of, Answers, parse-reply,
}
use tt_riingd.Hid.{HidDevice, overlay, received, read, lift, ◌>>=◌, >>=-of_ok, >>=-of_err}
use tt_riingd.Quad.{request}
use mathlib.Core.List.{append_assoc}

pub record Compliant (D : HidDevice) : Type 0 where
  -- The state between a packet and its reply, the state behind the reply, and the reply.
  pub taken : Command → D.State → D.State
  pub obey : Command → D.State → D.State
  pub answer : Command → D.State → Reply
  pub b0 : ℕ
  pub b1 : ℕ
  pub padding : List ℕ
  pub answers : (cmd : Command) (s : D.State) → Answers cmd (answer cmd s)
  pub fits :
      (cmd : Command) (s : D.State) → length (reply_bytes b0 b1 (answer cmd s) ++ padding) ≤ 193
  pub write_lem :
      (cmd : Command) (s : D.State) (bytes : List ℕ)
      → decode bytes ≡ some cmd
      → D.write bytes s ≡ (ok (length bytes), taken cmd s)
  pub read_lem :
      (cmd : Command) (s : D.State)
      → D.read_timeout 193 (taken cmd s)
        ≡ (ok (reply_bytes b0 b1 (answer cmd s) ++ padding), obey cmd s)

overlay-append :
    (xs buf : List ℕ) → length xs ≤ length buf → overlay xs buf ≡ xs ++ drop (length xs) buf
overlay-append [] buf h = refl
overlay-append (x ∷ xs) [] h = absurd (omega arith)
overlay-append (x ∷ xs) (y ∷ buf) h = ap (λ zs. x ∷ zs) (overlay-append xs buf (omega arith))

received_reply :
    (b0 b1 : ℕ) (r : Reply) (padding : List ℕ)
    → let bytes = reply_bytes b0 b1 r ++ padding in
      received bytes (replicate 193 0) ≡ ok (overlay bytes (replicate 193 0))
received_reply b0 b1 (state_reply code) padding = refl
received_reply b0 b1 (version_reply major minor patch) padding = refl
received_reply b0 b1 (data_reply speed rpm) padding = refl

module _ {D : HidDevice} (c : Compliant D) where
  open c use {obey, answer}

  read_reply :
      (cmd : Command) (s : D.State)
      → read D (c.taken cmd s) ≡ (
        ok (overlay (reply_bytes c.b0 c.b1 (answer cmd s) ++ c.padding) (replicate 193 0)),
        obey cmd s,
      )
  unfolding read
  read_reply cmd s =
      >>=-of_ok (D.read_timeout 193) (λ bytes. lift (received bytes (replicate 193 0)))
        (c.taken cmd s) (c.read_lem cmd s)
      ∙ ap (λ r. (r, obey cmd s)) (received_reply c.b0 c.b1 (answer cmd s) c.padding)

  parse_received :
      (cmd : Command) (s : D.State)
      → parse cmd (overlay (reply_bytes c.b0 c.b1 (answer cmd s) ++ c.padding) (replicate 193 0))
        ≡ ok (response_of (answer cmd s))
  parse_received cmd s =
      let bytes = reply_bytes c.b0 c.b1 (answer cmd s) in
      let rest = drop (length (bytes ++ c.padding)) (replicate 193 0) in
      ap (parse cmd) (
        overlay-append (bytes ++ c.padding) (replicate 193 0) (c.fits cmd s)
        ∙ append_assoc bytes c.padding rest)
      ∙ parse-reply cmd (answer cmd s) c.b0 c.b1 (c.padding ++ rest) (c.answers cmd s)

  -- A request that fits into a packet gets the device's answer, and the device obeys it once.
  pub request-obey :
      (cmd : Command) (s : D.State)
      → encode cmd [] ≡ ok (to_bytes cmd)
      → request D cmd s ≡ (ok (response_of (answer cmd s)), obey cmd s)
  unfolding request
  request-obey cmd s h =
      let receive = λ (sent : ℕ). read D >>= λ buf. lift (parse cmd buf) in
      >>=-of_ok (lift (encode cmd [])) (λ pkt. D.write pkt >>= receive) s (ap (λ r. (r, s)) h)
      ∙ >>=-of_ok (D.write (to_bytes cmd)) receive s
          (c.write_lem cmd s (to_bytes cmd) (decode-encode cmd [] (to_bytes cmd) h))
      ∙ >>=-of_ok (read D) (λ buf. lift (parse cmd buf)) (c.taken cmd s) (read_reply cmd s)
      ∙ ap (λ r. (r, obey cmd s)) (parse_received cmd s)

-- A request that no packet can hold fails before anything is sent.
pub request_unencodable :
    (D : HidDevice) (cmd : Command) (s : D.State) {e : Error}
    → encode cmd [] ≡ err e
    → request D cmd s ≡ (err e, s)
unfolding request
request_unencodable D cmd s h =
    >>=-of_err (lift (encode cmd []))
      (λ pkt. D.write pkt >>= λ _. read D >>= λ buf. lift (parse cmd buf)) s (ap (λ r. (r, s)) h)
