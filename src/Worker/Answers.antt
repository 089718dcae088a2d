-- ===== src/Worker/Answers.antt =====
-- What the callers of a worker are told, and when its task goes on.
use tt_riingd.Common.{
  ℕ, ◌≡◌, ◌≢◌, refl, inl, inr, ◌⊎◌, Bool, true, false, Result, panic, reply_lost, ok, err,
}
use tt_riingd.Worker.{
  FanController, Command, set_speeds, set_colors, init, get_firmware, led_count, stop, done,
  version, leds, to_done, to_version, Reply, handle, goes_on, awaited,
}

pub goes_on_lem : (cmd : Command) (r : Result Reply) → cmd ≢ stop → r ≢ panic → goes_on cmd r ≡ true
goes_on_lem stop r n p = absurd (n refl)
goes_on_lem (set_speeds batch) panic n p = absurd (p refl)
goes_on_lem (set_speeds batch) (ok a) n p = refl
goes_on_lem (set_speeds batch) (err e) n p = refl
goes_on_lem (set_colors batch) panic n p = absurd (p refl)
goes_on_lem (set_colors batch) (ok a) n p = refl
goes_on_lem (set_colors batch) (err e) n p = refl
goes_on_lem init panic n p = absurd (p refl)
goes_on_lem init (ok a) n p = refl
goes_on_lem init (err e) n p = refl
goes_on_lem get_firmware panic n p = absurd (p refl)
goes_on_lem get_firmware (ok a) n p = refl
goes_on_lem get_firmware (err e) n p = refl
goes_on_lem led_count panic n p = absurd (p refl)
goes_on_lem led_count (ok a) n p = refl
goes_on_lem led_count (err e) n p = refl

pub goes_on-panic : (cmd : Command) → goes_on cmd panic ≡ false
goes_on-panic stop = refl
goes_on-panic _ = refl

-- How a command of a caller ends: its task goes on with an answer, or ends at `Stop`, or by a panic whose
-- caller gets no answer.
abbrev pub IsServed : Command → Result Reply → Result Reply → Bool → Type 0
IsServed cmd r answer running =
    ((cmd ≢ stop) × (r ≢ panic) × (answer ≡ r) × (running ≡ true))
    ⊎ ((cmd ≡ stop) × (answer ≡ ok done) × (running ≡ false))
    ⊎ ((r ≡ panic) × (answer ≡ err reply_lost) × (running ≡ false))

-- The reply that tells what a method of the trait came to.
abbrev TellsDone : Result (Unit {0}) → Result Reply → Type 0
TellsDone (ok t) r = r ≡ ok done
TellsDone (err e) r = r ≡ err e
TellsDone panic r = r ≡ panic

abbrev TellsVersion : Result (ℕ × ℕ × ℕ) → Result Reply → Type 0
TellsVersion (ok (major, minor, patch)) r = r ≡ ok (version major minor patch)
TellsVersion (err e) r = r ≡ err e
TellsVersion panic r = r ≡ panic

-- The method of the trait that is called for a command takes the controller from `s` to `t`, and `r` tells
-- what it came to.
abbrev pub IsHandled : (C : FanController) → Command → C.State → Result Reply → C.State → Type 0
IsHandled C (set_speeds batch) s r t =
    TellsDone (C.update_speed_batch batch s).0 r × (t ≡ (C.update_speed_batch batch s).1)
IsHandled C (set_colors batch) s r t =
    TellsDone (C.update_color_batch batch s).0 r × (t ≡ (C.update_color_batch batch s).1)
IsHandled C init s r t = TellsDone (C.send_init s).0 r × (t ≡ (C.send_init s).1)
IsHandled C get_firmware s r t =
    TellsVersion (C.firmware_version s).0 r × (t ≡ (C.firmware_version s).1)
IsHandled C led_count s r t = (r ≡ ok (leds (C.led_count s))) × (t ≡ s)
IsHandled C stop s r t = (r ≡ ok done) × (t ≡ s)

to_done-TellsDone : (o : Result (Unit {0})) → TellsDone o (to_done o)
to_done-TellsDone (ok t) = refl
to_done-TellsDone (err e) = refl
to_done-TellsDone panic = refl

to_version-TellsVersion : (o : Result (ℕ × ℕ × ℕ)) → TellsVersion o (to_version o)
to_version-TellsVersion (ok (major, minor, patch)) = refl
to_version-TellsVersion (err e) = refl
to_version-TellsVersion panic = refl

pub handle-IsHandled :
    (C : FanController) (cmd : Command) (s : C.State)
    → IsHandled C cmd s (handle C cmd s).0 (handle C cmd s).1
unfolding handle
handle-IsHandled C (set_speeds batch) s = (to_done-TellsDone (C.update_speed_batch batch s).0, refl)
handle-IsHandled C (set_colors batch) s = (to_done-TellsDone (C.update_color_batch batch s).0, refl)
handle-IsHandled C init s = (to_done-TellsDone (C.send_init s).0, refl)
handle-IsHandled C get_firmware s = (to_version-TellsVersion (C.firmware_version s).0, refl)
handle-IsHandled C led_count s = (refl, refl)
handle-IsHandled C stop s = (refl, refl)

other-IsServed :
    (cmd : Command) (r : Result Reply) → cmd ≢ stop → IsServed cmd r (awaited r) (goes_on cmd r)
other-IsServed cmd panic n = inr (inr (refl, refl, goes_on-panic cmd))
other-IsServed cmd (ok a) n =
    let p : ◌≢◌ {A = Result Reply} (ok a) panic = λ e. absurd (cc e) in
    inl (n, p, refl, goes_on_lem cmd (ok a) n p)
other-IsServed cmd (err x) n =
    let p : ◌≢◌ {A = Result Reply} (err x) panic = λ e. absurd (cc e) in
    inl (n, p, refl, goes_on_lem cmd (err x) n p)

pub handle-IsServed :
    (C : FanController) (cmd : Command) (t : C.State)
    → let r = (handle C cmd t).0 in IsServed cmd r (awaited r) (goes_on cmd r)
unfolding handle
handle-IsServed C stop t = inr (inl (refl, refl, refl))
handle-IsServed C (set_speeds batch) t = other-IsServed (set_speeds batch) _ (λ e. absurd (cc e))
handle-IsServed C (set_colors batch) t = other-IsServed (set_colors batch) _ (λ e. absurd (cc e))
handle-IsServed C init t = other-IsServed init _ (λ e. absurd (cc e))
handle-IsServed C get_firmware t = other-IsServed get_firmware _ (λ e. absurd (cc e))
handle-IsServed C led_count t = other-IsServed led_count _ (λ e. absurd (cc e))
