-- ===== src/Worker/Queue.antt =====
-- The channel of a worker: its order, its bound, and what becomes of a task that has ended.
use tt_riingd.Common.{
  ◌≤◌, ◌<◌, ◌≡◌, ◌≢◌, refl, ap, ◌∙◌, inl, inr, ◌⊎◌, List, [], ◌∷◌, ◌++◌, map, true, false, Result,
  panic, channel_closed, reply_lost, err, ltb, length, length-append, Bool-cases, arith,
}
use tt_riingd.Worker.{
  FanController, Command, stop, Reply, Worker, handle, serve, goes_on, drain, awaited, last_turn,
  call, offer, turn, turn_on, channel_size,
}
use tt_riingd.Worker.Answers.{
  goes_on_lem, goes_on-panic, IsServed, IsHandled, handle-IsServed, handle-IsHandled,
}

-- The commands are handled one after the other: none of them is `Stop`, and no handler panics. A handler may
-- fail.
pub data Runs (C : FanController) : List Command → C.State → C.State → Type 0 where
  idle : {s : C.State} → Runs C [] s s
  next :
      {cmd : Command} {cmds : List Command} {s t : C.State}
      → cmd ≢ stop
      → (handle C cmd s).0 ≢ panic
      → Runs C cmds (handle C cmd s).1 t
      → Runs C (cmd ∷ cmds) s t

-- The handler of one of the commands panics, and leaves the controller in this state. None before it is
-- `Stop`.
pub data Panics (C : FanController) : List Command → C.State → C.State → Type 0 where
  here :
      {cmd : Command} {cmds : List Command} {s t : C.State}
      → handle C cmd s ≡ (panic, t)
      → Panics C (cmd ∷ cmds) s t
  behind :
      {cmd : Command} {cmds : List Command} {s t : C.State}
      → cmd ≢ stop
      → (handle C cmd s).0 ≢ panic
      → Panics C cmds (handle C cmd s).1 t
      → Panics C (cmd ∷ cmds) s t

module _ (C : FanController) where
  drain-Runs : {cmds : List Command} {s t : C.State} → Runs C cmds s t → drain C cmds s ≡ (t, true)
  unfolding drain serve
  drain-Runs idle = refl
  drain-Runs (next {cmd} {cmds} {s} n p r) =
      rw (goes_on_lem cmd (handle C cmd s).0 n p) (drain-Runs r)

  pub call-eq :
      (cmd : Command) (w : Worker C) (t : C.State)
      → w.running ≡ true
      → Runs C w.queue w.controller t
      → let (r, t') = handle C cmd t in
        call C cmd w ≡ (awaited r, record { controller = t'; queue = []; running = goes_on cmd r })
  unfolding call serve
  call-eq cmd w t live runs = rw live (ap (last_turn C cmd) (drain-Runs runs))

  -- A call waits behind the commands that were sent before. When none of those is `Stop` and no handler
  -- of theirs panics, the method of the trait for it is called in the state that they lead to, also if
  -- some of them failed, and the channel is left empty. Its caller is told what the method came to, and
  -- the task goes on, errors included, but for two cases: `Stop` is answered and ends the task, and a
  -- method that panics ends it without an answer.
  pub call-Runs :
      (cmd : Command) (w : Worker C) (t : C.State)
      → w.running ≡ true
      → Runs C w.queue w.controller t
      → let (answer, w') = call C cmd w in
        (r : Result Reply) × IsHandled C cmd t r w'.controller
        × (w'.queue ≡ [])
        × IsServed cmd r answer w'.running
  call-Runs cmd w t live runs =
      rw (call-eq cmd w t live runs)
        ((handle C cmd t).0, handle-IsHandled C cmd t, refl, handle-IsServed C cmd t)

  call-turn_on :
      (cmd : Command) (queue : List Command) (w : Worker C)
      → w.queue ≡ queue
      → w.running ≡ true
      → (turn_on C queue w).running ≡ true
      → call C cmd (turn_on C queue w) ≡ call C cmd w
  unfolding call drain serve
  call-turn_on cmd [] w q live on = refl
  call-turn_on cmd (c ∷ queue) w q live on = ground arith

  -- What the task did on its own before a call makes no difference to the call, so long as it has
  -- not ended: the answer and the state behind it are the same.
  pub call-turn :
      (cmd : Command) (w : Worker C)
      → w.running ≡ true
      → (turn C w).running ≡ true
      → call C cmd (turn C w) ≡ call C cmd w
  unfolding turn
  call-turn cmd w live on = ground (arith, call-turn_on cmd w.queue w)

  -- A command that is offered is taken just when the task runs and fewer than 32 commands wait, and
  -- then it stands behind them; else the worker stays as it was.
  pub offer_lem :
      (cmd : Command) (w : Worker C)
      → ((w.running ≡ true)
          × (length w.queue < channel_size)
          × (offer C cmd w ≡ (true, record w { queue = w.queue ++ cmd ∷ [] })))
        ⊎ (((w.running ≡ false) ⊎ (channel_size ≤ length w.queue)) × (offer C cmd w ≡ (false, w)))
  unfolding offer
  offer_lem cmd w = elim (Bool-cases w.running) [
    | inl live ↦ elim (Bool-cases (ltb (length w.queue) channel_size)) [
      | inl room ↦ inl (live, ground arith, rw (live, room))
      | inr full ↦ inr (inr (ground arith), rw (live, full))
    ]
    | inr dead ↦ inr (inl dead, rw dead)
  ]

  -- The channel never holds more than 32 commands.
  pub offer_bounded :
      (cmd : Command) (w : Worker C)
      → length w.queue ≤ channel_size
      → length (offer C cmd w).1.queue ≤ channel_size
  unfolding offer
  offer_bounded cmd w h = ground (arith, length-append w.queue (cmd ∷ []))

  -- A task that has ended, by `Stop` or by a panic, stays so: each later call and each offer fails,
  -- and nothing reaches the controller any more.
  pub ended_absorbs :
      (cmd : Command) (w : Worker C)
      → w.running ≡ false
      → (call C cmd w ≡ (err channel_closed, w)) × (offer C cmd w ≡ (false, w)) × (turn C w ≡ w)
  unfolding call offer turn
  ended_absorbs cmd w dead = (rw dead, rw dead, rw dead)

  -- A worker whose task has ended.
  abbrev dead : C.State → Worker C
  dead t = record { controller = t; queue = []; running = false }

  panic_here :
      (cmd : Command) (s t : C.State)
      → handle C cmd s ≡ (panic, t)
      → last_turn C cmd (s, true) ≡ (err reply_lost, dead t)
  unfolding serve
  panic_here cmd s t p = rw p (rw (goes_on-panic cmd) refl)

  drain_here :
      (cmd : Command) (queue : List Command) (s t : C.State)
      → handle C cmd s ≡ (panic, t)
      → drain C (cmd ∷ queue) s ≡ (t, false)
  unfolding drain serve
  drain_here cmd queue s t p = rw p (rw (goes_on-panic cmd) refl)

  drain_behind :
      (cmd : Command) (queue : List Command) (s : C.State)
      → cmd ≢ stop
      → (handle C cmd s).0 ≢ panic
      → drain C (cmd ∷ queue) s ≡ drain C queue (handle C cmd s).1
  unfolding drain serve
  drain_behind cmd queue s n p = rw (goes_on_lem cmd (handle C cmd s).0 n p) refl

  drain-Panics :
      (queue : List Command) (cmd : Command) {s t : C.State}
      → Panics C (queue ++ cmd ∷ []) s t
      → last_turn C cmd (drain C queue s) ≡ (err reply_lost, dead t)
  unfolding drain
  drain-Panics [] cmd {s} {t} (here p) = panic_here cmd s t p
  drain-Panics [] cmd {s} {t} (behind n p rest) = elim rest [ ]
  drain-Panics (c ∷ queue) cmd {s} {t} (here p) = ap (last_turn C cmd) (drain_here c queue s t p)
  drain-Panics (c ∷ queue) cmd {s} (behind n p rest) =
      ap (last_turn C cmd) (drain_behind c queue s n p) ∙ drain-Panics queue cmd rest

  -- The callers that come one after the other, and what they are answered.
  abbrev pub calls : List Command → Worker C → List (Result Reply) × Worker C
  calls [] w = ([], w)
  calls (cmd ∷ cmds) w =
      let (r, w') = call C cmd w in let (rs, w'') = calls cmds w' in (r ∷ rs, w'')

  calls-dead :
      (cmds : List Command) (t : C.State)
      → calls cmds (dead t) ≡ (map (λ cmd. err channel_closed) cmds, dead t)
  unfolding call
  calls-dead [] t = refl
  calls-dead (cmd ∷ cmds) t =
      ap (λ (p : List (Result Reply) × Worker C). (err channel_closed ∷ p.0, p.1))
        (calls-dead cmds t)

  -- When the handler of a caller's command panics, or that of a command that waits before it, the task
  -- ends there: the commands behind are not handled, the caller gets an error, and so does everyone who
  -- calls later, however many there are.
  pub panic_ends :
      (cmd : Command) (later : List Command) (w : Worker C) (t : C.State)
      → w.running ≡ true
      → Panics C (w.queue ++ cmd ∷ []) w.controller t
      → let (answers, w') = calls (cmd ∷ later) w in
        (answers ≡ err reply_lost ∷ map (λ c. err channel_closed) later)
        × (w'.controller ≡ t)
        × (w'.running ≡ false)
  unfolding call
  panic_ends cmd later w t live p =
      rw (live, drain-Panics w.queue cmd p) (rw (calls-dead later t) (refl, refl, refl))
