-- ===== src/Worker.antt =====
-- drivers/worker_manager.rs and the trait of drivers/fan_controller.rs: one task for each controller,
-- which takes its commands from a channel of 32 places in their order. A task ends at `Stop`, at the
-- shutdown signal, or by a panic in a handler; its channel is closed then and what waits in it is lost.
pub mod Answers
pub mod Queue
pub mod Pool
use tt_riingd.Common.{
  ℕ, zero, suc, ◌+◌, ◌%◌, List, [], ◌∷◌, ◌++◌, String, Option, none, some, Bool, true, false,
  Result, ok, err, panic, ◌>>=◌, worker_not_found, channel_closed, reply_lost, if◌then◌else◌, ltb,
  length, ◌==◌, nat_eq, Dict, lookup, insert,
}
use tt_riingd.Protocol.{Rgb}

-- The trait `FanController`: its methods over the state of an implementation.
pub record FanController : Type 1 where
  pub State : Type 0
  pub send_init : State → Result (Unit {0}) × State
  pub update_speed_batch : List (ℕ × ℕ) → State → Result (Unit {0}) × State
  pub update_color_batch : List (ℕ × List Rgb) → State → Result (Unit {0}) × State
  pub firmware_version : State → Result (ℕ × ℕ × ℕ) × State
  pub led_count : State → ℕ
  pub get_id : State → String

-- `ControllerCommand`; the sender that each carries is the result of `handle`.
pub data Command : Type 0 where
  set_speeds : (batch : List (ℕ × ℕ)) → Command
  set_colors : (batch : List (ℕ × List Rgb)) → Command
  init : Command
  get_firmware : Command
  led_count : Command
  stop : Command

-- What a command answers.
pub data Reply : Type 0 where
  done : Reply
  version : (major minor patch : ℕ) → Reply
  leds : (count : ℕ) → Reply

abbrev pub channel_size : ℕ
channel_size = 32

abbrev pub to_done : Result (Unit {0}) → Result Reply
to_done r = r >>= λ _. ok done

abbrev pub to_version : Result (ℕ × ℕ × ℕ) → Result Reply
to_version r = r >>= λ v. ok (version v.0 v.1 v.2)

-- Whether the loop goes on behind a command with this result.
abbrev pub goes_on : Command → Result Reply → Bool
goes_on stop r = false
goes_on cmd panic = false
goes_on cmd r = true

-- An answer that was sent, or was lost with its sender.
abbrev pub awaited : Result Reply → Result Reply
awaited panic = err reply_lost
awaited r = r

module _ (C : FanController) where
  pub record Worker : Type 0 where
    pub controller : C.State
    pub queue : List Command
    pub running : Bool

  -- One arm of the worker's `match`.
  unfoldable pub handle : Command → C.State → Result Reply × C.State
  handle (set_speeds batch) s = let (r, s') = C.update_speed_batch batch s in (to_done r, s')
  handle (set_colors batch) s = let (r, s') = C.update_color_batch batch s in (to_done r, s')
  handle init s = let (r, s') = C.send_init s in (to_done r, s')
  handle get_firmware s = let (r, s') = C.firmware_version s in (to_version r, s')
  handle led_count s = (ok (leds (C.led_count s)), s)
  handle stop s = (ok done, s)

  -- One turn of the loop: the command, and the state behind it.
  unfoldable pub serve : Command → C.State → Result Reply × C.State × Bool
  unfolding handle
  serve cmd s = let (r, s') = handle cmd s in (r, s', goes_on cmd r)

  -- The commands of the channel in their order, up to the one that ends the loop.
  unfoldable pub drain : List Command → C.State → C.State × Bool
  drain [] s = (s, true)
  drain (cmd ∷ queue) s =
      let (r, s', on) = serve cmd s in let rest = drain queue s' in if on then rest else (s', false)

  abbrev pub new_worker : C.State → Worker
  new_worker s = record { controller = s; queue = []; running = true }

  abbrev pub last_turn : Command → C.State × Bool → Result Reply × Worker
  last_turn cmd (s, true) =
      let (r, s', on) = serve cmd s in
      (awaited r, record { controller = s'; queue = []; running = on })
  last_turn cmd (s, false) =
      (err reply_lost, record { controller = s; queue = []; running = false })

  -- `send(command).await?; result_rx.await?`: the command waits its turn behind the queue.
  unfoldable pub call : Command → Worker → Result Reply × Worker
  unfolding drain serve
  call cmd w =
      if w.running then last_turn cmd (drain w.queue w.controller) else (err channel_closed, w)

  -- `try_send(command).is_ok()`.
  unfoldable pub offer : Command → Worker → Bool × Worker
  offer cmd w =
      if w.running
      then (if ltb (length w.queue) channel_size
          then (true, record w { queue = w.queue ++ cmd ∷ [] })
          else (false, w))
      else (false, w)

  -- The turn of a worker's task on its own.
  abbrev pub turn_on : List Command → Worker → Worker
  turn_on [] w = w
  turn_on (cmd ∷ queue) w =
      let (r, s', on) = serve cmd w.controller in
      record { controller = s'; queue = if on then queue else []; running = on }

  unfoldable pub turn : Worker → Worker
  unfolding serve
  turn w = if w.running then turn_on w.queue w else w

  pub record WorkerManager : Type 0 where
    pub workers : Dict ℕ Worker
    pub next_worker_id : ℕ  -- u32

  abbrev pub new_manager : WorkerManager
  new_manager = record { workers = []; next_worker_id = 1 }

  unfoldable pub start_worker : C.State → WorkerManager → ℕ × WorkerManager
  start_worker s m = (
    m.next_worker_id,
    record {
      workers = insert m.next_worker_id (new_worker s) m.workers;
      next_worker_id = (m.next_worker_id + 1) % 4294967296;
    },
  )

  unfoldable pub initialize : List C.State → WorkerManager → WorkerManager
  unfolding start_worker
  initialize [] m = m
  initialize (s ∷ ss) m = initialize ss (start_worker s m).1

  abbrev pub worker_count : WorkerManager → ℕ
  worker_count m = length m.workers

  abbrev pub call_found : Option Worker → ℕ → Command → WorkerManager → Result Reply × WorkerManager
  call_found none id cmd m = (err worker_not_found, m)
  call_found (some w) id cmd m =
      let (r, w') = call cmd w in (r, record m { workers = insert id w' m.workers })

  -- `send_init`, `set_colors`, `set_speeds`, `get_firmware`, `led_count` and `stop_worker`, by command.
  unfoldable pub request : ℕ → Command → WorkerManager → Result Reply × WorkerManager
  request id cmd m = call_found (lookup id m.workers) id cmd m

  abbrev pub stop_worker : ℕ → WorkerManager → Result Reply × WorkerManager
  stop_worker id m = request id stop m

  abbrev pub worker_led_count : ℕ → WorkerManager → Result Reply × WorkerManager
  worker_led_count id m = request id led_count m

  abbrev pub offer_found : Option Worker → ℕ → Command → WorkerManager → Bool × WorkerManager
  offer_found none id cmd m = (false, m)
  offer_found (some w) id cmd m =
      let (sent, w') = offer cmd w in (sent, record m { workers = insert id w' m.workers })

  -- `try_set_colors` and `try_set_speeds`.
  unfoldable pub try_request : ℕ → Command → WorkerManager → Bool × WorkerManager
  try_request id cmd m = offer_found (lookup id m.workers) id cmd m

  -- `shutdown`: all tasks end, and their channels are dropped.
  unfoldable pub shutdown : WorkerManager → WorkerManager
  shutdown m = record m { workers = [] }
