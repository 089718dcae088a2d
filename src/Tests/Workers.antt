-- ===== src/Tests/Workers.antt =====
-- Workers of a controller that counts, and whose speed batches panic.
use tt_riingd.Common.{
  Result, ℕ, ◌+◌, ◌≡◌, ◌≢◌, refl, [], ◌∷◌, true, false, ok, err, panic, reply_lost, channel_closed,
  nat_eq, arith,
}
use tt_riingd.Worker.{
  Reply, FanController, set_speeds, set_colors, init, led_count, Worker, WorkerManager, handle,
  call, turn, new_manager, initialize,
}
use tt_riingd.Worker.Queue.{Runs, idle, next, Panics, here, behind, calls, call-Runs, panic_ends}
use tt_riingd.Worker.Answers.{IsHandled, IsServed}
use tt_riingd.Worker.Pool.{IsPool, new_manager-IsPool, initialize-IsPool}

abbrev pub counting : FanController
counting = record {
  State = ℕ;
  send_init = λ n. (ok tt, n + 1);
  update_speed_batch = λ batch n. (panic, n);
  update_color_batch = λ batch n. (ok tt, n + 10);
  firmware_version = λ n. (ok (1, 2, n), n);
  led_count = λ n. n;
  get_id = λ n. "counting";
}

abbrev waiting : Worker counting
waiting = record { controller = 0; queue = init ∷ set_colors [] ∷ []; running = true }

-- The queue is served first, so the count that the call answers is 11.
waiting-Runs : Runs counting (init ∷ set_colors [] ∷ []) 0 11
unfolding handle
waiting-Runs =
    next (λ e. absurd (cc e)) (λ e. absurd (cc e))
      (next (λ e. absurd (cc e)) (λ e. absurd (cc e)) idle)

call-Runs_example :
    let (answer, w) = call counting led_count waiting in
    (r : Result Reply) × IsHandled counting led_count 11 r w.controller
    × (w.queue ≡ [])
    × IsServed led_count r answer w.running
call-Runs_example = call-Runs counting led_count waiting 11 refl waiting-Runs

waiting-turn : (turn counting waiting).running ≡ true
unfolding turn handle
waiting-turn = refl

-- The batch of speeds panics behind the initialization that waits.
abbrev busy : Worker counting
busy = record { controller = 5; queue = init ∷ []; running = true }

busy-Panics : Panics counting (init ∷ set_speeds [] ∷ []) 5 6
unfolding handle
busy-Panics = behind (λ e. absurd (cc e)) (λ e. absurd (cc e)) (here refl)

panic_ends_example :
    let (answers, w) = calls counting (set_speeds [] ∷ init ∷ led_count ∷ []) busy in
    (answers ≡ err reply_lost ∷ err channel_closed ∷ err channel_closed ∷ [])
    × (w.controller ≡ 6)
    × (w.running ≡ false)
panic_ends_example =
    panic_ends counting (set_speeds []) (init ∷ led_count ∷ []) busy 6 refl busy-Panics

abbrev pub two : WorkerManager counting
two = initialize counting (0 ∷ 7 ∷ []) (new_manager counting)

pub two-IsPool : IsPool two
two-IsPool = initialize-IsPool (0 ∷ 7 ∷ []) (new_manager counting) new_manager-IsPool (omega arith)

one_two : ◌≢◌ {A = ℕ} 1 2
one_two h = absurd (omega arith)
