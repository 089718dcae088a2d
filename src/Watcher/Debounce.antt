-- ===== src/Watcher/Debounce.antt =====
-- What the watcher publishes of a run of events.
use tt_riingd.Common.{
  ℕ, suc, ◌+◌, ◌≤◌, List, [], ◌∷◌, ◌++◌, String, Bool, true, false, ◌&&◌, ◌||◌, Result, ok, err,
  panic, ◌≡◌, refl, ap, ◌∙◌, All, length, length-append, arith, if◌then◌else◌,
}
use tt_riingd.Config.{Config}
use tt_riingd.Config.Changes.{ConfigChangeType}
use tt_riingd.Config.Load.{analyze_config_changes}
use tt_riingd.Event.{config_change_detected}
use tt_riingd.Watcher.{
  ConfigFile, WatcherState, watching, stopped, panicked, Input, cancelled, fs_event, fs_error,
  fs_closed, tick, affects_config, mark_pending, publish_change, step, run,
}

module _ {F : Type 0} (file : ConfigFile F) where
  abbrev Inputs : Type 0
  Inputs = List (Input file)

  -- A change of the file, as the file system reports it.
  abbrev pub is_relevant : Input file → Bool
  is_relevant (fs_event paths is_modify is_create) =
      affects_config file paths && (is_modify || is_create)
  is_relevant _ = false

  -- An input that neither ends the loop nor is a tick.
  abbrev pub IsQuiet : Input file → Type 0
  IsQuiet (fs_event paths is_modify is_create) = Unit {0}
  IsQuiet fs_error = Unit
  IsQuiet _ = ⊥

  stays_pending : (b : Bool) → mark_pending file b true ≡ watching true
  stays_pending true = refl
  stays_pending false = refl

  quiet_then :
      (inputs rest : Inputs)
      → All IsQuiet inputs
      → run file (inputs ++ rest) (watching true) ≡ run file rest (watching true)
  unfolding run
  quiet_then [] rest h = refl
  quiet_then (fs_event paths is_modify is_create ∷ inputs) rest (h, hs) =
      ap (run file (inputs ++ rest))
        (stays_pending (affects_config file paths && (is_modify || is_create)))
      ∙ quiet_then inputs rest hs
  quiet_then (fs_error ∷ inputs) rest (h, hs) = quiet_then inputs rest hs
  quiet_then (cancelled ∷ inputs) rest (h, hs) = absurd h
  quiet_then (fs_closed ∷ inputs) rest (h, hs) = absurd h
  quiet_then (tick e content config ∷ inputs) rest (h, hs) = absurd h

  -- However long the burst of events is, a change of the file is published at the next tick, once, with
  -- what the analysis of the file says then, if the file is there and loads; and then nothing is pending.
  pub change_published :
      (paths : List file.Path') (is_modify is_create : Bool) (pending : Bool) (quiet : Inputs)
      (content : Result String) (config : Config F) (change : ConfigChangeType)
      → affects_config file paths && (is_modify || is_create) ≡ true
      → All IsQuiet quiet
      → analyze_config_changes file.api file.from_str content config ≡ ok change
      → run file
          (fs_event paths is_modify is_create ∷ quiet ++ tick true content config ∷ [])
          (watching pending)
        ≡ (watching false, config_change_detected change ∷ [])
  unfolding run
  change_published paths is_modify is_create pending quiet content config change relevant h
        analysis =
      let rest = tick true content config ∷ [] in
      ap (λ b. run file (quiet ++ rest) (mark_pending file b pending)) relevant
      ∙ quiet_then quiet rest h
      ∙ ap (λ r. ((publish_change file r).0, (publish_change file r).1 ++ [])) analysis

  -- How many of the inputs are changes of the file, and what is still to be published.
  abbrev pub changes : Inputs → ℕ
  changes [] = 0
  changes (i ∷ inputs) = if is_relevant i then suc (changes inputs) else changes inputs

  abbrev pub owed : WatcherState → ℕ
  owed (watching true) = 1
  owed _ = 0

  published-le :
      (r : Result ConfigChangeType)
      → length (publish_change file r).1 + owed (publish_change file r).0 ≤ 1
  published-le (ok c) = omega arith
  published-le (err e) = omega arith
  published-le panic = omega arith

  marked-le :
      (b pending : Bool)
      → 0 + owed (mark_pending file b pending)
        ≤ (if b then suc (owed (watching pending)) else owed (watching pending))
  marked-le true pending = omega arith
  marked-le false pending = omega arith

  step-le :
      (i : Input file) (s : WatcherState)
      → length (step file i s).1 + owed (step file i s).0
        ≤ (if is_relevant i then suc (owed s) else owed s)
  unfolding step
  step-le cancelled (watching pending) = omega arith
  step-le (fs_event paths is_modify is_create) (watching pending) =
      marked-le (affects_config file paths && (is_modify || is_create)) pending
  step-le fs_error (watching pending) = omega arith
  step-le fs_closed (watching pending) = omega arith
  step-le (tick true content config) (watching true) =
      published-le (analyze_config_changes file.api file.from_str content config)
  step-le (tick false content config) (watching true) = omega arith
  step-le (tick e content config) (watching false) = omega arith
  step-le i stopped = ground arith
  step-le i panicked = ground arith

  -- A run publishes no more often than the file changed in it, with one more for a change that was
  -- pending before: an event is never published twice.
  pub published_bounded :
      (inputs : Inputs) (s : WatcherState) → length (run file inputs s).1 ≤ changes inputs + owed s
  unfolding run
  published_bounded [] s = omega arith
  published_bounded (i ∷ inputs) s =
      let (s', events) = step file i s in
      let more = published_bounded inputs s' in
      let once = step-le i s in
      let both = length-append events (run file inputs s').1 in ground arith
