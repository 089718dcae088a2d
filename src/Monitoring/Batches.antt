-- ===== src/Monitoring/Batches.antt =====
-- What a tick of the monitoring service sends, against the speeds that the curves ask for.
use tt_riingd.Common.{
  ℕ, List, [], ◌∷◌, ◌++◌, String, Option, none, some, Bool, true, false, Result, Error, ok, err,
  panic, ◌>>=◌, Dict, lookup, insert, lookup-insert, IsMap, insert-IsMap, append_assoc, append-nil,
  if◌then◌else◌, ◌==◌, string_eq, ◌≡◌, refl, sym, ap, ◌∙◌,
}
use tt_riingd.Floats.{Floats}
use tt_riingd.Mapping.{FanRef, fans_for_sensor}
use tt_riingd.Worker.{FanController}
use tt_riingd.Manager.{ControllerManager}
use tt_riingd.Monitoring.{MappingCache, MonitoringCache}
use tt_riingd.Monitoring.Tick.{
  MonitoringBuffer, empty_buffer, or_default, push_speed, speed_of_fan, process_fans,
  process_sensors, send_batch, collect_and_process_temperatures,
}

bind_assoc :
    {A B C : Type 0} (r : Result A) (f : A → Result B) (g : B → Result C)
    → (r >>= f) >>= g ≡ r >>= λ a. f a >>= g
bind_assoc (ok a) f g = refl
bind_assoc (err e) f g = refl
bind_assoc panic f g = refl

bind-ok : {A : Type 0} (r : Result A) → r >>= (λ a. ok a) ≡ r
bind-ok (ok a) = refl
bind-ok (err e) = refl
bind-ok panic = refl

bind-ext :
    {A B : Type 0} (r : Result A) {f g : A → Result B}
    → ((a : A) → f a ≡ g a)
    → (r >>= f) ≡ (r >>= g)
bind-ext (ok a) h = h a
bind-ext (err e) h = refl
bind-ext panic h = refl

-- The speeds for one controller, in their order.
abbrev pub speeds_for : String → List (FanRef × ℕ) → List (ℕ × ℕ)
speeds_for id [] = []
speeds_for id ((fan, speed) ∷ speeds) =
    if fan.controller_id == id
    then (fan.channel, speed) ∷ speeds_for id speeds
    else speeds_for id speeds

abbrev push_all : List (FanRef × ℕ) → Dict String (List (ℕ × ℕ)) → Dict String (List (ℕ × ℕ))
push_all [] batch = batch
push_all ((fan, speed) ∷ speeds) batch =
    push_all speeds (push_speed fan.controller_id (fan.channel, speed) batch)

if_pushed :
    (b : Bool) (id other : String) (entry : ℕ × ℕ) (batch : Dict String (List (ℕ × ℕ)))
    → (b ≡ true → other ≡ id)
    → or_default
        (if b then some (or_default (lookup other batch) ++ entry ∷ []) else lookup id batch)
      ≡ or_default (lookup id batch) ++ (if b then entry ∷ [] else [])
if_pushed true id other entry batch h = ap (λ k. or_default (lookup k batch) ++ entry ∷ []) (h refl)
if_pushed false id other entry batch h = sym (append-nil (or_default (lookup id batch)))

if_joined :
    (b : Bool) (xs : List (ℕ × ℕ)) (entry : ℕ × ℕ) (ys : List (ℕ × ℕ))
    → (xs ++ (if b then entry ∷ [] else [])) ++ ys ≡ xs ++ (if b then entry ∷ ys else ys)
if_joined true xs entry ys = append_assoc xs (entry ∷ []) ys
if_joined false xs entry ys = ap (λ l. l ++ ys) (append-nil xs)

or_default-push_speed :
    (id other : String) (entry : ℕ × ℕ) (batch : Dict String (List (ℕ × ℕ)))
    → or_default (lookup id (push_speed other entry batch))
      ≡ or_default (lookup id batch) ++ (if other == id then entry ∷ [] else [])
or_default-push_speed id other entry batch =
    ap or_default (lookup-insert other id (or_default (lookup other batch) ++ entry ∷ []) batch)
    ∙ if_pushed (other == id) id other entry batch (string_eq.beq_iff other id).0

lookup-push_all :
    (id : String) (speeds : List (FanRef × ℕ)) (batch : Dict String (List (ℕ × ℕ)))
    → or_default (lookup id (push_all speeds batch))
      ≡ or_default (lookup id batch) ++ speeds_for id speeds
lookup-push_all id [] batch = sym (append-nil (or_default (lookup id batch)))
lookup-push_all id ((fan, speed) ∷ speeds) batch =
    lookup-push_all id speeds (push_speed fan.controller_id (fan.channel, speed) batch)
    ∙ ap (λ l. l ++ speeds_for id speeds)
        (or_default-push_speed id fan.controller_id (fan.channel, speed) batch)
    ∙ if_joined (fan.controller_id == id) (or_default (lookup id batch)) (fan.channel, speed)
        (speeds_for id speeds)

push_all-append :
    (xs ys : List (FanRef × ℕ)) (batch : Dict String (List (ℕ × ℕ)))
    → push_all (xs ++ ys) batch ≡ push_all ys (push_all xs batch)
push_all-append [] ys batch = refl
push_all-append ((fan, speed) ∷ xs) ys batch =
    push_all-append xs ys (push_speed fan.controller_id (fan.channel, speed) batch)

push_all-IsMap :
    (speeds : List (FanRef × ℕ)) (batch : Dict String (List (ℕ × ℕ)))
    → IsMap batch
    → IsMap (push_all speeds batch)
push_all-IsMap [] batch h = h
push_all-IsMap ((fan, speed) ∷ speeds) batch h =
    let id = fan.controller_id in
    let entries = or_default (lookup id batch) ++ (fan.channel, speed) ∷ [] in
    push_all-IsMap speeds (insert id entries batch) (insert-IsMap id entries batch h)

module _ (R : Floats) (cache : MappingCache R.F) where
  -- Each fan of the sensors that could be read, with the temperature of its sensor.
  abbrev pub at_temp : R.F → List FanRef → List (FanRef × R.F)
  at_temp temp [] = []
  at_temp temp (fan ∷ fans) = (fan, temp) ∷ at_temp temp fans

  abbrev pub demands : List (String × Option R.F) → List (FanRef × R.F)
  demands [] = []
  demands ((key, some temp) ∷ sensors) =
      at_temp temp (fans_for_sensor cache.mappings key) ++ demands sensors
  demands ((key, none) ∷ sensors) = demands sensors

  -- The speeds that they call for, or the first failure.
  abbrev pub speeds_of : List (FanRef × R.F) → Result (List (FanRef × ℕ))
  speeds_of [] = ok []
  speeds_of ((fan, temp) ∷ ds) = speed_of_fan R cache temp fan >>= λ speed.
      speeds_of ds >>= λ speeds. ok ((fan, speed) ∷ speeds)

  abbrev temps_of : List (String × Option R.F) → Dict String R.F → Dict String R.F
  temps_of [] temps = temps
  temps_of ((key, some temp) ∷ sensors) temps = temps_of sensors (insert key temp temps)
  temps_of ((key, none) ∷ sensors) temps = temps_of sensors temps

  speeds_of-append :
      (xs ys : List (FanRef × R.F))
      → speeds_of (xs ++ ys) ≡ speeds_of xs >>= λ a. speeds_of ys >>= λ b. ok (a ++ b)
  speeds_of-append [] ys = sym (bind-ok (speeds_of ys))
  speeds_of-append ((fan, temp) ∷ xs) ys =
      bind-ext (speed_of_fan R cache temp fan) (λ speed.
        ap (λ r. r >>= λ speeds. ok ((fan, speed) ∷ speeds)) (speeds_of-append xs ys)
        ∙ bind_assoc (speeds_of xs) _ _
        ∙ bind-ext (speeds_of xs) (λ a. bind_assoc (speeds_of ys) _ _)
        ∙ sym (bind_assoc (speeds_of xs) _ _))
      ∙ sym (bind_assoc (speed_of_fan R cache temp fan) _ _)

  -- A buffer with more speeds.
  abbrev pushed : MonitoringBuffer R.F → List (FanRef × ℕ) → Result (MonitoringBuffer R.F)
  pushed buffer speeds = ok (record buffer { batch_data = push_all speeds buffer.batch_data })

  process_fans_lem :
      (temp : R.F) (fans : List FanRef) (buffer : MonitoringBuffer R.F)
      → process_fans R cache temp fans buffer ≡ speeds_of (at_temp temp fans) >>= pushed buffer
  unfolding process_fans
  process_fans_lem temp [] buffer = refl
  process_fans_lem temp (fan ∷ fans) buffer =
      bind-ext (speed_of_fan R cache temp fan) (λ speed.
        process_fans_lem temp fans (record buffer {
          batch_data = push_speed fan.controller_id (fan.channel, speed) buffer.batch_data;
        })
        ∙ sym (bind_assoc (speeds_of (at_temp temp fans)) _ _))
      ∙ sym (bind_assoc (speed_of_fan R cache temp fan) _ _)

  process_sensors_lem :
      (sensors : List (String × Option R.F)) (buffer : MonitoringBuffer R.F)
      → process_sensors R cache sensors buffer
        ≡ speeds_of (demands sensors)
          >>= pushed (record buffer { temp_data = temps_of sensors buffer.temp_data })
  unfolding process_sensors
  process_sensors_lem [] buffer = refl
  process_sensors_lem ((key, none) ∷ sensors) buffer = process_sensors_lem sensors buffer
  process_sensors_lem ((key, some temp) ∷ sensors) buffer =
      let fans = at_temp temp (fans_for_sensor cache.mappings key) in
      let buffer' : MonitoringBuffer R.F = record buffer {
        temp_data = insert key temp buffer.temp_data;
      } in
      ap (λ r. r >>= process_sensors R cache sensors)
        (process_fans_lem temp (fans_for_sensor cache.mappings key) buffer')
      ∙ bind_assoc (speeds_of fans) _ _
      ∙ bind-ext (speeds_of fans) (λ first.
        process_sensors_lem sensors
          (record buffer' { batch_data = push_all first buffer.batch_data })
        ∙ bind-ext (speeds_of (demands sensors)) (λ more.
          ap
            (λ batch.
              ok (record { batch_data = batch; temp_data = temps_of sensors buffer'.temp_data }))
            (sym (push_all-append first more buffer.batch_data)))
        ∙ sym (bind_assoc (speeds_of (demands sensors)) _ _))
      ∙ sym (bind_assoc (speeds_of fans) _ _)
      ∙ ap (λ r. r >>= pushed (record buffer { temp_data = temps_of sensors buffer'.temp_data }))
          (sym (speeds_of-append fans (demands sensors)))

  sorted_speeds :
      (r : Result (List (FanRef × ℕ))) (temps : Dict String R.F) (buffer : MonitoringBuffer R.F)
      → (r >>= pushed (record { batch_data = []; temp_data = temps })) ≡ ok buffer
      → (speeds : List (FanRef × ℕ)) × (r ≡ ok speeds)
        × ((id : String) → or_default (lookup id buffer.batch_data) ≡ speeds_for id speeds)
  unfolding lookup
  sorted_speeds (ok speeds) temps buffer e =
      let same : record { batch_data = push_all speeds []; temp_data = temps } ≡ buffer = cc in
      (
        speeds,
        refl,
        λ id.
            ap (λ b. or_default (lookup id b.batch_data)) (sym same) ∙ lookup-push_all id speeds [],
      )
  sorted_speeds (err reason) temps buffer e = cc
  sorted_speeds panic temps buffer e = cc

  -- When a tick has a batch, then every demand has a speed, and the batch holds for each controller
  -- the speeds of its fans, and no other, in the order of the demands.
  pub process_sensors-grouped :
      (sensors : List (String × Option R.F)) (buffer : MonitoringBuffer R.F)
      → process_sensors R cache sensors empty_buffer ≡ ok buffer
      → (speeds : List (FanRef × ℕ)) × (speeds_of (demands sensors) ≡ ok speeds)
        × ((id : String) → or_default (lookup id buffer.batch_data) ≡ speeds_for id speeds)
  process_sensors-grouped sensors buffer e =
      sorted_speeds (speeds_of (demands sensors)) (temps_of sensors []) buffer
        (sym (process_sensors_lem sensors empty_buffer) ∙ e)

  -- With a speed for every demand there is a batch, with one entry for a controller.
  pub batch_of_speeds :
      (sensors : List (String × Option R.F)) (speeds : List (FanRef × ℕ))
      → speeds_of (demands sensors) ≡ ok speeds
      → (buffer : MonitoringBuffer R.F) × (process_sensors R cache sensors empty_buffer ≡ ok buffer)
        × ((id : String) → or_default (lookup id buffer.batch_data) ≡ speeds_for id speeds)
        × IsMap buffer.batch_data
  unfolding lookup
  batch_of_speeds sensors speeds e =
      let temps = temps_of sensors [] in
      (
        record { batch_data = push_all speeds []; temp_data = temps },
        process_sensors_lem sensors empty_buffer
            ∙ ap (λ r. r >>= pushed (record { batch_data = []; temp_data = temps })) e,
        λ id. lookup-push_all id speeds [],
        push_all-IsMap speeds [] tt,
      )

module _ (R : Floats) (C : FanController) where
  -- The first fan without a speed ends the tick with its error: no controller gets a speed, and the
  -- temperatures that are kept are still the old ones.
  pub tick_aborts :
      (sensors : List (String × Option R.F)) (cache : MonitoringCache R.F) (m : ControllerManager C)
      (e : Error)
      → speeds_of R cache.mapping_cache (demands R cache.mapping_cache sensors) ≡ err e
      → collect_and_process_temperatures R C sensors cache m ≡ (err e, cache, m)
  unfolding collect_and_process_temperatures
  tick_aborts sensors cache m e h =
      ap (λ r. send_batch R C r cache m)
        (process_sensors_lem R cache.mapping_cache sensors empty_buffer
          ∙ ap
              (λ r.
                r
                >>= pushed R cache.mapping_cache (record {
                  batch_data = [];
                  temp_data = temps_of R cache.mapping_cache sensors [];
                }))
              h)
