-- ===== src/Batch/Tally.antt =====
-- What a batch counts, against its outcomes.
use tt_riingd.Common.{
  ℕ, suc, ◌+◌, ◌≡◌, refl, ap, List, [], ◌∷◌, String, Option, none, some, Bool, true, false, Result,
  ok, err, panic, length, if◌then◌else◌, string_eq, Dict, lookup, arith,
}
use tt_riingd.Worker.{FanController, Reply, Command, WorkerManager, try_request}
use tt_riingd.Batch.{
  Outcome, tally, update_one, update_blocking, send_one, sent_outcome, update_forgetting,
}

-- The outcomes of controllers whose worker was stopped.
abbrev skipped : List Outcome → ℕ
skipped [] = 0
skipped (none ∷ outcomes) = suc (skipped outcomes)
skipped (some o ∷ outcomes) = skipped outcomes

abbrev pub is_stopped : Option (Option ℕ) → ℕ
is_stopped (some none) = 1
is_stopped _ = 0

-- The entries for controllers that are known and have no worker.
abbrev pub stopped {ℓ} : {B : Type ℓ} → Dict String (Option ℕ) → Dict String B → ℕ
stopped ids [] = 0
stopped ids ((id, batch) ∷ entries) = is_stopped (lookup id ids) + stopped ids entries

abbrev is_failure : Result Reply → Bool
is_failure (ok r) = false
is_failure _ = true

-- Who took the batch, and who failed, one by one.
abbrev pub took : List Outcome → List String
took [] = []
took (none ∷ outcomes) = took outcomes
took (some (id, r) ∷ outcomes) = if is_failure r then took outcomes else id ∷ took outcomes

abbrev pub refused : List Outcome → List String
refused [] = []
refused (none ∷ outcomes) = refused outcomes
refused (some (id, r) ∷ outcomes) = if is_failure r then id ∷ refused outcomes else refused outcomes

pub tally-eq :
    (outcomes : List Outcome) → tally outcomes ≡ (length (took outcomes), refused outcomes)
unfolding tally
tally-eq [] = refl
tally-eq (none ∷ outcomes) = tally-eq outcomes
tally-eq (some (id, ok r) ∷ outcomes) =
    ap (λ (p : ℕ × List String). (suc p.0, p.1)) (tally-eq outcomes)
tally-eq (some (id, err e) ∷ outcomes) =
    ap (λ (p : ℕ × List String). (p.0, id ∷ p.1)) (tally-eq outcomes)
tally-eq (some (id, panic) ∷ outcomes) =
    ap (λ (p : ℕ × List String). (p.0, id ∷ p.1)) (tally-eq outcomes)

tally_total :
    (outcomes : List Outcome)
    → (tally outcomes).0 + length (tally outcomes).1 + skipped outcomes ≡ length outcomes
unfolding tally
tally_total [] = omega arith
tally_total (none ∷ outcomes) = omega (arith, tally_total outcomes)
tally_total (some (id, ok r) ∷ outcomes) = omega (arith, tally_total outcomes)
tally_total (some (id, err e) ∷ outcomes) = omega (arith, tally_total outcomes)
tally_total (some (id, panic) ∷ outcomes) = omega (arith, tally_total outcomes)

skipped-sent :
    (id : String) (b : Bool) (os : List Outcome) → skipped (sent_outcome id b ∷ os) ≡ skipped os
skipped-sent id true os = refl
skipped-sent id false os = refl

module _ {C : FanController} {B : Type 0} (command : B → Command)
    (ids : Dict String (Option ℕ)) where
  skipped-update_one :
      (o : Option (Option ℕ)) (id : String) (cmd : Command) (wm : WorkerManager C)
      (os : List Outcome)
      → skipped ((update_one C o id cmd wm).0 ∷ os) ≡ is_stopped o + skipped os
  skipped-update_one none id cmd wm os = omega arith
  skipped-update_one (some none) id cmd wm os = omega arith
  skipped-update_one (some (some worker)) id cmd wm os = omega arith

  skipped-send_one :
      (o : Option (Option ℕ)) (id : String) (cmd : Command) (wm : WorkerManager C)
      (os : List Outcome)
      → skipped ((send_one C o id cmd wm).0 ∷ os) ≡ is_stopped o + skipped os
  skipped-send_one none id cmd wm os = omega arith
  skipped-send_one (some none) id cmd wm os = omega arith
  skipped-send_one (some (some worker)) id cmd wm os =
      omega (arith, skipped-sent id (try_request C worker cmd wm).0 os)

  blocking_outcomes :
      (entries : Dict String B) (wm : WorkerManager C)
      → let outcomes = (update_blocking C command ids entries wm).0 in
        (length outcomes ≡ length entries) × (skipped outcomes ≡ stopped ids entries)
  unfolding update_blocking
  blocking_outcomes [] wm = (refl, refl)
  blocking_outcomes ((id, batch) ∷ entries) wm =
      let o = lookup id ids in
      let (o', wm') = update_one C o id (command batch) wm in
      let rest = blocking_outcomes entries wm' in
      (
        ap suc rest.0,
        omega (
          arith,
          rest.1,
          skipped-update_one o id (command batch) wm (update_blocking C command ids entries wm').0,
        ),
      )

  forgetting_outcomes :
      (entries : Dict String B) (wm : WorkerManager C)
      → let outcomes = (update_forgetting C command ids entries wm).0 in
        (length outcomes ≡ length entries) × (skipped outcomes ≡ stopped ids entries)
  unfolding update_forgetting
  forgetting_outcomes [] wm = (refl, refl)
  forgetting_outcomes ((id, batch) ∷ entries) wm =
      let o = lookup id ids in
      let (o', wm') = send_one C o id (command batch) wm in
      let rest = forgetting_outcomes entries wm' in
      (
        ap suc rest.0,
        omega (
          arith,
          rest.1,
          skipped-send_one o id (command batch) wm (update_forgetting C command ids entries wm').0,
        ),
      )

  pub blocking_counts :
      (entries : Dict String B) (wm : WorkerManager C)
      → let t = tally (update_blocking C command ids entries wm).0 in
        t.0 + length t.1 + stopped ids entries ≡ length entries
  blocking_counts entries wm =
      let outcomes = (update_blocking C command ids entries wm).0 in
      let counted = blocking_outcomes entries wm in
      omega (arith, tally_total outcomes, counted.0, counted.1)

  pub forgetting_counts :
      (entries : Dict String B) (wm : WorkerManager C)
      → let t = tally (update_forgetting C command ids entries wm).0 in
        t.0 + length t.1 + stopped ids entries ≡ length entries
  forgetting_counts entries wm =
      let outcomes = (update_forgetting C command ids entries wm).0 in
      let counted = forgetting_outcomes entries wm in
      omega (arith, tally_total outcomes, counted.0, counted.1)
