-- ===== src/Batch/Delivery.antt =====
-- Which worker gets which entry of a batch.
use tt_riingd.Common.{
  ℕ, ◌≡◌, ◌≢◌, refl, ap, sym, ◌∙◌, inl, inr, [], ◌∷◌, String, Option, none, some, true, false,
  is_some, string_eq, nat_eq, ◌==◌, ==_refl, Dict, lookup, lookup-insert, IsMap, Bool-cases,
  if◌then◌else◌, arith,
}
use tt_riingd.Worker.{FanController, Command, Worker, WorkerManager, call}
use tt_riingd.Worker.Pool.{request_other, request-found}
use tt_riingd.Batch.{update_one, update_blocking}

-- The ids name different workers.
abbrev pub AreDistinct : Dict String (Option ℕ) → Type 0
AreDistinct ids =
    (a b : String) (worker : ℕ)
    → lookup a ids ≡ some (some worker)
    → lookup b ids ≡ some (some worker)
    → a ≡ b

absent_above :
    {B : Type 0} (id other : String) (batch : B) (entries : Dict String B)
    → is_some (lookup id ((other, batch) ∷ entries)) ≡ false
    → ((other == id) ≡ false) × (is_some (lookup id entries) ≡ false)
unfolding lookup
absent_above id other batch entries h = ground arith

module _ {C : FanController} {B : Type 0} (command : B → Command) where
  -- A worker behind the entry for its controller.
  abbrev pub served : Option B → Worker C → Worker C
  served none w = w
  served (some batch) w = (call C (command batch) w).1

module _ {C : FanController} {B : Type 0} (command : B → Command) (ids : Dict String (Option ℕ))
    (distinct : AreDistinct ids) (id : String) (k : ℕ)
    (assigned : lookup id ids ≡ some (some k)) where
  update_one_other :
      (o : Option (Option ℕ)) (other : String) (cmd : Command) (wm : WorkerManager C)
      → o ≢ some (some k)
      → lookup k (update_one C o other cmd wm).1.workers ≡ lookup k wm.workers
  update_one_other none other cmd wm ne = refl
  update_one_other (some none) other cmd wm ne = refl
  update_one_other (some (some worker)) other cmd wm ne =
      request_other worker k cmd wm (λ e. ne (ap (λ n. some (some n)) e))

  passed_over :
      (other : String) (cmd : Command) (wm : WorkerManager C)
      → (other == id) ≡ false
      → lookup k (update_one C (lookup other ids) other cmd wm).1.workers ≡ lookup k wm.workers
  passed_over other cmd wm ne =
      update_one_other (lookup other ids) other cmd wm
        (λ e. absurd (ground (arith, distinct other id k e assigned, string_eq.beq_iff other id)))

  -- Without an entry for it, a worker is left alone.
  update_blocking_absent :
      (entries : Dict String B) (wm : WorkerManager C)
      → is_some (lookup id entries) ≡ false
      → lookup k (update_blocking C command ids entries wm).1.workers ≡ lookup k wm.workers
  unfolding update_blocking
  update_blocking_absent [] wm h = refl
  update_blocking_absent ((other, batch) ∷ entries) wm h =
      let (ne, rest) = absent_above id other batch entries h in
      update_blocking_absent entries (update_one C (lookup other ids) other (command batch) wm).1
        rest
      ∙ passed_over other (command batch) wm ne

  update_one_found :
      (other : String) (cmd : Command) (wm : WorkerManager C) (w : Worker C)
      → (other == id) ≡ true
      → lookup k wm.workers ≡ some w
      → lookup k (update_one C (lookup other ids) other cmd wm).1.workers ≡ some (call C cmd w).1
  update_one_found other cmd wm w e here =
      let same : other ≡ id = (string_eq.beq_iff other id).0 e in
      ap (λ i. lookup k (update_one C (lookup i ids) i cmd wm).1.workers) same
      ∙ ap (λ o. lookup k (update_one C o id cmd wm).1.workers) assigned
      ∙ ap (λ r. lookup k r.1.workers) (request-found k cmd wm w here)
      ∙ lookup-insert k k (call C cmd w).1 wm.workers
      ∙ rw (==_refl k) refl

  served_above :
      (other : String) (batch : B) (entries : Dict String B) (w : Worker C)
      → served command (lookup id ((other, batch) ∷ entries)) w ≡ (
          if other == id
          then (call C (command batch) w).1
          else served command (lookup id entries) w)
  unfolding lookup
  served_above other batch entries w = ground arith

  -- A worker serves the entry for its controller, once, and is left alone without one.
  pub update_blocking-served :
      (entries : Dict String B) (wm : WorkerManager C) (w : Worker C)
      → IsMap entries
      → lookup k wm.workers ≡ some w
      → lookup k (update_blocking C command ids entries wm).1.workers
        ≡ some (served command (lookup id entries) w)
  unfolding update_blocking
  update_blocking-served [] wm w h here = unfold lookup in here
  update_blocking-served ((other, batch) ∷ entries) wm w (once, h) here =
      let wm' = (update_one C (lookup other ids) other (command batch) wm).1 in
      elim (Bool-cases (other == id)) [
        | inl e ↦
            update_blocking_absent entries wm'
              (ap (λ i. is_some (lookup i entries)) (sym ((string_eq.beq_iff other id).0 e)) ∙ once)
            ∙ update_one_found other (command batch) wm w e here
            ∙ sym (ap some (served_above other batch entries w ∙ rw e refl))
        | inr ne ↦
            update_blocking-served entries wm' w h (passed_over other (command batch) wm ne ∙ here)
            ∙ sym (ap some (served_above other batch entries w ∙ rw ne refl))
      ]
