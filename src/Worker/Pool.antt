-- ===== src/Worker/Pool.antt =====
-- The workers of a manager: how they are numbered, and that they do not disturb one another.
use tt_riingd.Common.{
  ℕ, suc, ◌+◌, ◌≤◌, ◌<◌, ◌≡◌, ◌≢◌, refl, ap, inl, inr, List, [], ◌∷◌, Option, none, some, true,
  false, is_some, length, lookup, insert, lookup-insert, length-insert, nat_eq, Bool-cases, arith,
}
use tt_riingd.Worker.{
  FanController, Command, Worker, WorkerManager, new_manager, new_worker, start_worker, initialize,
  call, call_found, request, offer, offer_found, try_request,
}

module _ {C : FanController} where
  -- The workers carry the numbers from 1 up to the next one, each once.
  pub record IsPool (m : WorkerManager C) : Type 0 where
    pub next_pos : 1 ≤ m.next_worker_id
    pub count : suc (length m.workers) ≡ m.next_worker_id
    pub numbered :
        (id : ℕ) → is_some (lookup id m.workers) ≡ true → (1 ≤ id) × (id < m.next_worker_id)
    pub present : (id : ℕ) → 1 ≤ id → id < m.next_worker_id → is_some (lookup id m.workers) ≡ true

  pub new_manager-IsPool : IsPool (new_manager C)
  unfolding lookup
  new_manager-IsPool = record {
    next_pos = omega arith;
    count = omega arith;
    numbered = λ id h. absurd (cc);
    present = λ id p q. absurd (omega arith);
  }

  pub next_absent :
      (m : WorkerManager C) → IsPool m → is_some (lookup m.next_worker_id m.workers) ≡ false
  next_absent m v = elim (Bool-cases (is_some (lookup m.next_worker_id m.workers))) [
    | inl e ↦ absurd (omega (arith, v.numbered m.next_worker_id e))
    | inr e ↦ e
  ]

  -- A new worker takes the next number, as long as the numbers fit 32 bits.
  pub start_worker-IsPool :
      (s : C.State) (m : WorkerManager C)
      → IsPool m
      → m.next_worker_id + 1 < 4294967296
      → IsPool (start_worker C s m).1
  unfolding start_worker
  start_worker-IsPool s m v small = record {
    next_pos = omega arith;
    count = ground (
      arith,
      length-insert m.next_worker_id (new_worker C s) m.workers,
      next_absent m v,
      v.count,
    );
    numbered = λ id h. ground (
      arith,
      lookup-insert m.next_worker_id id (new_worker C s) m.workers,
      v.numbered id,
      v.next_pos,
    );
    present = λ id p q.
        ground (arith, lookup-insert m.next_worker_id id (new_worker C s) m.workers, v.present id);
  }

  -- Starting a worker for each of a list of controllers keeps the numbering: the new ones carry the
  -- next numbers, as long as these fit 32 bits.
  pub initialize-IsPool :
      (ss : List C.State) (m : WorkerManager C)
      → IsPool m
      → m.next_worker_id + length ss < 4294967296
      → IsPool (initialize C ss m)
  unfolding initialize
  initialize-IsPool [] m v small = v
  initialize-IsPool (s ∷ ss) m v small =
      initialize-IsPool ss (start_worker C s m).1 (start_worker-IsPool s m v (omega arith))
        (omega arith)

  pub replace-IsPool :
      (id : ℕ) (w w' : Worker C) (m : WorkerManager C)
      → lookup id m.workers ≡ some w
      → IsPool m
      → IsPool (record m { workers = insert id w' m.workers })
  replace-IsPool id w w' m e v = record {
    next_pos = v.next_pos;
    count = ground (arith, length-insert id w' m.workers, v.count);
    numbered = λ j h. ground (arith, lookup-insert id j w' m.workers, v.numbered j, v.numbered id);
    present = λ j p q. ground (arith, lookup-insert id j w' m.workers, v.present j);
  }

  call_found-IsPool :
      (o : Option (Worker C)) (id : ℕ) (cmd : Command) (m : WorkerManager C)
      → lookup id m.workers ≡ o
      → IsPool m
      → IsPool (call_found C o id cmd m).1
  call_found-IsPool none id cmd m e v = v
  call_found-IsPool (some w) id cmd m e v = replace-IsPool id w (call C cmd w).1 m e v

  offer_found-IsPool :
      (o : Option (Worker C)) (id : ℕ) (cmd : Command) (m : WorkerManager C)
      → lookup id m.workers ≡ o
      → IsPool m
      → IsPool (offer_found C o id cmd m).1
  offer_found-IsPool none id cmd m e v = v
  offer_found-IsPool (some w) id cmd m e v = replace-IsPool id w (offer C cmd w).1 m e v

  -- A call, and an offer, keep the numbering, whatever they do to their worker.
  pub request-IsPool :
      (id : ℕ) (cmd : Command) (m : WorkerManager C)
      → IsPool m
      → IsPool (request C id cmd m).1 × IsPool (try_request C id cmd m).1
  unfolding request try_request
  request-IsPool id cmd m v = (
    call_found-IsPool (lookup id m.workers) id cmd m refl v,
    offer_found-IsPool (lookup id m.workers) id cmd m refl v,
  )

  call_found_other :
      (o : Option (Worker C)) (id j : ℕ) (cmd : Command) (m : WorkerManager C)
      → id ≢ j
      → lookup j (call_found C o id cmd m).1.workers ≡ lookup j m.workers
  call_found_other none id j cmd m ne = refl
  call_found_other (some w) id j cmd m ne =
      ground (arith, lookup-insert id j (call C cmd w).1 m.workers)

  -- A call touches no worker but its own.
  pub request_other :
      (id j : ℕ) (cmd : Command) (m : WorkerManager C)
      → id ≢ j
      → lookup j (request C id cmd m).1.workers ≡ lookup j m.workers
  unfolding request
  request_other id j cmd m ne = call_found_other (lookup id m.workers) id j cmd m ne

  pub request-found :
      (id : ℕ) (cmd : Command) (m : WorkerManager C) (w : Worker C)
      → lookup id m.workers ≡ some w
      → request C id cmd m
        ≡ ((call C cmd w).0, record m { workers = insert id (call C cmd w).1 m.workers })
  unfolding request
  request-found id cmd m w e = ap (λ o. call_found C o id cmd m) e
