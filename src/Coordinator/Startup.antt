-- ===== src/Coordinator/Startup.antt =====
-- The order in which the services start, and what a start comes to.
use mathlib.Core.Path.{subst}
use tt_riingd.Common.{
  ℕ, ◌≤◌, List, [], ◌∷◌, ◌++◌, Bool, true, false, Result, Error, ok, err, panic, ◌≡◌, refl, ap, ◌∙◌,
  ◌↔◌, leb, leb_iff, eqb, if◌then◌else◌, Bool-cases, inl, inr, arith, sym, append-nil,
}
use tt_riingd.Tasks.{TaskManager}
use tt_riingd.Coordinator.Providers.{
  ServiceProvider, insert_provider, sort_providers, go_on, start_all_services,
}

abbrev IsBelow : ℕ → List ServiceProvider → Type 0
IsBelow k [] = Unit
IsBelow k (p ∷ ps) = p.priority ≤ k

-- The priorities do not rise.
abbrev pub IsDescending : List ServiceProvider → Type 0
IsDescending [] = Unit
IsDescending (p ∷ ps) = IsBelow p.priority ps × IsDescending ps

-- The providers with a priority, in their order.
abbrev pub with_priority : ℕ → List ServiceProvider → List ServiceProvider
with_priority k [] = []
with_priority k (p ∷ ps) = if eqb p.priority k then p ∷ with_priority k ps else with_priority k ps

insert-IsBelow :
    (k : ℕ) (p : ServiceProvider) (ps : List ServiceProvider)
    → p.priority ≤ k
    → IsBelow k ps
    → IsBelow k (insert_provider p ps)
unfolding insert_provider
insert-IsBelow k p [] h hs = h
insert-IsBelow k p (q ∷ ps) h hs = elim (Bool-cases (leb q.priority p.priority)) [
  | inl e ↦ rw e h
  | inr e ↦ rw e hs
]

insert-IsDescending :
    (p : ServiceProvider) (ps : List ServiceProvider)
    → IsDescending ps
    → IsDescending (insert_provider p ps)
unfolding insert_provider
insert-IsDescending p [] h = (tt, tt)
insert-IsDescending p (q ∷ ps) (below, h) = elim (Bool-cases (leb q.priority p.priority)) [
  | inl e ↦ rw e ((leb_iff q.priority p.priority).0 e, (below, h))
  | inr e ↦ rw e (
    insert-IsBelow q.priority p ps (ground (arith, leb_iff q.priority p.priority)) below,
    insert-IsDescending p ps h,
  )
]

insert-with_priority :
    (k : ℕ) (p : ServiceProvider) (ps : List ServiceProvider)
    → with_priority k (insert_provider p ps)
      ≡ (if eqb p.priority k then p ∷ with_priority k ps else with_priority k ps)
unfolding insert_provider
insert-with_priority k p [] = refl
insert-with_priority k p (q ∷ ps) = ground (arith, insert-with_priority k p ps)

-- The providers are sorted by descending priority, and those of one priority keep their order: none is
-- lost, and none is doubled.
pub sort_providers-IsDescending :
    (ps : List ServiceProvider)
    → IsDescending (sort_providers ps)
      × ((k : ℕ) → with_priority k (sort_providers ps) ≡ with_priority k ps)
unfolding sort_providers
sort_providers-IsDescending [] = (tt, λ k. refl)
sort_providers-IsDescending (p ∷ ps) =
    let (sorted, stable) = sort_providers-IsDescending ps in
    (
      insert-IsDescending p (sort_providers ps) sorted,
      λ k.
          insert-with_priority k p (sort_providers ps)
          ∙ ap (λ l. if eqb p.priority k then p ∷ l else l) (stable k),
    )

-- A start in order: each provider has started, or was not critical and failed.
pub data Starts : List ServiceProvider → TaskManager → TaskManager → Type 0 where
  none_left : {m : TaskManager} → Starts [] m m
  started :
      {p : ServiceProvider} {ps : List ServiceProvider} {m m' m'' : TaskManager}
      → p.start m ≡ (ok tt, m')
      → Starts ps m' m''
      → Starts (p ∷ ps) m m''
  skipped :
      {p : ServiceProvider} {ps : List ServiceProvider} {m m' m'' : TaskManager} {e : Error}
      → p.start m ≡ (err e, m')
      → p.is_critical ≡ false
      → Starts ps m' m''
      → Starts (p ∷ ps) m m''

-- Behind a start in order of the first providers, the others decide.
starts_first :
    {ps : List ServiceProvider} {m m' : TaskManager} (rest : List ServiceProvider)
    → Starts ps m m'
    → start_all_services (ps ++ rest) m ≡ start_all_services rest m'
unfolding start_all_services
starts_first rest none_left = refl
starts_first rest (started {p} {ps} e h) = rw e (starts_first rest h)
starts_first rest (skipped {p} {ps} e c h) = rw (e, c) (starts_first rest h)

-- A critical provider that fails ends the start with its error: the providers before it have started,
-- unless they failed and are not critical, and none behind it has.
pub start_all_services-stops :
    {ps : List ServiceProvider} {m m' m'' : TaskManager} {e : Error} (p : ServiceProvider)
    (behind : List ServiceProvider)
    → Starts ps m m'
    → p.start m' ≡ (err e, m'')
    → p.is_critical ≡ true
    → start_all_services (ps ++ p ∷ behind) m ≡ (err e, m'')
unfolding start_all_services
start_all_services-stops {m'} p behind h fails critical =
    starts_first (p ∷ behind) h ∙ rw (fails, critical) refl

in_order_from :
    (p : ServiceProvider) (ps : List ServiceProvider) (m m1 m' : TaskManager)
    (r : Result (Unit {0})) (c : Bool)
    → p.start m ≡ (r, m1)
    → p.is_critical ≡ c
    → go_on r c m1 (start_all_services ps m1) ≡ (ok tt, m')
    → (start_all_services ps m1 ≡ (ok tt, m') → Starts ps m1 m')
    → Starts (p ∷ ps) m m'
in_order_from p ps m m1 m' (ok t) c e f h rest = started e (rest h)
in_order_from p ps m m1 m' (err x) true e f h rest = cc
in_order_from p ps m m1 m' (err x) false e f h rest = skipped e f (rest h)
in_order_from p ps m m1 m' panic c e f h rest = cc

in_order :
    (ps : List ServiceProvider) (m m' : TaskManager)
    → start_all_services ps m ≡ (ok tt, m')
    → Starts ps m m'
unfolding start_all_services
in_order [] m m' h = subst (λ k. Starts [] m k) (ap (λ r. r.1) h) none_left
in_order (p ∷ ps) m m' h =
    in_order_from p ps m (p.start m).1 m' (p.start m).0 p.is_critical refl refl h
      (in_order ps (p.start m).1 m')

-- All services start just if each, in turn, starts, or fails and is not critical.
pub start_all_services_iff :
    (ps : List ServiceProvider) (m m' : TaskManager)
    → (start_all_services ps m ≡ (ok tt, m')) ↔ Starts ps m m'
unfolding start_all_services
start_all_services_iff ps m m' = (
  in_order ps m m',
  λ h. ap (λ l. start_all_services l m) (sym (append-nil ps)) ∙ starts_first [] h,
)
