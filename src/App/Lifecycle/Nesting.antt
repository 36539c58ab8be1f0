-- ===== src/App/Lifecycle/Nesting.antt =====
-- A whole run: what it shows, and that its starts and stops are those of a stack.
use tork_framework.Base.{
  ℕ, ◌≡◌, refl, sym, ap, ◌∙◌, ◌⊎◌, inl, inr, ◌++◌, Option, none, some, List, [], ◌∷◌, map,
  append_assoc, append-nil, arith, Option-cases, if◌then◌else◌, and_then, ◌==◌,
}
use tork_framework.Error.{Error, Result, ok, err}
use tork_framework.App.Lifecycle.{
  Step, started, failed_start, stopped, ready_hook, bound, served, Trace, Program, Cell, new_cell,
  Phases, restore, start_cells, stop_cells, run_hooks, run_startup, run_shutdown,
  validate_lifecycle, with_cells, serve, startup_hook, shutdown_hook, after_startup,
  after_validation, after_bind, after_ready, hook_round,
}
use tork_framework.App.Lifecycle.Order.{
  full, AllStarted, RolledBack, start_cells-new, stop_cells-full, restore-map,
}

-- The lifespans that are up, the last one on top. A start puts one on it, a stop takes the top off;
-- a stop of anything else is no step of this machine.
abbrev pub popped : ℕ → List ℕ → Option (List ℕ)
popped i [] = none
popped i (j ∷ up) = if i == j then some up else none

abbrev pub replay_step : Step → List ℕ → Option (List ℕ)
replay_step (started i) up = some (i ∷ up)
replay_step (stopped i) up = popped i up
replay_step (failed_start i) up = some up
replay_step (startup_hook i) up = some up
replay_step (shutdown_hook i) up = some up
replay_step (ready_hook i) up = some up
replay_step bound up = some up
replay_step served up = some up

unfoldable pub replay : Trace → List ℕ → Option (List ℕ)
replay [] up = some up
replay (s ∷ t) up = and_then (replay_step s up) (replay t)

pub replay-append :
    (t u : Trace) (up : List ℕ) → replay (t ++ u) up ≡ and_then (replay t up) (replay u)
unfolding replay
replay-append [] u up = refl
replay-append (s ∷ t) u up = elim (Option-cases (replay_step s up)) [
  | inl e ↦ rw e refl
  | inr (up', e) ↦ rw e (replay-append t u up')
]

pub replay-started : (is : List ℕ) (up : List ℕ) → replay (map started is) up ≡ some (restore is up)
unfolding replay
replay-started [] up = refl
replay-started (i ∷ is) up = replay-started is (i ∷ up)

popped_top : (i : ℕ) (up : List ℕ) → popped i (i ∷ up) ≡ some up
popped_top i up = ground arith

pub replay-stopped : (is up : List ℕ) → replay (map stopped is) (is ++ up) ≡ some up
unfolding replay
replay-stopped [] up = refl
replay-stopped (i ∷ is) up = rw (popped_top i (is ++ up)) (replay-stopped is up)

-- Steps that neither start nor stop a lifespan.
abbrev pub IsQuiet : (ℕ → Step) → Type 0
IsQuiet step = (i : ℕ) (up : List ℕ) → replay_step (step i) up ≡ some up

pub replay-quiet :
    (step : ℕ → Step) (is up : List ℕ) → IsQuiet step → replay (map step is) up ≡ some up
unfolding replay
replay-quiet step [] up q = refl
replay-quiet step (i ∷ is) up q = rw (q i up) (replay-quiet step is up q)

restore-append : {A : Type 0} (xs ys zs : List A) → restore xs (ys ++ zs) ≡ restore xs ys ++ zs
restore-append [] ys zs = refl
restore-append (x ∷ xs) ys zs = restore-append xs (x ∷ ys) zs

module _ (p : Program) where
  -- The hooks that ran: all of them, if no error ended the run.
  pub record Ran (step : ℕ → Step) (is : List ℕ) (t : Trace) (out : Trace × Result (Unit {0}))
      : Type 0 where
    pub those : List ℕ
    pub trace : out.0 ≡ t ++ map step those
    pub complete : (u : Unit {0}) → out.1 ≡ ok u → those ≡ is

  Ran-cons :
      (step : ℕ → Step) (i : ℕ) (is : List ℕ) (t : Trace) (o : Option Error)
      → Ran step is (t ++ step i ∷ []) (run_hooks p step is (t ++ step i ∷ []))
      → Ran step (i ∷ is) t (hook_round p (run_hooks p step is) (t ++ step i ∷ []) o)
  Ran-cons step i is t none next = record {
    those = i ∷ next.those;
    trace = next.trace ∙ append_assoc t (step i ∷ []) (map step next.those);
    complete = λ u e. ap (λ js. i ∷ js) (next.complete u e);
  }
  Ran-cons step i is t (some x) next = record {
    those = i ∷ [];
    trace = refl;
    complete = λ u e. absurd (not_ok e);
  }
    where
      not_ok : {u : Unit {0}} → err x ≡ ok u → ⊥
      not_ok e = cc

  pub run_hooks-Ran :
      (step : ℕ → Step) (is : List ℕ) (t : Trace) → Ran step is t (run_hooks p step is t)
  unfolding run_hooks
  run_hooks-Ran step [] t = record {
    those = [];
    trace = sym (append-nil t);
    complete = λ u e. refl;
  }
  run_hooks-Ran step (i ∷ is) t =
      Ran-cons step i is t (p.hook t (step i)) (run_hooks-Ran step is (t ++ step i ∷ []))

  -- The trace of a run that ends well: every lifespan is started in order, the socket is bound, the
  -- readiness hooks run, requests are served, and every lifespan is stopped, the last one first.
  abbrev pub whole_trace : List ℕ → List ℕ → Trace
  whole_trace ids ready =
      map started ids ++ (bound ∷ (map ready_hook ready ++ served ∷ map stopped (restore ids [])))

  pub data Ending (ids : List ℕ) (ready : List ℕ) (out : (Phases × Trace) × Result (Unit {0}))
      : Type 0 where
    refused : (e : Error) → out.1 ≡ err e → out.0.1 ≡ [] → Ending ids ready out
    rolled :
        (before later : List ℕ) (failing : ℕ) (e : Error)
        → ids ≡ before ++ failing ∷ later
        → out.1 ≡ err e
        → out.0.1 ≡ map started before ++ failed_start failing ∷ map stopped (restore before [])
        → Ending ids ready out
    halted : (e : Error) → out.1 ≡ err e → out.0.1 ≡ map started ids → Ending ids ready out
    halted_ready :
        (e : Error) (those : List ℕ)
        → out.1 ≡ err e
        → out.0.1 ≡ map started ids ++ bound ∷ map ready_hook those
        → Ending ids ready out
    whole : (u : Unit {0}) → out.1 ≡ ok u → out.0.1 ≡ whole_trace ids ready → Ending ids ready out

  shutdown-full :
      (a : Phases) (i : ℕ) (ids : List ℕ) (t : Trace)
      → (run_shutdown p (record a { lifespan = map full (i ∷ ids) }) t).1
        ≡ t ++ map stopped (restore (i ∷ ids) [])
  unfolding run_shutdown
  shutdown-full a i ids t =
      ap (λ cs. (stop_cells p cs t).1) (restore-map p (i ∷ ids) [])
      ∙ ap (λ r. r.1) (stop_cells-full p (restore (i ∷ ids) []) t)

  -- Behind a startup that went well.
  after_ready-Ending :
      (a : Phases) (i : ℕ) (ids : List ℕ) (ready : List ℕ) (r : Trace × Result (Unit {0}))
      → Ran ready_hook ready (map started (i ∷ ids) ++ bound ∷ []) r
      → Ending (i ∷ ids) ready (after_ready p (record a { lifespan = map full (i ∷ ids) }) r)
  after_ready-Ending a i ids ready (t, err e) ran =
      halted_ready e ran.those refl
        (ran.trace ∙ append_assoc (map started (i ∷ ids)) (bound ∷ []) (map ready_hook ran.those))
  after_ready-Ending a i ids ready (t, ok u) ran =
      let all : t ≡ map started (i ∷ ids) ++ bound ∷ map ready_hook ready =
        ran.trace
        ∙ append_assoc (map started (i ∷ ids)) (bound ∷ []) (map ready_hook ran.those)
        ∙ ap (λ js. map started (i ∷ ids) ++ bound ∷ map ready_hook js) (ran.complete u refl) in
      whole tt refl (
        shutdown-full a i ids (t ++ served ∷ [])
        ∙ append_assoc t (served ∷ []) _
        ∙ ap (λ x. x ++ served ∷ map stopped (restore (i ∷ ids) [])) all
        ∙ append_assoc (map started (i ∷ ids)) (bound ∷ map ready_hook ready) _)

  after_bind-Ending :
      (a : Phases) (i : ℕ) (ids : List ℕ) (o : Option Error)
      → Ending
          (i ∷ ids)
          a.on_ready
          (after_bind p (record a { lifespan = map full (i ∷ ids) }) (map started (i ∷ ids)) o)
  after_bind-Ending a i ids (some e) = halted e refl refl
  after_bind-Ending a i ids none =
      after_ready-Ending a i ids a.on_ready _
        (run_hooks-Ran ready_hook a.on_ready (map started (i ∷ ids) ++ bound ∷ []))

  after_startup-Ending :
      (a : Phases) (i : ℕ) (ids : List ℕ) (built : Option Error)
      (out : (List Cell × Trace) × Result (Unit {0}))
      → AllStarted p (i ∷ ids) [] [] out ⊎ RolledBack p (i ∷ ids) [] [] out
      → Ending (i ∷ ids) a.on_ready (after_startup p built (with_cells p a out))
  after_startup-Ending a i ids built ((cs, t), r) (inl s) =
      rw (s.answer, s.cells, s.trace) (go built)
    where
      go :
          (b : Option Error)
          → Ending (i ∷ ids) a.on_ready (
              after_startup p b
                ((record a { lifespan = map full (i ∷ ids) }, map started (i ∷ ids)), ok tt))
      go (some e) = halted e refl refl
      go none = after_bind-Ending a i ids (p.bind (map started (i ∷ ids)))
  after_startup-Ending a i ids built ((cs, t), r) (inr s) =
      rw (s.answer, s.trace) (rolled s.before s.later s.failing s.reason s.split refl refl)

  run_startup-new :
      (a : Phases) (i : ℕ) (ids : List ℕ)
      → a.lifespan ≡ map new_cell (i ∷ ids)
      → run_startup p a [] ≡ with_cells p a (start_cells p [] (map new_cell (i ∷ ids)) [])
  unfolding run_startup
  run_startup-new a i ids e = rw e refl

  -- How a run of an application with lifespans ends, whatever the program's own code answers: the
  -- configuration is refused, a failed startup is rolled back, the run halts behind the startup, or
  -- it is whole.
  pub serve-Ending :
      (a : Phases) (i : ℕ) (ids : List ℕ) (built : Option Error)
      → a.lifespan ≡ map new_cell (i ∷ ids)
      → Ending (i ∷ ids) a.on_ready (serve p built a [])
  unfolding serve
  serve-Ending a i ids built fresh = go (validate_lifecycle a)
    where
      go : (v : Result (Unit {0})) → Ending (i ∷ ids) a.on_ready (after_validation p built a [] v)
      go (err e) = refused e refl refl
      go (ok u) =
          rw (run_startup-new a i ids fresh)
            (after_startup-Ending a i ids built _ (start_cells-new p (i ∷ ids) [] []))
