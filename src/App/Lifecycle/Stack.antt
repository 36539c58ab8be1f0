-- ===== src/App/Lifecycle/Stack.antt =====
-- The run of an application against the stack of the lifespans that are up.
use tork_framework.Base.{
  ℕ, ◌≡◌, refl, sym, ap, ◌∙◌, ◌⊎◌, inl, inr, ◌++◌, none, some, Option, List, [], ◌∷◌, map,
  append-nil, and_then, true,
}
use tork_framework.Error.{Error, Result, ok, err}
use tork_framework.App.Lifecycle.{
  Step, started, failed_start, stopped, ready_hook, bound, Trace, Program, new_cell, Phases, Cell,
  restore, start_cell, start_cells, run_hooks, run_startup, validate_lifecycle, after_ready,
  after_startup, serve,
}
use tork_framework.App.Lifecycle.Nesting.{
  replay, replay-append, replay-started, replay-stopped, replay-quiet, whole_trace, Ending, refused,
  rolled, halted, halted_ready, whole, serve-Ending,
}

replay-all_started :
    (ids : List ℕ) (t : Trace) → replay (map started ids ++ t) [] ≡ replay t (restore ids [])
replay-all_started ids t =
    replay-append (map started ids) t [] ∙ ap (λ o. and_then o (replay t)) (replay-started ids [])

replay-all_stopped : (ids : List ℕ) → replay (map stopped ids) ids ≡ some []
replay-all_stopped ids =
    ap (replay (map stopped ids)) (sym (append-nil ids)) ∙ replay-stopped ids []

replay-quiet_then :
    (ready : List ℕ) (t : Trace) (up : List ℕ)
    → replay (bound ∷ (map ready_hook ready ++ t)) up ≡ replay t up
unfolding replay
replay-quiet_then ready t up =
    replay-append (map ready_hook ready) t up
    ∙ ap (λ o. and_then o (replay t)) (replay-quiet ready_hook ready up (λ i u. refl))

replay-rolled :
    (before : List ℕ) (failing : ℕ)
    → replay (map started before ++ failed_start failing ∷ map stopped (restore before [])) []
      ≡ some []
unfolding replay
replay-rolled before failing = replay-all_started before _ ∙ replay-all_stopped (restore before [])

replay-whole : (ids ready : List ℕ) (p : Program) → replay (whole_trace p ids ready) [] ≡ some []
unfolding replay
replay-whole ids ready p =
    replay-all_started ids _
    ∙ replay-quiet_then ready _ (restore ids [])
    ∙ replay-all_stopped (restore ids [])

module _ (p : Program) where
  -- What a run leaves up: nothing, or all of the lifespans, where the run halted with an error
  -- behind a startup that went well.
  abbrev pub LeavesUp : List ℕ → Result (Unit {0}) → List ℕ → Type 0
  LeavesUp ids answer up = (up ≡ []) ⊎ ((up ≡ restore ids []) × ((e : Error) × (answer ≡ err e)))

  Ending-replay :
      (ids ready : List ℕ) (out : (Phases × Trace) × Result (Unit {0}))
      → Ending p ids ready out
      → (up : List ℕ) × (replay out.0.1 [] ≡ some up) × LeavesUp ids out.1 up
  unfolding replay
  Ending-replay ids ready out (refused e a t) = ([], rw t refl, inl refl)
  Ending-replay ids ready out (rolled before later failing e s a t) =
      ([], ap (λ x. replay x []) t ∙ replay-rolled before failing, inl refl)
  Ending-replay ids ready out (halted e a t) =
      (restore ids [], ap (λ x. replay x []) t ∙ replay-started ids [], inr (refl, (e, a)))
  Ending-replay ids ready out (halted_ready e those a t) = (
    restore ids [],
    ap (λ x. replay x []) t
        ∙ replay-all_started ids _
        ∙ replay-quiet ready_hook those (restore ids []) (λ i u. refl),
    inr (refl, (e, a)),
  )
  Ending-replay ids ready out (whole u a t) =
      ([], ap (λ x. replay x []) t ∙ replay-whole ids ready p, inl refl)

  -- Every run of an application with lifespans, whatever fails in it, is a run of a stack: a
  -- lifespan is stopped only while it is the one on top, that started last. In the end the stack is
  -- empty, or it holds all of the lifespans, and then the run answered with an error.
  pub serve-replay :
      (a : Phases) (i : ℕ) (ids : List ℕ) (built : Option Error)
      → a.lifespan ≡ map new_cell (i ∷ ids)
      → (up : List ℕ) × (replay (serve p built a []).0.1 [] ≡ some up)
        × LeavesUp (i ∷ ids) (serve p built a []).1 up
  serve-replay a i ids built fresh =
      Ending-replay (i ∷ ids) a.on_ready _ (serve-Ending p a i ids built fresh)

  serve-whole :
      (a : Phases) (i : ℕ) (ids : List ℕ) (built : Option Error) (u : Unit {0})
      → a.lifespan ≡ map new_cell (i ∷ ids)
      → (serve p built a []).1 ≡ ok u
      → (serve p built a []).0.1 ≡ whole_trace p (i ∷ ids) a.on_ready
  serve-whole a i ids built u fresh done = go (serve-Ending p a i ids built fresh)
    where
      clash : {e : Error} → err e ≡ ok u → ⊥
      clash q = cc

      go :
          Ending p (i ∷ ids) a.on_ready (serve p built a [])
          → (serve p built a []).0.1 ≡ whole_trace p (i ∷ ids) a.on_ready
      go (refused e b t) = absurd (clash (sym b ∙ done))
      go (rolled before later failing e s b t) = absurd (clash (sym b ∙ done))
      go (halted e b t) = absurd (clash (sym b ∙ done))
      go (halted_ready e those b t) = absurd (clash (sym b ∙ done))
      go (whole v b t) = t

  -- No step of the program fails.
  pub record NeverFails : Type 0 where
    pub start : (t : Trace) (i : ℕ) → p.start t i ≡ none
    pub hook : (t : Trace) (s : Step) → p.hook t s ≡ none
    pub bind : (t : Trace) → p.bind t ≡ none

  start_cells-ok :
      (done cs : List Cell) (t : Trace) → NeverFails → (start_cells p done cs t).1 ≡ ok tt
  unfolding start_cells start_cell
  start_cells-ok done [] t n = refl
  start_cells-ok done (c ∷ cs) t n =
      rw (n.start t c.id)
        (start_cells-ok (record c { has_container = true } ∷ done) cs (t ++ started c.id ∷ []) n)

  run_hooks-ok :
      (step : ℕ → Step) (is : List ℕ) (t : Trace) → NeverFails → (run_hooks p step is t).1 ≡ ok tt
  unfolding run_hooks
  run_hooks-ok step [] t n = refl
  run_hooks-ok step (i ∷ is) t n =
      rw (n.hook t (step i)) (run_hooks-ok step is (t ++ step i ∷ []) n)

  after_ready-ok :
      (a : Phases) (out : Trace × Result (Unit {0}))
      → out.1 ≡ ok tt
      → (after_ready p a out).1 ≡ ok tt
  after_ready-ok a (t, ok u) e = refl
  after_ready-ok a (t, err x) e = e

  after_startup-ok :
      (out : (Phases × Trace) × Result (Unit {0}))
      → NeverFails
      → out.1 ≡ ok tt
      → (after_startup p none out).1 ≡ ok tt
  after_startup-ok ((a, t), ok u) n e =
      rw (n.bind t) (after_ready-ok a _ (run_hooks-ok ready_hook a.on_ready (t ++ bound ∷ []) n))
  after_startup-ok ((a, t), err x) n e = e

  serve-ok :
      (a : Phases) (i : ℕ) (ids : List ℕ)
      → a.lifespan ≡ map new_cell (i ∷ ids)
      → a.on_startup ≡ []
      → a.on_shutdown ≡ []
      → NeverFails
      → (serve p none a []).1 ≡ ok tt
  unfolding serve validate_lifecycle run_startup
  serve-ok a i ids fresh up down n =
      rw (fresh, up, down) (after_startup-ok _ n (start_cells-ok [] (map new_cell (i ∷ ids)) [] n))

  -- If no step of the program fails, and there are no startup or shutdown hooks beside the
  -- lifespans, then the run answers without an error, and its steps are: the start of each lifespan
  -- in order, the bind, the readiness hooks, the serving, and the stop of each lifespan, the last
  -- one first.
  pub serve_stops :
      (a : Phases) (i : ℕ) (ids : List ℕ)
      → a.lifespan ≡ map new_cell (i ∷ ids)
      → a.on_startup ≡ []
      → a.on_shutdown ≡ []
      → NeverFails
      → ((serve p none a []).1 ≡ ok tt)
        × ((serve p none a []).0.1 ≡ whole_trace p (i ∷ ids) a.on_ready)
  serve_stops a i ids fresh up down n =
      let done = serve-ok a i ids fresh up down n in (done, serve-whole a i ids none tt fresh done)
