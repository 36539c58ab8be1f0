-- ===== src/App/Lifecycle.antt =====
-- crates/tork-core/src/app.rs: startup, the serving of requests and shutdown; lifespan.rs: the cell
-- of a lifespan. What the program's own code does is open: whether a step fails may depend on all
-- the steps before it. Steps fail with errors; a panic in one is not modelled. The accept loop is one
-- step that ends at the shutdown signal. Log lines are left out.
pub mod Order
pub mod Nesting
pub mod Stack
use tork_framework.Base.{
  ℕ, ◌≡◌, ◌++◌, Bool, true, false, ◌&&◌, ◌||◌, not, Option, none, some, List, [], ◌∷◌, Text, bytes,
  is_empty, if◌then◌else◌, is_some,
}
use tork_framework.Error.{Error, Result, ok, err, ◌>>=◌, internal_error, with_code}

-- What can be seen of a run. A lifespan and a hook are numbers.
pub data Step : Type 0 where
  started failed_start stopped : ℕ → Step
  startup_hook shutdown_hook ready_hook : ℕ → Step
  bound served : Step

abbrev pub Trace : Type 0
Trace = List Step

-- The code behind the steps: the error of a step, if it fails behind the given steps.
pub record Program : Type 0 where
  pub start : Trace → ℕ → Option Error
  pub stop : Trace → ℕ → Option Error
  pub hook : Trace → Step → Option Error
  pub bind : Trace → Option Error

-- `LifespanCell`: whether it holds a container.
pub record Cell : Type 0 where
  pub id : ℕ
  pub has_container : Bool

abbrev pub new_cell : ℕ → Cell
new_cell i = record { id = i; has_container = false }

-- The fields of `App` that the lifecycle reads.
pub record Phases : Type 0 where
  pub lifespan : List Cell
  pub on_startup : List ℕ
  pub on_shutdown : List ℕ
  pub on_ready : List ℕ

abbrev pub is_nonempty {ℓ} : {A : Type ℓ} → List A → Bool
is_nonempty xs = not (is_empty xs)

abbrev pub lifecycle_conflict : Error
lifecycle_conflict = with_code (bytes "LIFECYCLE_CONFLICT") (
    internal_error (
      bytes "Cannot use `.lifespan(...)` together with `.on_startup(...)` or `.on_shutdown(...)`."
      ++ 10 ∷ bytes "Use either lifespan or event hooks, not both."))

unfoldable pub validate_lifecycle : Phases → Result (Unit {0})
validate_lifecycle a =
    if is_nonempty a.lifespan && (is_nonempty a.on_startup || is_nonempty a.on_shutdown)
    then err lifecycle_conflict
    else ok tt

-- A list put in front of another, its last element first: `rev` from nothing.
abbrev pub restore {ℓ} : {A : Type ℓ} → List A → List A → List A
restore [] ys = ys
restore (x ∷ xs) ys = restore xs (x ∷ ys)

abbrev pub result_of : Option Error → Result (Unit {0})
result_of none = ok tt
result_of (some e) = err e

module _ (p : Program) where
  -- `startup` of a cell.
  abbrev pub start_outcome : Cell → Trace → Option Error → (Cell × Trace) × Result (Unit {0})
  start_outcome c t none = ((record c { has_container = true }, t ++ started c.id ∷ []), ok tt)
  start_outcome c t (some e) = ((c, t ++ failed_start c.id ∷ []), err e)

  unfoldable pub start_cell : Cell → Trace → (Cell × Trace) × Result (Unit {0})
  start_cell c t = start_outcome c t (p.start t c.id)

  -- `shutdown` of a cell: the container is taken.
  unfoldable pub stop_cell : Cell → Trace → (Cell × Trace) × Result (Unit {0})
  stop_cell c t =
      if c.has_container
      then ((record c { has_container = false }, t ++ stopped c.id ∷ []), result_of (p.stop t c.id))
      else ((c, t), ok tt)

  -- Cells that are shut down in the given order, errors ignored.
  unfoldable pub stop_cells : List Cell → Trace → List Cell × Trace
  stop_cells [] t = ([], t)
  stop_cells (c ∷ cs) t =
      let r = stop_cell c t in let rest = stop_cells cs r.0.1 in (r.0.0 ∷ rest.0, rest.1)

  -- A failed startup rolls the started cells back, the last one first.
  abbrev pub rolled_back :
      List Cell → Cell → List Cell → Trace → Error → (List Cell × Trace) × Result (Unit {0})
  rolled_back done c cs t e = let r = stop_cells done t in ((restore r.0 (c ∷ cs), r.1), err e)

  -- One round of the loop of `run_startup`, with the cells that are started in front, the last one
  -- first.
  abbrev pub start_round :
      (List Cell → Trace → (List Cell × Trace) × Result (Unit {0}))
      → List Cell
      → List Cell
      → (Cell × Trace) × Result (Unit {0})
      → (List Cell × Trace) × Result (Unit {0})
  start_round again done cs ((c, t), ok u) = again (c ∷ done) t
  start_round again done cs ((c, t), err e) = rolled_back done c cs t e

  unfoldable pub start_cells :
      List Cell → List Cell → Trace → (List Cell × Trace) × Result (Unit {0})
  start_cells done [] t = ((restore done [], t), ok tt)
  start_cells done (c ∷ cs) t = start_round (λ d u. start_cells d cs u) done cs (start_cell c t)

  -- Hooks of which the first error ends the run.
  abbrev pub hook_round :
      (Trace → Trace × Result (Unit {0})) → Trace → Option Error → Trace × Result (Unit {0})
  hook_round again t none = again t
  hook_round again t (some e) = (t, err e)

  unfoldable pub run_hooks : (ℕ → Step) → List ℕ → Trace → Trace × Result (Unit {0})
  run_hooks step [] t = (t, ok tt)
  run_hooks step (i ∷ is) t = hook_round (run_hooks step is) (t ++ step i ∷ []) (p.hook t (step i))

  -- Hooks of which the errors are only logged.
  unfoldable pub run_all_hooks : (ℕ → Step) → List ℕ → Trace → Trace
  run_all_hooks step [] t = t
  run_all_hooks step (i ∷ is) t = run_all_hooks step is (t ++ step i ∷ [])

  abbrev pub with_cells :
      Phases → (List Cell × Trace) × Result (Unit {0}) → (Phases × Trace) × Result (Unit {0})
  with_cells a ((cs, t), r) = ((record a { lifespan = cs }, t), r)

  abbrev pub with_app : Phases → Trace × Result (Unit {0}) → (Phases × Trace) × Result (Unit {0})
  with_app a (t, r) = ((a, t), r)

  unfoldable pub run_startup : Phases → Trace → (Phases × Trace) × Result (Unit {0})
  run_startup a t =
      if is_nonempty a.lifespan
      then with_cells a (start_cells [] a.lifespan t)
      else with_app a (run_hooks startup_hook a.on_startup t)

  unfoldable pub run_shutdown : Phases → Trace → Phases × Trace
  run_shutdown a t =
      if is_nonempty a.lifespan
      then (let r = stop_cells (restore a.lifespan []) t in
          (record a { lifespan = restore r.0 [] }, r.1))
      else (a, run_all_hooks shutdown_hook a.on_shutdown t)

  -- The bind and the readiness hooks, the accept loop, and the shutdown.
  abbrev pub after_ready : Phases → Trace × Result (Unit {0}) → (Phases × Trace) × Result (Unit {0})
  after_ready a (t, err e) = ((a, t), err e)
  after_ready a (t, ok u) = (run_shutdown a (t ++ served ∷ []), ok tt)

  abbrev pub after_bind : Phases → Trace → Option Error → (Phases × Trace) × Result (Unit {0})
  after_bind a t (some e) = ((a, t), err e)
  after_bind a t none = after_ready a (run_hooks ready_hook a.on_ready (t ++ bound ∷ []))

  -- `built` is what `App::build` answers.
  abbrev pub after_startup :
      Option Error → (Phases × Trace) × Result (Unit {0}) → (Phases × Trace) × Result (Unit {0})
  after_startup built ((a, t), err e) = ((a, t), err e)
  after_startup (some e) ((a, t), ok u) = ((a, t), err e)
  after_startup none ((a, t), ok u) = after_bind a t (p.bind t)

  abbrev pub after_validation :
      Option Error → Phases → Trace → Result (Unit {0}) → (Phases × Trace) × Result (Unit {0})
  after_validation built a t (err e) = ((a, t), err e)
  after_validation built a t (ok u) = after_startup built (run_startup a t)

  -- `serve_listener`
  unfoldable pub serve : Option Error → Phases → Trace → (Phases × Trace) × Result (Unit {0})
  serve built a t = after_validation built a t (validate_lifecycle a)
