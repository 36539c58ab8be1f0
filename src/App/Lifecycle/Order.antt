-- ===== src/App/Lifecycle/Order.antt =====
-- In which order lifespans start and stop, whatever the program's own code answers.
use tork_framework.Base.{
  ℕ, ◌≡◌, refl, sym, ap, ◌∙◌, ◌⊎◌, inl, inr, ◌++◌, true, none, some, List, [], ◌∷◌, map,
  append_assoc, append-nil, Option-cases,
}
use tork_framework.Error.{Error, Result, ok, err}
use tork_framework.App.Lifecycle.{
  started, failed_start, stopped, Trace, Program, Cell, new_cell, restore, start_cell, start_cells,
  stop_cell, stop_cells,
}

-- A cell that holds a container.
abbrev pub full : ℕ → Cell
full i = record { id = i; has_container = true }

module _ (p : Program) where
  pub stop_cells-full :
      (is : List ℕ) (t : Trace)
      → stop_cells p (map full is) t ≡ (map new_cell is, t ++ map stopped is)
  unfolding stop_cells stop_cell
  stop_cells-full [] t = ap (λ x. ([], x)) (sym (append-nil t))
  stop_cells-full (i ∷ is) t =
      rw
        (stop_cells-full is (t ++ stopped i ∷ []), append_assoc t (stopped i ∷ []) (map stopped is))
        refl

  -- How a startup of new cells ends: all have started, in order; or one failed, the ones before it
  -- were stopped again, the last one first, and the ones behind it were not started.
  pub record AllStarted (ids dids : List ℕ) (t : Trace)
      (out : (List Cell × Trace) × Result (Unit {0})) : Type 0 where
    pub answer : out.1 ≡ ok tt
    pub cells : out.0.0 ≡ map full (restore dids ids)
    pub trace : out.0.1 ≡ t ++ map started ids

  pub record RolledBack (ids dids : List ℕ) (t : Trace)
      (out : (List Cell × Trace) × Result (Unit {0})) : Type 0 where
    pub before : List ℕ
    pub failing : ℕ
    pub later : List ℕ
    pub reason : Error
    pub split : ids ≡ before ++ failing ∷ later
    pub answer : out.1 ≡ err reason
    pub failed : p.start (t ++ map started before) failing ≡ some reason
    pub trace :
        out.0.1
        ≡ t ++ (map started before ++ failed_start failing ∷ map stopped (restore before dids))

  pub restore-map :
      (ds cs : List ℕ) → restore (map full ds) (map full cs) ≡ map full (restore ds cs)
  restore-map [] cs = refl
  restore-map (d ∷ ds) cs = restore-map ds (d ∷ cs)

  start_first :
      (i : ℕ) (ids dids : List ℕ) (t : Trace)
      → p.start t i ≡ none
      → start_cells p (map full dids) (map new_cell (i ∷ ids)) t
        ≡ start_cells p (map full (i ∷ dids)) (map new_cell ids) (t ++ started i ∷ [])
  unfolding start_cells start_cell
  start_first i ids dids t e = rw e refl

  start_fails :
      (i : ℕ) (ids dids : List ℕ) (t : Trace) (e : Error)
      → p.start t i ≡ some e
      → RolledBack (i ∷ ids) dids t (start_cells p (map full dids) (map new_cell (i ∷ ids)) t)
  unfolding start_cells start_cell
  start_fails i ids dids t e q = record {
    before = [];
    failing = i;
    later = ids;
    reason = e;
    split = refl;
    answer = rw q refl;
    failed = ap (λ u. p.start u i) (append-nil t) ∙ q;
    trace = rw q (
        ap (λ r. r.1) (stop_cells-full dids (t ++ failed_start i ∷ []))
        ∙ append_assoc t (failed_start i ∷ []) (map stopped dids));
  }

  AllStarted-cons :
      (i : ℕ) (ids dids : List ℕ) (t : Trace) (out : (List Cell × Trace) × Result (Unit {0}))
      → AllStarted ids (i ∷ dids) (t ++ started i ∷ []) out
      → AllStarted (i ∷ ids) dids t out
  AllStarted-cons i ids dids t out a = record {
    answer = a.answer;
    cells = a.cells;
    trace = a.trace ∙ append_assoc t (started i ∷ []) (map started ids);
  }

  RolledBack-cons :
      (i : ℕ) (ids dids : List ℕ) (t : Trace) (out : (List Cell × Trace) × Result (Unit {0}))
      → RolledBack ids (i ∷ dids) (t ++ started i ∷ []) out
      → RolledBack (i ∷ ids) dids t out
  RolledBack-cons i ids dids t out r = record {
    before = i ∷ r.before;
    failing = r.failing;
    later = r.later;
    reason = r.reason;
    split = ap (λ x. i ∷ x) r.split;
    answer = r.answer;
    failed =
        ap (λ u. p.start u r.failing) (sym (append_assoc t (started i ∷ []) (map started r.before)))
        ∙ r.failed;
    trace = r.trace ∙ append_assoc t (started i ∷ []) _;
  }

  pub start_cells-new :
      (ids dids : List ℕ) (t : Trace)
      → AllStarted ids dids t (start_cells p (map full dids) (map new_cell ids) t)
        ⊎ RolledBack ids dids t (start_cells p (map full dids) (map new_cell ids) t)
  unfolding start_cells
  start_cells-new [] dids t =
      inl (record { answer = refl; cells = restore-map dids []; trace = sym (append-nil t) })
  start_cells-new (i ∷ ids) dids t = elim (Option-cases (p.start t i)) [
    | inl e ↦
        rw (start_first i ids dids t e)
          (elim (start_cells-new ids (i ∷ dids) (t ++ started i ∷ [])) [
            | inl a ↦ inl (AllStarted-cons i ids dids t _ a)
            | inr r ↦ inr (RolledBack-cons i ids dids t _ r)
          ])
    | inr (x, e) ↦ inr (start_fails i ids dids t x e)
  ]
