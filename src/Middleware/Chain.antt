-- ===== src/Middleware/Chain.antt =====
-- crates/tork-core/src/middleware/mod.rs: the chain, and what happens to a middleware that is
-- registered twice. `Next` is the rest of the stack with the dispatch behind it.
pub mod Duplicates
use tork_framework.Base.{
  ℕ, zero, suc, ◌++◌, Bool, true, false, Option, none, some, List, [], ◌∷◌, Text, bytes, text_eq,
  set, if◌then◌else◌, and_then, starts_with, length, get_elem?,
}
use tork_framework.Error.{Error, Result, ok, err, error, internal, with_code}
use tork_framework.Middleware.Http.{Http, Handler}

pub data DuplicatePolicy : Type 0 where
  allow warn reject replace : DuplicatePolicy

module _ (h : Http) (S : Type 0) where
  pub record Middleware : Type 0 where
    pub name : Text
    pub duplicate_policy : DuplicatePolicy
    pub handle : Handler h S → Handler h S

  -- `Next::run`, where the stack from the index on is what is left.
  unfoldable pub run : List Middleware → Handler h S → Handler h S
  run [] dispatch = dispatch
  run (m ∷ ms) dispatch = m.handle (run ms dispatch)

  -- `position` of the first entry of a name.
  abbrev pub position : Text → List Middleware → Option ℕ
  position name [] = none
  position name (m ∷ ms) =
      let rest = position name ms in
      if text_eq m.name name then some 0 else and_then rest (λ i. some (suc i))

  -- `rsplit("::").next()`: what stands behind the last `::`.
  abbrev pub drop_colon : Text → Text
  drop_colon [] = []
  drop_colon (c ∷ s) = s

  unfoldable pub last_segment : Text → Option Text
  last_segment [] = none
  last_segment (c ∷ s) =
      let rest = last_segment s in
      elim rest [
        | some t ↦ some t
        | none ↦ if starts_with (bytes "::") (c ∷ s) then some (drop_colon s) else none
      ]

  abbrev pub or_whole : Text → Option Text → Text
  or_whole name none = name
  or_whole name (some t) = t

  unfoldable pub short_name : Text → Text
  short_name name = or_whole name (last_segment name)

  abbrev pub duplicate_error : Text → Error
  duplicate_error name =
      let short = short_name name in
      with_code (bytes "DUPLICATE_MIDDLEWARE") (
        error internal (
          bytes "Duplicate middleware detected: "
          ++ (short
              ++ (10 ∷ short
                  ++ (bytes " middleware can only be registered once per scope."
                      ++ 10 ∷ bytes "Already registered at app level.")))))

  -- One entry of the loop. The warning is a line on stderr.
  unfoldable pub add_entry : List Middleware → Middleware → Result (List Middleware)
  add_entry resolved entry = elim (position entry.name resolved) [
    | none ↦ ok (resolved ++ entry ∷ [])
    | some i ↦ elim entry.duplicate_policy [
      | allow ↦ ok (resolved ++ entry ∷ [])
      | warn ↦ ok (resolved ++ entry ∷ [])
      | replace ↦ ok (set resolved i entry)
      | reject ↦ err (duplicate_error entry.name)
    ]
  ]

  unfoldable pub resolve_from : List Middleware → List Middleware → Result (List Middleware)
  resolve_from resolved [] = ok resolved
  resolve_from resolved (m ∷ ms) = elim (add_entry resolved m) [
    | ok next ↦ resolve_from next ms
    | err e ↦ err e
  ]

  unfoldable pub resolve_duplicates : List Middleware → Result (List Middleware)
  resolve_duplicates ms = resolve_from [] ms
