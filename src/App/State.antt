-- ===== src/App/State.antt =====
-- crates/tork-core/src/state.rs, and `RequestContext::resource` of extract/mod.rs: the state of an
-- application, by type. The types of a program are the parameter `Types`, which names them by their
-- `TypeId`; a value of any type is a pair of a type's id and a value of that type.
pub mod Typing
use tork_framework.Base.{
  ℕ, ◌≡◌, ◌++◌, Bool, Option, none, some, List, [], ◌∷◌, Text, bytes, and_then, is_some,
}
use mathlib.Core.Path.{subst}
use mathlib.Core.Logic.{dite, ite}
use tork_framework.Error.{Result, ok, err, Error, internal_error, with_code}

pub record Types : Type 1 where
  pub TypeId : Type 0
  pub El : TypeId → Type 0
  pub same : Discrete TypeId
  pub type_name : TypeId → Text

module _ (ts : Types) where
  abbrev pub Any : Type 0
  Any = (t : ts.TypeId) × ts.El t

  -- The entries, by the id under which each was inserted.
  abbrev pub StateMap : Type 0
  StateMap = List (ts.TypeId × Any)

  unfoldable pub downcast : (t : ts.TypeId) → Any → Option (ts.El t)
  downcast t a = dite (ts.same a.0 t) (λ e. some (subst ts.El e a.1)) (λ _. none)

  unfoldable pub entry : ts.TypeId → StateMap → Option Any
  entry t [] = none
  entry t ((u, a) ∷ m) = ite (ts.same u t) (some a) (entry t m)

  unfoldable pub insert_entry : ts.TypeId → Any → StateMap → StateMap
  insert_entry t a [] = (t, a) ∷ []
  insert_entry t a ((u, b) ∷ m) = ite (ts.same u t) ((t, a) ∷ m) ((u, b) ∷ insert_entry t a m)

  -- The warning of a value that is replaced is left out.
  abbrev pub insert_state : (t : ts.TypeId) → ts.El t → StateMap → StateMap
  insert_state t v m = insert_entry t (t, v) m

  unfoldable pub get_state : (t : ts.TypeId) → StateMap → Option (ts.El t)
  get_state t m = and_then (entry t m) (downcast t)

  unfoldable pub contains_state : ts.TypeId → StateMap → Bool
  contains_state t m = is_some (entry t m)

  unfoldable pub remove_state : ts.TypeId → StateMap → StateMap
  remove_state t [] = []
  remove_state t ((u, b) ∷ m) =
      let rest = remove_state t m in ite (ts.same u t) rest ((u, b) ∷ rest)

  abbrev pub or_error : {A : Type 0} → Error → Option A → Result A
  or_error e none = err e
  or_error e (some a) = ok a

  -- The extractor `State`.
  abbrev pub extract_state : (t : ts.TypeId) → StateMap → Result (ts.El t)
  extract_state t m =
      or_error
        (internal_error
          (bytes "application state `" ++ ts.type_name t ++ bytes "` was not configured"))
        (get_state t m)

  abbrev pub resource : (t : ts.TypeId) → StateMap → Result (ts.El t)
  resource t m =
      or_error
        (with_code (bytes "MISSING_RESOURCE")
          (internal_error (bytes "resource `" ++ ts.type_name t ++ bytes "` was not registered")))
        (get_state t m)
