-- ===== src/Router/Matcher.antt =====
-- crates/tork-core/src/router/matcher.rs: the table that a request is matched against. The crate
-- `matchit` is the parameter `Matchit`: a `matchit::Router` is determined by the patterns that were
-- inserted, in order, and `at` answers by the position of one of them and the captured parameters.
-- An insert that fails leaves the router as it was. Indexing past the table's end is a panic.
pub mod Safety
pub mod Slashes
use tork_framework.Base.{
  ℕ, suc, ◌+◌, ◌<◌, ◌≡◌, ◌++◌, Bool, true, false, ◌||◌, not, Option, none, some, List, [], ◌∷◌, map,
  Text, bytes, text_eq, starts_with, ends_with, contains_byte, trim_end, split_on, join_with,
  is_empty, keep, length, get_elem?, lookup, insert, unwrap_or, or_else, and_then, is_some,
  if◌then◌else◌, All,
}
use tork_framework.Error.{Result, ok, err, error, internal, ◌>>=◌}
use tork_framework.Router.Paths.{slash}
use tork_framework.Router.Routes.{Route}

abbrev pub Params : Type 0
Params = List (Text × Text)

pub record Matchit : Type 0 where
  pub accepts : List Text → Text → Bool
  pub describe : List Text → Text → Text
  pub matches : List Text → Text → Option (ℕ × Params)
  pub in_range :
      (ps : List Text) (q : Text) (i : ℕ) (c : Params) → matches ps q ≡ some (i, c) → i < length ps
  pub rooted :
      (ps : List Text) (q : Text)
      → All (λ p. starts_with slash p ≡ true) ps
      → starts_with slash q ≡ false
      → matches ps q ≡ none

-- A `matchit::Router<A>`: the patterns inserted, with their values.
abbrev pub Tree {ℓ} : Type ℓ → Type ℓ
Tree A = List (Text × A)

abbrev pub patterns {ℓ} : {A : Type ℓ} → Tree A → List Text
patterns [] = []
patterns ((p, a) ∷ t) = p ∷ patterns t

abbrev pub value_at {ℓ} : {A : Type ℓ} → Tree A → ℕ → Option (Text × A)
value_at t i = get_elem? t i

pub record Matcher : Type 0 where
  pub by_method : List (Text × Tree ℕ)
  pub all_paths : Tree (Unit {0})
  pub routes : List Route

pub data Match : Type 0 where
  found : Route → Params → Match
  method_not_allowed not_found panicked : Match

-- `normalized_request_path`
unfoldable pub normalized : Text → Option Text
normalized path =
    if text_eq path slash || not (ends_with slash path)
    then none
    else (let trimmed = trim_end b'/' path in some (if is_empty trimmed then slash else trimmed))

-- `contains("//")`
unfoldable pub has_double_slash : Text → Bool
has_double_slash [] = false
has_double_slash (c ∷ s) = if starts_with (bytes "//") (c ∷ s) then true else has_double_slash s

-- `collapse_double_slashes`
unfoldable pub collapsed : Text → Option Text
collapsed path =
    if has_double_slash path
    then (let joined = join_with slash (keep (λ s. not (is_empty s)) (split_on b'/' path)) in
        some (if is_empty joined then slash else joined))
    else none

-- Indexing the table.
abbrev pub indexed : Params → Option Route → Match
indexed params (some r) = found r params
indexed params none = panicked

abbrev pub route_at : List Route → ℕ × Params → Match
route_at routes (i, params) = indexed params (get_elem? routes i)

module _ (mi : Matchit) where
  module _ {ℓ} {A : Type ℓ} where
    unfoldable pub at : Tree A → Text → Option (A × Params)
    at t path =
        and_then (mi.matches (patterns t) path) λ m. and_then (value_at t m.0) λ v. some (v.1, m.1)

    abbrev pub grow : Tree A → Text → A → Tree A
    grow t path a = t ++ (path, a) ∷ []

  -- The trees after a route was taken; the index of all paths takes it unless it conflicts.
  abbrev pub registered : ℕ → Route → Matcher → Matcher
  registered index r m = record m {
    by_method =
        insert r.method (grow (unwrap_or (lookup r.method m.by_method) []) r.path index)
          m.by_method;
    all_paths =
        if mi.accepts (patterns m.all_paths) r.path
        then grow m.all_paths r.path tt
        else m.all_paths;
  }

  abbrev pub refusal : Route → Tree ℕ → Text
  refusal r tree =
      bytes "failed to register route "
      ++ (r.method ++ (bytes " " ++ (r.path ++ (bytes ": " ++ mi.describe (patterns tree) r.path))))

  -- One round of `build`: the route's method tree takes it, or the build fails.
  unfoldable pub register : ℕ → Route → Matcher → Result Matcher
  register index r m =
      let tree = unwrap_or (lookup r.method m.by_method) [] in
      if mi.accepts (patterns tree) r.path
      then ok (registered index r m)
      else err (error internal (refusal r tree))

  unfoldable pub build_from : ℕ → List Route → Matcher → Result Matcher
  build_from index [] m = ok m
  build_from index (r ∷ rs) m = register index r m >>= λ m'. build_from (suc index) rs m'

  unfoldable pub build : List Route → Result Matcher
  build routes = build_from 0 routes (record { by_method = []; all_paths = []; routes = routes })

  -- The path itself, then without its trailing slashes, then with its slashes collapsed.
  unfoldable pub find_in : Tree ℕ → Text → Option (ℕ × Params)
  find_in t path =
      or_else (at t path)
        (or_else (and_then (normalized path) (at t)) (and_then (collapsed path) (at t)))

  -- What the index of all paths says, where the method has no route for the path.
  unfoldable pub other_method : Matcher → Text → Match
  other_method m path =
      if is_some (at m.all_paths path) then method_not_allowed else elim (normalized path) [
        | some trimmed ↦ if is_some (at m.all_paths trimmed) then method_not_allowed else not_found
        | none ↦ elim (collapsed path) [
          | some c ↦ if is_some (at m.all_paths c) then method_not_allowed else not_found
          | none ↦ not_found
        ]
      ]

  unfoldable pub find : Matcher → (method path : Text) → Match
  find m method path =
      if contains_byte 0 path
      then not_found
      else elim (and_then (lookup method m.by_method) (λ t. find_in t path)) [
        | some hit ↦ route_at m.routes hit
        | none ↦ other_method m path
      ]
