-- ===== src/App/Builder/Tests.antt =====
-- Tests of the state of an application and of its builder, and their theorems at concrete inputs.
use tork_framework.Base.{
  ℕ, ◌≡◌, refl, none, some, [], ◌∷◌, bytes, text_eq, trim_start, trim_end, starts_with, ends_with,
  lookup, insert, is_some, or_else,
}
use tork_framework.Instances.{pairs, whole_paths}
use tork_framework.Error.{ok}
use tork_framework.Router.Paths.{join_paths}
use tork_framework.Router.Routes.{new_route, new_router, resolve, into_routes, add_tags}
use tork_framework.Router.Matcher.{Matcher, build, build_from, register, find}
use tork_framework.Router.Matcher.Safety.{Answers}
use tork_framework.Middleware.Chain.{resolve_duplicates, resolve_from}
use tork_framework.App.State.{StateMap, insert_state, get_state, contains_state, remove_state}
use tork_framework.App.State.Typing.{Reach, inserted, get_state-insert_state}
use tork_framework.App.Builder.{
  Values, sse_limiter, of_program, app_types, App, new_app, Built, built, registered, build_app,
  filled_state, phases,
}
use tork_framework.App.Builder.Registered.{find-build_app}
use tork_framework.App.World.{World}
use tork_framework.App.Builder.Kept.{get_state-build_app}
use tork_framework.App.Lifecycle.{validate_lifecycle}

-- A program with one type of state.
abbrev one_type : Values
one_type = record { Program = λ n. ℕ; type_name = λ t. bytes "T"; CacheHandle = Unit {0} }

abbrev kept : StateMap (app_types one_type)
kept = insert_state (app_types one_type) (of_program 1) 9 []

get_state-insert_state_example :
    (contains_state (app_types one_type) (of_program 0) kept
      ≡ is_some (get_state (app_types one_type) (of_program 0) kept))
    × (get_state
          (app_types one_type)
          (of_program 0)
          (insert_state (app_types one_type) (of_program 0) 3 kept)
        ≡ some 3)
    × (get_state
          (app_types one_type)
          (of_program 1)
          (insert_state (app_types one_type) (of_program 0) 3 kept)
        ≡ get_state (app_types one_type) (of_program 1) kept)
    × (get_state
          (app_types one_type)
          (of_program 0)
          (remove_state (app_types one_type) (of_program 0) kept)
        ≡ none)
    × (get_state
          (app_types one_type)
          (of_program 1)
          (remove_state (app_types one_type) (of_program 0) kept)
        ≡ get_state (app_types one_type) (of_program 1) kept)
get_state-insert_state_example =
    get_state-insert_state (app_types one_type) (of_program 0) (of_program 1) 3
      (inserted (of_program 1) 9 (Reach.new)) (λ e. cc)

-- The routes of one router, as they are flattened.
abbrev small_app : App one_type pairs ℕ
small_app = record (new_app one_type pairs ℕ) {
  routers = record new_router { routes = new_route (bytes "GET") (bytes "/users") 1 ∷ [] } ∷ [];
  max_sse_connections = some 5;
}

abbrev user_table : Matcher
user_table = record {
  by_method = (bytes "GET", (bytes "/users", 0) ∷ []) ∷ [];
  all_paths = (bytes "/users", tt) ∷ [];
  routes = new_route (bytes "GET") (bytes "/users") 1 ∷ [];
}

abbrev small_built : Built one_type pairs ℕ
small_built = built one_type pairs ℕ small_app user_table []

small_app-built : build_app one_type pairs ℕ whole_paths small_app ≡ ok small_built
unfolding build_app registered into_routes validate_lifecycle resolve add_tags join_paths
    resolve_duplicates resolve_from build build_from register lookup insert text_eq trim_start
    trim_end starts_with ends_with filled_state
small_app-built = refl

get_state-build_app_example :
    get_state (app_types one_type) sse_limiter small_built.app_state
    ≡ or_else (some 5) (get_state (app_types one_type) sse_limiter [])
get_state-build_app_example =
    get_state-build_app one_type pairs ℕ whole_paths small_app small_built sse_limiter
      small_app-built

find-build_app_example :
    Answers
      (registered one_type pairs ℕ small_app)
      (bytes "GET")
      (find whole_paths small_built.inner.matcher (bytes "GET") (bytes "/users"))
    × (resolve_duplicates pairs (World ℕ) [] ≡ ok [])
    × (validate_lifecycle (phases one_type pairs ℕ small_app) ≡ ok tt)
find-build_app_example =
    find-build_app one_type pairs ℕ whole_paths small_app small_built (bytes "GET") (bytes "/users")
      small_app-built
