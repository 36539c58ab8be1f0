-- ===== src/Router/Tests.antt =====
-- Tests of the router, and its theorems at concrete inputs, over a matcher of whole paths.
use tork_framework.Base.{
  ℕ, ◌≡◌, refl, [], ◌∷◌, ◌++◌, bytes, text_eq, starts_with, ends_with, contains_byte, lookup,
  insert, trim_start, trim_end, split_on, join_with,
}
use tork_framework.Error.{ok}
use tork_framework.Instances.{whole_paths, position, exactly}
use tork_framework.Router.Paths.{slash, join_paths}
use tork_framework.Router.Routes.{
  Route, Router, new_route, on_request, resolve, into_routes, include, add_tags, no_hooks,
}
use tork_framework.Router.Routes.Nesting.{merged, into_routes-include}
use tork_framework.Router.Matcher.{
  Matcher, Tree, at, build, build_from, register, find, find_in, not_found, method_not_allowed,
  found, normalized, collapsed, has_double_slash, other_method,
}
use tork_framework.Router.Matcher.Slashes.{slashes}

router_model : Unit {0}
unfolding join_paths trim_start trim_end starts_with ends_with resolve into_routes include add_tags
    build build_from register find find_in at exactly position lookup insert text_eq contains_byte
    normalized collapsed has_double_slash split_on join_with other_method slashes
router_model = tt

join_tests :
    (join_paths (bytes "/users") (bytes "/{id}/") ≡ bytes "/users/{id}")
    × (join_paths [] [] ≡ slash)
    × (join_paths (bytes "api/") (bytes "//v1") ≡ bytes "/api/v1")
unfolding router_model
join_tests = (refl, refl, refl)

abbrev users : Route
users = new_route (bytes "GET") (bytes "/users") 1

abbrev inner : Router
inner = record {
  prefix = bytes "/{id}/orders";
  tags = bytes "orders" ∷ [];
  routes = new_route (bytes "GET") slash 2 ∷ [];
  hooks = on_request 20 no_hooks;
}

abbrev outer : Router
outer = record {
  prefix = bytes "/users";
  tags = bytes "users" ∷ [];
  routes = [];
  hooks = on_request 10 no_hooks;
}

into_routes-include_example :
    into_routes (include inner outer) ≡ into_routes outer ++ into_routes (merged outer inner)
into_routes-include_example = into_routes-include outer inner

abbrev table : Matcher
table = record {
  by_method = (bytes "GET", (bytes "/users", 0) ∷ []) ∷ [];
  all_paths = (bytes "/users", tt) ∷ [];
  routes = users ∷ [];
}

find_tests :
    (build whole_paths (users ∷ []) ≡ ok table)
    × (find whole_paths table (bytes "GET") (bytes "/users/") ≡ found users [])
    × (find whole_paths table (bytes "POST") (bytes "/users") ≡ method_not_allowed)
    × (find whole_paths table (bytes "GET") (bytes "//users") ≡ not_found)
unfolding router_model
find_tests = (refl, refl, refl, refl)

abbrev users_tree : Tree ℕ
users_tree = (bytes "/users", 0) ∷ []
