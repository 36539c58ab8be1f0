-- ===== src/Router/Routes/Nesting.antt =====
-- Nested routers flatten to the routes of one router.
use tork_framework.Base.{◌++◌, ◌≡◌, refl, ap, ◌∙◌, List, [], ◌∷◌, map, append_assoc, arith}
use mathlib.Core.List.{map-append}
use tork_framework.Router.Paths.{join_paths}
use tork_framework.Router.Paths.Laws.{join_paths_assoc}
use tork_framework.Router.Routes.{Hooks, prepend, Route, Router, resolve, into_routes, include}
use tork_framework.Router.Routes.Tags.{add_tags-append}

-- One router in place of a router and the one inside it: the joined prefix, the inner tags before
-- the outer ones, and the outer hooks before the inner ones.
pub merged : Router → Router → Router
merged outer inner = record {
  prefix = join_paths outer.prefix inner.prefix;
  tags = inner.tags ++ outer.tags;
  routes = inner.routes;
  hooks = prepend outer.hooks inner.hooks;
}

prepend_assoc : (a b c : Hooks) → prepend a (prepend b c) ≡ prepend (prepend a b) c
prepend_assoc a b c = ground (
  arith,
  append_assoc a.request b.request c.request,
  append_assoc a.response b.response c.response,
  append_assoc a.error b.error c.error,
  append_assoc a.validation b.validation c.validation,
)

resolve-resolve :
    (outer inner : Router) (r : Route)
    → resolve outer (resolve inner r) ≡ resolve (merged outer inner) r
unfolding resolve merged
resolve-resolve outer inner r = ground (
  arith,
  join_paths_assoc outer.prefix inner.prefix r.path,
  add_tags-append r.meta.tags inner.tags outer.tags,
  prepend_assoc outer.hooks inner.hooks r.hooks,
)

map-resolve :
    (outer inner : Router) (rs : List Route)
    → map (resolve outer) (map (resolve inner) rs) ≡ map (resolve (merged outer inner)) rs
map-resolve outer inner [] = refl
map-resolve outer inner (r ∷ rs) = rw (resolve-resolve outer inner r, map-resolve outer inner rs)

-- Including a router adds the routes that one router with the joined prefix, both tag lists and
-- both sets of hooks, the outer ones first, would have; the routes that were there stay.
pub into_routes-include :
    (outer inner : Router)
    → into_routes (include inner outer) ≡ into_routes outer ++ into_routes (merged outer inner)
unfolding into_routes include resolve merged
into_routes-include outer inner =
    map-append (resolve outer) outer.routes (map (resolve inner) inner.routes)
    ∙ ap (λ rs. map (resolve outer) outer.routes ++ rs) (map-resolve outer inner inner.routes)
