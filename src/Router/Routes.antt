-- ===== src/Router/Routes.antt =====
-- crates/tork-core/src/router/mod.rs: routes, routers and their composition. A handler, a hook and a
-- schema generator are opaque values that the router only stores and passes on: a number stands for
-- the identity of each. A method is its name.
pub mod Tags
pub mod Nesting
use tork_framework.Base.{
  ℕ, ◌++◌, Bool, true, false, ◌||◌, not, Option, none, some, List, [], ◌∷◌, map, Text, text_eq, any,
  is_empty, if◌then◌else◌,
}
use tork_framework.Router.Paths.{join_paths}

pub data RequestBodyKind : Type 0 where
  json form multipart : RequestBodyKind

pub record SecurityRequirement : Type 0 where
  pub scheme : Text
  pub scopes : List Text

pub record RouteMeta : Type 0 where
  pub summary : Option Text
  pub description : Option Text
  pub tags : List Text
  pub status_code : ℕ
  pub response_model : Option Text
  pub request_schema : Option ℕ
  pub request_kind : RequestBodyKind
  pub response_schema : Option ℕ
  pub streaming : Bool
  pub websocket : Bool
  pub ws_incoming : Option ℕ
  pub ws_outgoing : Option ℕ
  pub security : List SecurityRequirement

abbrev pub default_meta : RouteMeta
default_meta = record {
  summary = none;
  description = none;
  tags = [];
  status_code = 200;
  response_model = none;
  request_schema = none;
  request_kind = json;
  response_schema = none;
  streaming = false;
  websocket = false;
  ws_incoming = none;
  ws_outgoing = none;
  security = [];
}

-- The four lists of scoped hooks, which routes and routers both carry.
pub record Hooks : Type 0 where
  pub request : List ℕ
  pub response : List ℕ
  pub error : List ℕ
  pub validation : List ℕ

abbrev pub no_hooks : Hooks
no_hooks = record { request = []; response = []; error = []; validation = [] }

-- The builders of `scoped_hook_builders!`, on the hooks that they push to.
abbrev pub on_request : ℕ → Hooks → Hooks
on_request hook h = record h { request = h.request ++ hook ∷ [] }

abbrev pub on_response : ℕ → Hooks → Hooks
on_response hook h = record h { response = h.response ++ hook ∷ [] }

abbrev pub on_error : ℕ → Hooks → Hooks
on_error hook h = record h { error = h.error ++ hook ∷ [] }

abbrev pub on_validation_error : ℕ → Hooks → Hooks
on_validation_error hook h = record h { validation = h.validation ++ hook ∷ [] }

pub record Route : Type 0 where
  pub method : Text
  pub path : Text
  pub handler : ℕ
  pub meta : RouteMeta
  pub hooks : Hooks

abbrev pub new_route : (method path : Text) → ℕ → Route
new_route method path handler = record {
  method = method;
  path = path;
  handler = handler;
  meta = default_meta;
  hooks = no_hooks;
}

abbrev pub contains : List Text → Text → Bool
contains ts t = any (text_eq t) ts

-- A tag, unless it is there.
unfoldable pub add_tag : List Text → Text → List Text
add_tag ts t = if contains ts t then ts else ts ++ t ∷ []

abbrev pub with_tags : List Text → Route → Route
with_tags ts r = record {
  method = r.method;
  path = r.path;
  handler = r.handler;
  meta = record r.meta { tags = ts };
  hooks = r.hooks;
}

abbrev pub tag : Text → Route → Route
tag t r = with_tags (add_tag r.meta.tags t) r

-- The builders of the documentation's fields.
abbrev pub summary : Text → Route → Route
summary t r = record r { meta = record r.meta { summary = some t } }

abbrev pub description : Text → Route → Route
description t r = record r { meta = record r.meta { description = some t } }

abbrev pub response_model : Text → Route → Route
response_model name r = record r { meta = record r.meta { response_model = some name } }

abbrev pub request_schema : ℕ → Route → Route
request_schema thunk r = record r { meta = record r.meta { request_schema = some thunk } }

abbrev pub request_kind : RequestBodyKind → Route → Route
request_kind kind r = record r { meta = record r.meta { request_kind = kind } }

abbrev pub response_schema : ℕ → Route → Route
response_schema thunk r = record r { meta = record r.meta { response_schema = some thunk } }

abbrev pub streaming : Route → Route
streaming r = record r { meta = record r.meta { streaming = true } }

abbrev pub websocket : Route → Route
websocket r = record r { meta = record r.meta { websocket = true } }

abbrev pub ws_incoming : ℕ → Route → Route
ws_incoming thunk r = record r { meta = record r.meta { ws_incoming = some thunk } }

abbrev pub ws_outgoing : ℕ → Route → Route
ws_outgoing thunk r = record r { meta = record r.meta { ws_outgoing = some thunk } }

abbrev pub status_code : ℕ → Route → Route
status_code n r = record r { meta = record r.meta { status_code = n } }

abbrev pub has_scheme : Text → List SecurityRequirement → Bool
has_scheme scheme reqs = any (λ req. text_eq req.scheme scheme) reqs

-- `Route::security`: a scheme that is there is left unchanged.
unfoldable pub add_security : Text → List Text → List SecurityRequirement → List SecurityRequirement
add_security scheme scopes reqs =
    if has_scheme scheme reqs
    then reqs
    else reqs ++ record { scheme = scheme; scopes = scopes } ∷ []

abbrev pub security : Text → List Text → Route → Route
security scheme scopes r = record r {
  meta = record r.meta { security = add_security scheme scopes r.meta.security };
}

unfoldable pub has_hooks : Route → Bool
has_hooks r =
    not (is_empty r.hooks.request)
    || not (is_empty r.hooks.response)
    || not (is_empty r.hooks.error)
    || not (is_empty r.hooks.validation)

abbrev pub prepend_prefix : Text → Route → Route
prepend_prefix prefix r = record r { path = join_paths prefix r.path }

-- The loop of `inherit_tags`.
unfoldable pub add_tags : List Text → List Text → List Text
add_tags own [] = own
add_tags own (t ∷ ts) = add_tags (add_tag own t) ts

abbrev pub inherit_tags : List Text → Route → Route
inherit_tags ts r = with_tags (add_tags r.meta.tags ts) r

-- The hooks of an enclosing router, ahead of a route's own.
abbrev pub prepend : Hooks → Hooks → Hooks
prepend outer own = record {
  request = outer.request ++ own.request;
  response = outer.response ++ own.response;
  error = outer.error ++ own.error;
  validation = outer.validation ++ own.validation;
}

abbrev pub prepend_hooks : Hooks → Route → Route
prepend_hooks outer r = record r { hooks = prepend outer r.hooks }

pub record Router : Type 0 where
  pub prefix : Text
  pub tags : List Text
  pub routes : List Route
  pub hooks : Hooks

abbrev pub new_router : Router
new_router = record { prefix = []; tags = []; routes = []; hooks = no_hooks }

abbrev pub prefix : Text → Router → Router
prefix p router = record router { prefix = p }

abbrev pub tags : List Text → Router → Router
tags ts router = record router { tags = ts }

abbrev pub route : Route → Router → Router
route r router = record router { routes = router.routes ++ r ∷ [] }

-- What a router does to each of its routes.
unfoldable pub resolve : Router → Route → Route
resolve router r =
    prepend_hooks router.hooks (inherit_tags router.tags (prepend_prefix router.prefix r))

unfoldable pub into_routes : Router → List Route
into_routes router = map (resolve router) router.routes

unfoldable pub include : Router → Router → Router
include child router = record router { routes = router.routes ++ into_routes child }
