-- ===== src/App/Dispatch.antt =====
-- crates/tork-core/src/service.rs and app.rs: `dispatch`, `render_error` and `handle`, from a request
-- to its response.
pub mod Observing
pub mod Answering
pub mod Chaining
use tork_framework.Base.{
  ℕ, ◌≡◌, ◌++◌, Bool, true, false, ◌||◌, not, Option, none, some, List, [], ◌∷◌, Text, bytes,
  if◌then◌else◌, map,
}
use mathlib.Core.List.{reverse}
use tork_framework.Error.{
  Error, Cause, Result, ok, err, StatusApi, error, internal_error, status, code, is_validation,
  take_source,
}
use tork_framework.Error
use tork_framework.Router.Routes.{Route, has_hooks}
use tork_framework.Router.Matcher.{
  Matchit, Match, Params, find, found, method_not_allowed, not_found, panicked,
}
use tork_framework.Middleware.Http.{Http, Request, Response, Handler}
use tork_framework.Middleware.Chain.{run}
use tork_framework.App.World.{
  RequestInfo, HookEvent, request_event, response_event, error_event, validation_event, panic_event,
  World, Payload, Outcome, answered, Code, panic_message, Rendering, handler_of, AppInner,
  needs_request_info, error_response, request_info,
}
use tork_framework.App.World

module _ {h : Http} {U : Type 0} (code' : Code h U) where
  abbrev pub fire : HookEvent → World U → ℕ → World U
  fire ev w i =
      if w.unwound
      then w
      else let r = code'.hook i ev w.user in
        record w { user = r.0; fired = w.fired ++ (i, ev) ∷ []; unwound = r.1 }

  -- Hooks in order, all with one event.
  unfoldable pub fire_all : List ℕ → HookEvent → World U → World U
  fire_all [] ev w = w
  fire_all (i ∷ is) ev w = fire_all is ev (fire ev w i)

module _ {U : Type 0} where
  abbrev pub unwind : World U → World U
  unwind w = record w { unwound = true }

  -- A response, unless a panic is on its way.
  abbrev pub reply : {R : Type 0} → World U → R → World U × Option R
  reply w resp = (w, if w.unwound then none else some resp)

  -- What comes next, unless a panic is on its way.
  unfoldable pub go_on : {R : Type 0} → World U → World U × Option R → World U × Option R
  go_on w out = if w.unwound then (w, none) else out

module _ (h : Http) (sa : StatusApi) (rt : Rendering) (mi : Matchit) {U : Type 0}
    (program : Code h U) (app : AppInner h U) where
  abbrev pub observe : List ℕ → (RequestInfo → HookEvent) → Option RequestInfo → World U → World U
  observe hooks ev none w = w
  observe hooks ev (some i) w = fire_all program hooks (ev i) w

  -- The global hooks of an error, and then those of the route.
  abbrev pub scoped : (Route → List ℕ) → Option Route → List ℕ
  scoped hooks none = []
  scoped hooks (some r) = hooks r

  unfoldable pub fire_error : Error → RequestInfo → Option Route → World U → World U
  fire_error e i route w =
      if is_validation e
      then fire_all program (scoped (λ r. r.hooks.validation) route) (validation_event i e.details)
          (fire_all program app.on_validation_error (validation_event i e.details) w)
      else fire_all program (scoped (λ r. r.hooks.error) route)
          (error_event i (status e.kind) (code e) e.message)
          (fire_all program app.on_error (error_event i (status e.kind) (code e) e.message) w)

  abbrev pub handled : World U → U × Option (Response h) → World U × Option (Response h)
  handled w (u, none) = (unwind (record w { user = u }), none)
  handled w (u, some resp) = (record w { user = u }, some resp)

  -- An exception handler, on the cause that was taken back.
  abbrev pub recovered :
      ℕ → RequestInfo → Error × Option Cause → World U → World U × Option (Response h)
  recovered id i (e, none) w = reply w (error_response h sa rt e)
  recovered id i (e, some c) w = go_on w (handled w (program.exception id c i w.user))

  abbrev pub handler_for : Option ℕ → Option (ℕ × ℕ)
  handler_for none = none
  handler_for (some t) = elim (handler_of t app.exception_handlers) [
    | none ↦ none
    | some id ↦ some (t, id)
  ]

  abbrev pub rendered :
      Error → RequestInfo → Option (ℕ × ℕ) → World U → World U × Option (Response h)
  rendered e i none w = reply w (error_response h sa rt e)
  rendered e i (some (t, id)) w = recovered id i (take_source t e) w

  unfoldable pub render_error :
      Error → RequestInfo → Option Route → World U → World U × Option (Response h)
  render_error e i route w = rendered e i (handler_for e.source_type) (fire_error e i route w)

  abbrev pub render_if :
      Error → Option RequestInfo → Option Route → World U → World U × Option (Response h)
  render_if e none route w = reply w (error_response h sa rt e)
  render_if e (some i) route w = render_error e i route w

  -- Routing failures.
  abbrev pub finish_error : Error → Option RequestInfo → World U → World U × Option (Response h)
  finish_error e info w = render_if e info none w

  -- The scoped response hooks run innermost first.
  abbrev pub respond :
      Route → Option RequestInfo → World U × Option (Response h) → World U × Option (Response h)
  respond route info (w, none) = (w, none)
  respond route info (w, some resp) =
      reply (observe (reverse route.hooks.response) (λ i. response_event i resp.status) info w) resp

  abbrev pub panic_response : Response h
  panic_response = error_response h sa rt (internal_error (bytes "handler panicked"))

  abbrev pub told : RequestInfo → Option Text → World U → World U × Option (Response h)
  told i none w = (unwind w, none)
  told i (some m) w = reply (fire_all program app.on_panic (panic_event i m) w) panic_response

  abbrev pub caught : Payload → Option RequestInfo → World U → World U × Option (Response h)
  caught p none w = (w, some panic_response)
  caught p (some i) w = told i (panic_message p) w

  -- Behind the handler. The boundary stands around its future, and not around the call that makes
  -- the future.
  abbrev pub after_handler :
      Route → Option RequestInfo → World U → Outcome h → World U × Option (Response h)
  after_handler route info w (answered (ok resp)) = respond route info (w, some resp)
  after_handler route info w (answered (err e)) =
      respond route info (render_if e info (some route) w)
  after_handler route info w (World.panicked p) =
      if app.catch_panics then caught p info w else (unwind w, none)
  after_handler route info w World.panicked_early = (unwind w, none)

  abbrev pub found_info : Route → Request h → Option RequestInfo
  found_info route r =
      if needs_request_info app || has_hooks route
      then some (request_info h sa rt r (some route.path))
      else none

  abbrev pub dispatch_found : Route → Params → Request h → World U → World U × Option (Response h)
  dispatch_found route params r w =
      let info = found_info route r in
      let w' = observe route.hooks.request request_event info w in
      let out = program.handler route.handler r params w'.user in
      go_on w' (after_handler route info (record w' { user = out.0 }) out.1)

  abbrev pub routing_info : Request h → Option RequestInfo
  routing_info r = if needs_request_info app then some (request_info h sa rt r none) else none

  abbrev pub wrong_method : Error
  wrong_method = error Error.method_not_allowed (bytes "method not allowed")

  abbrev pub no_route : Error
  no_route = error Error.not_found (bytes "resource not found")

  abbrev pub dispatch_match : Request h → World U → Match → World U × Option (Response h)
  dispatch_match r w (found route params) = dispatch_found route params r w
  dispatch_match r w method_not_allowed = finish_error wrong_method (routing_info r) w
  dispatch_match r w not_found = finish_error no_route (routing_info r) w
  dispatch_match r w panicked = (unwind w, none)

  unfoldable pub dispatch : Request h → World U → World U × Option (Response h)
  dispatch r w = dispatch_match r w (find mi app.matcher r.method (rt.uri_path r.path_and_query))

  -- The dispatch behind the middlewares. What they do with the result of one that unwinds is not
  -- read again.
  abbrev pub as_result : World U × Option (Response h) → World U × Result (Response h)
  as_result (w, some resp) = (w, ok resp)
  as_result (w, none) = (unwind w, err (internal_error []))

  abbrev pub after_chain :
      Option RequestInfo → World U × Result (Response h) → World U × Option (Response h)
  after_chain info (w, ok resp) = reply w resp
  after_chain info (w, err e) = render_if e info none w

  abbrev pub observed :
      Option RequestInfo → World U × Option (Response h) → World U × Option (Response h)
  observed info (w, none) = (w, none)
  observed info (w, some resp) =
      reply (observe app.on_response (λ i. response_event i resp.status) info w) resp

  unfoldable pub handle : Request h → World U → World U × Option (Response h)
  handle r w =
      let info = routing_info r in
      let w' = observe app.on_request request_event info w in
      go_on w' (
        observed info (
          after_chain info (run h (World U) app.middleware (λ q v. as_result (dispatch q v)) r w')))
