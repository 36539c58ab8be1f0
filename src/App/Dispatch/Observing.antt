-- ===== src/App/Dispatch/Observing.antt =====
-- What the hooks of an application are told of a request that its handler answered, and in which
-- order.
use tork_framework.Base.{
  ℕ, ◌≡◌, refl, sym, ap, ◌∙◌, inl, inr, ◌++◌, true, false, ◌||◌, Option, none, some, List, [], ◌∷◌,
  map, append-nil, append_assoc, if◌then◌else◌, Bool-cases,
}
use mathlib.Core.List.{reverse}
use tork_framework.Error.{
  Error, Cause, Result, ok, err, StatusApi, status, code, is_validation, take_source,
}
use tork_framework.Router.Routes.{Route, has_hooks}
use tork_framework.Router.Matcher.{Matchit, Params, find, found}
use tork_framework.Middleware.Http.{Http, Request, Response}
use tork_framework.App.World.{
  RequestInfo, HookEvent, request_event, response_event, error_event, validation_event, World,
  answered, Code, Rendering, AppInner, needs_request_info, request_info,
}
use tork_framework.App.Dispatch.{
  fire, fire_all, fire_error, rendered, recovered, handler_for, render_error, respond,
  after_handler, dispatch_found, dispatch, reply, go_on, handled,
}

-- The entries of hooks that all get one event.
abbrev pub told_to : List ℕ → HookEvent → List (ℕ × HookEvent)
told_to hooks ev = map (λ i. (i, ev)) hooks

module _ {U : Type 0} where
  -- No panic is on its way, and the hooks were told `t`.
  abbrev pub Tells : World U → List (ℕ × HookEvent) → World U → Type 0
  Tells w t v = (v.fired ≡ w.fired ++ t) × (v.unwound ≡ false)

  pub Tells-nothing : (w : World U) → w.unwound ≡ false → Tells w [] w
  Tells-nothing w q = (sym (append-nil w.fired), q)

  pub Tells-trans :
      (w v u : World U) (s t : List (ℕ × HookEvent))
      → Tells w s v
      → Tells v t u
      → Tells w (s ++ t) u
  Tells-trans w v u s t (a, _) (b, q) = (b ∙ ap (λ x. x ++ t) a ∙ append_assoc w.fired s t, q)

-- No hook and no exception handler panics.
abbrev pub Returns : {h : Http} {U : Type 0} → Code h U → Type 0
Returns {h} {U} program =
    ((i : ℕ) (ev : HookEvent) (u : U) → (program.hook i ev u).1 ≡ false)
    × ((id : ℕ) (c : Cause) (i : RequestInfo) (u : U)
        → (resp : Response h) × ((program.exception id c i u).1 ≡ some resp))

pub go_on-live :
    {R U : Type 0} (w : World U) (out : World U × Option R) → w.unwound ≡ false → go_on w out ≡ out
unfolding go_on
go_on-live w out q = rw q refl

-- There is a response, and the hooks were told `t`.
abbrev pub Replies : {R U : Type 0} → World U → List (ℕ × HookEvent) → World U × Option R → Type 0
Replies {R} w t out = (resp : R) × (out.1 ≡ some resp) × Tells w t out.0

pub reply-Replies :
    {R U : Type 0} (w v : World U) (t : List (ℕ × HookEvent)) (resp : R)
    → Tells w t v
    → Replies w t (reply v resp)
reply-Replies w v t resp s = (resp, rw (s.1) refl, s)

module _ {h : Http} {U : Type 0} (program : Code h U) (returns : Returns program) where
  fire-Tells :
      (i : ℕ) (ev : HookEvent) (w : World U)
      → w.unwound ≡ false
      → Tells w ((i, ev) ∷ []) (fire program ev w i)
  fire-Tells i ev w q = rw (q, returns.0 i ev w.user) (refl, refl)

  pub fire_all-Tells :
      (is : List ℕ) (ev : HookEvent) (w : World U)
      → w.unwound ≡ false
      → Tells w (told_to is ev) (fire_all program is ev w)
  unfolding fire_all
  fire_all-Tells [] ev w q = Tells-nothing w q
  fire_all-Tells (i ∷ is) ev w q =
      let first = fire-Tells i ev w q in
      Tells-trans w (fire program ev w i) (fire_all program is ev (fire program ev w i))
        ((i, ev) ∷ []) (told_to is ev) first (fire_all-Tells is ev (fire program ev w i) first.1)

module _ (h : Http) (sa : StatusApi) (rt : Rendering) (mi : Matchit) {U : Type 0}
    (program : Code h U) (app : AppInner h U) where
  -- What an error tells: the hooks of the application first, and then those of the route.
  abbrev pub error_told : Error → RequestInfo → Route → List (ℕ × HookEvent)
  error_told e i route =
      if is_validation e
      then told_to app.on_validation_error (validation_event i e.details)
        ++ told_to route.hooks.validation (validation_event i e.details)
      else told_to app.on_error (error_event i (status e.kind) (code e) e.message)
        ++ told_to route.hooks.error (error_event i (status e.kind) (code e) e.message)

  abbrev pub result_told : Result (Response h) → RequestInfo → Route → List (ℕ × HookEvent)
  result_told (ok resp) i route = []
  result_told (err e) i route = error_told e i route

  -- The hooks of the response, once it is there.
  abbrev pub response_told : Route → RequestInfo → Response h → List (ℕ × HookEvent)
  response_told route i resp = told_to (reverse route.hooks.response) (response_event i resp.status)

  -- The request was answered, and the hooks were told `t`, and then of the response.
  abbrev pub Answers :
      World U → List (ℕ × HookEvent) → Route → RequestInfo → World U × Option (Response h) → Type 0
  Answers w t route i out =
      (resp : Response h) × (out.1 ≡ some resp) × Tells w (t ++ response_told route i resp) out.0

  -- What a request is known as to the hooks once its route is found.
  abbrev pub known : Request h → Route → RequestInfo
  known r route = request_info h sa rt r (some route.path)

  pub both-Tells :
      (returns : Returns program) (is js : List ℕ) (ev : HookEvent) (w : World U)
      → w.unwound ≡ false
      → Tells w (told_to is ev ++ told_to js ev) (fire_all program js ev (fire_all program is ev w))
  both-Tells returns is js ev w q =
      let first = fire_all-Tells program returns is ev w q in
      Tells-trans w (fire_all program is ev w) (fire_all program js ev (fire_all program is ev w))
        (told_to is ev) (told_to js ev) first
        (fire_all-Tells program returns js ev (fire_all program is ev w) first.1)

  handled-Replies :
      (w v : World U) (t : List (ℕ × HookEvent)) (out : U × Option (Response h)) (resp : Response h)
      → out.1 ≡ some resp
      → Tells w t v
      → Replies w t (handled h sa rt mi program app v out)
  handled-Replies w v t (u, none) resp e s = cc
  handled-Replies w v t (u, some given) resp e s = (given, refl, s)

  fire_error-Tells :
      (returns : Returns program) (e : Error) (i : RequestInfo) (route : Route) (w : World U)
      → w.unwound ≡ false
      → Tells w (error_told e i route) (fire_error h sa rt mi program app e i (some route) w)
  unfolding fire_error
  fire_error-Tells returns e i route w q = elim (Bool-cases (is_validation e)) [
    | inl valid ↦ rw valid (
        both-Tells returns app.on_validation_error route.hooks.validation
          (validation_event i e.details) w q)
    | inr other ↦ rw other (
        both-Tells returns app.on_error route.hooks.error
          (error_event i (status e.kind) (code e) e.message) w q)
  ]

  recovered-Replies :
      (returns : Returns program) (id : ℕ) (i : RequestInfo) (taken : Error × Option Cause)
      (w v : World U) (t : List (ℕ × HookEvent))
      → Tells w t v
      → Replies w t (recovered h sa rt mi program app id i taken v)
  recovered-Replies returns id i (e, none) w v t s = reply-Replies w v t _ s
  recovered-Replies returns id i (e, some c) w v t s =
      let (resp, e') = returns.1 id c i v.user in
      rw (go_on-live v (handled h sa rt mi program app v (program.exception id c i v.user)) (s.1))
        (handled-Replies w v t (program.exception id c i v.user) resp e' s)

  pub rendered-Replies :
      (returns : Returns program) (e : Error) (i : RequestInfo) (with : Option (ℕ × ℕ))
      (w v : World U) (t : List (ℕ × HookEvent))
      → Tells w t v
      → Replies w t (rendered h sa rt mi program app e i with v)
  rendered-Replies returns e i none w v t s = reply-Replies w v t _ s
  rendered-Replies returns e i (some (t', id)) w v t s =
      recovered-Replies returns id i (take_source t' e) w v t s

  render_error-Replies :
      (returns : Returns program) (e : Error) (i : RequestInfo) (route : Route) (w : World U)
      → w.unwound ≡ false
      → Replies w (error_told e i route) (render_error h sa rt mi program app e i (some route) w)
  unfolding render_error
  render_error-Replies returns e i route w q =
      rendered-Replies returns e i (handler_for h sa rt mi program app e.source_type) w _ _
        (fire_error-Tells returns e i route w q)

  respond-Answers :
      (returns : Returns program) (w : World U) (t : List (ℕ × HookEvent)) (route : Route)
      (i : RequestInfo) (v : World U × Option (Response h))
      → Replies w t v
      → Answers w t route i (respond h sa rt mi program app route (some i) v)
  respond-Answers returns w t route i (v, none) (resp, e, s) = cc
  respond-Answers returns w t route i (v, some given) (resp, e, s) = (
    given,
    rw
        ((fire_all-Tells program returns (reverse route.hooks.response)
          (response_event i given.status) v s.1).1)
        refl,
    Tells-trans w v
        (fire_all program (reverse route.hooks.response) (response_event i given.status) v) t
        (response_told route i given) s
        (fire_all-Tells program returns (reverse route.hooks.response)
          (response_event i given.status) v s.1),
  )

  after_handler-Answers :
      (returns : Returns program) (w v : World U) (s : List (ℕ × HookEvent)) (route : Route)
      (i : RequestInfo) (res : Result (Response h))
      → Tells w s v
      → Answers w
          (s ++ result_told res i route)
          route
          i
          (after_handler h sa rt mi program app route (some i) v (answered res))
  after_handler-Answers returns w v s route i (ok resp) told =
      respond-Answers returns w _ route i (v, some resp) (resp, refl, rw (append-nil s) told)
  after_handler-Answers returns w v s route i (err e) told =
      let (resp, q, more) = render_error-Replies returns e i route v told.1 in
      respond-Answers returns w (s ++ error_told e i route) route i _ (
        resp,
        q,
        Tells-trans w v (render_error h sa rt mi program app e i (some route) v).0 s
            (error_told e i route) told more,
      )

  dispatch_found-Answers :
      (returns : Returns program) (route : Route) (params : Params) (r : Request h) (w : World U)
      (res : Result (Response h))
      → w.unwound ≡ false
      → (needs_request_info app || has_hooks route) ≡ true
      → (program.handler route.handler r params
          (fire_all program route.hooks.request (request_event (known r route)) w).user).1
        ≡ answered res
      → Answers w
          (told_to route.hooks.request (request_event (known r route))
            ++ result_told res (known r route) route)
          route
          (known r route)
          (dispatch_found h sa rt mi program app route params r w)
  dispatch_found-Answers returns route params r w res q needs gave =
      let first =
        fire_all-Tells program returns route.hooks.request (request_event (known r route)) w q in
      rw
        (
          needs,
          go_on-live (fire_all program route.hooks.request (request_event (known r route)) w) _
              (first.1),
          gave,
        )
        (after_handler-Answers returns w _
          (told_to route.hooks.request (request_event (known r route))) route (known r route) res
          first)

  -- If a route is found and its handler answers with a response or an error, while something
  -- observes the request, and no hook and no exception handler panics, then the request is
  -- answered, and exactly these hooks are told, in this order: the route's request hooks; for an
  -- error, the hooks of the application for its kind, and then those of the route; and the route's
  -- response hooks, the last one first, with the status of the response that is sent.
  pub dispatch-Answers :
      (returns : Returns program) (route : Route) (params : Params) (r : Request h) (w : World U)
      (res : Result (Response h))
      → w.unwound ≡ false
      → find mi app.matcher r.method (rt.uri_path r.path_and_query) ≡ found route params
      → (needs_request_info app || has_hooks route) ≡ true
      → (program.handler route.handler r params
          (fire_all program route.hooks.request (request_event (known r route)) w).user).1
        ≡ answered res
      → Answers w
          (told_to route.hooks.request (request_event (known r route))
            ++ result_told res (known r route) route)
          route
          (known r route)
          (dispatch h sa rt mi program app r w)
  unfolding dispatch
  dispatch-Answers returns route params r w res q at needs gave =
      rw at (dispatch_found-Answers returns route params r w res q needs gave)
