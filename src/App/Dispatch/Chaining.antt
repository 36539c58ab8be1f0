-- ===== src/App/Dispatch/Chaining.antt =====
-- A request on its way through the hooks of the application and its middlewares.
use tork_framework.Base.{
  ℕ, ◌≡◌, refl, inl, inr, ◌++◌, true, false, Option, none, some, List, [], ◌∷◌, Text, Bool-cases,
  All, arith,
}
use mathlib.Core.List.{reverse}
use tork_framework.Error.{Error, Result, ok, err, StatusApi, status, code, is_validation}
use tork_framework.Router.Routes.{Route}
use tork_framework.Router.Matcher.{
  Matchit, Match, Params, found, method_not_allowed, not_found, panicked, build,
}
use tork_framework.Router.Matcher.Safety.{find-build}
use tork_framework.Router.Matcher.Safety
use tork_framework.Middleware.Http.{Http, Request, Response, Handler}
use tork_framework.Middleware.Chain.{Middleware, run}
use tork_framework.App.World.{
  RequestInfo, HookEvent, request_event, response_event, panic_event, error_event, validation_event,
  World, Payload, Outcome, answered, Code, panic_message, Rendering, AppInner, request_info,
  needs_request_info,
}
use tork_framework.App.World
use tork_framework.App.Dispatch.{
  fire_all, observe, scoped, fire_error, handler_for, render_error, render_if, respond, caught,
  after_handler, dispatch_match, dispatch, found_info, routing_info, wrong_method, no_route, reply,
  as_result, after_chain, observed, handle,
}
use tork_framework.App.Dispatch.Observing.{
  Returns, Tells, Tells-nothing, Tells-trans, told_to, fire_all-Tells, both-Tells, go_on-live,
  rendered-Replies,
}
use tork_framework.App.Dispatch.Answering.{CanTell}

module _ {U : Type 0} where
  -- Hooks were told something, perhaps nothing.
  abbrev pub Extends : World U → World U → Type 0
  Extends w v = (t : List (ℕ × HookEvent)) × Tells w t v

  Extends-trans : (w v u : World U) → Extends w v → Extends v u → Extends w u
  Extends-trans w v u (s, a) (t, b) = (s ++ t, Tells-trans w v u s t a b)

module _ (h : Http) (sa : StatusApi) (rt : Rendering) (mi : Matchit) {U : Type 0}
    (program : Code h U) (app : AppInner h U) where
  observe-Extends :
      (returns : Returns program) (is : List ℕ) (ev : RequestInfo → HookEvent)
      (info : Option RequestInfo) (w : World U)
      → w.unwound ≡ false
      → Extends w (observe h sa rt mi program app is ev info w)
  observe-Extends returns is ev none w q = ([], Tells-nothing w q)
  observe-Extends returns is ev (some i) w q =
      (told_to is (ev i), fire_all-Tells program returns is (ev i) w q)

  fire_error-Extends :
      (returns : Returns program) (e : Error) (i : RequestInfo) (route : Option Route) (w : World U)
      → w.unwound ≡ false
      → Extends w (fire_error h sa rt mi program app e i route w)
  unfolding fire_error
  fire_error-Extends returns e i route w q = elim (Bool-cases (is_validation e)) [
    | inl valid ↦ rw valid (
      _,
      both-Tells h sa rt mi program app returns app.on_validation_error
          (scoped h sa rt mi program app (λ r. r.hooks.validation) route)
          (validation_event i e.details) w q,
    )
    | inr other ↦ rw other (
      _,
      both-Tells h sa rt mi program app returns app.on_error
          (scoped h sa rt mi program app (λ r. r.hooks.error) route)
          (error_event i (status e.kind) (code e) e.message) w q,
    )
  ]

  -- The request got a response, and the hooks were told something.
  abbrev pub GoesOn : {R : Type 0} → World U → World U × Option R → Type 0
  GoesOn {R} w out = (resp : R) × (out.1 ≡ some resp) × Extends w out.0

  reply-GoesOn : {R : Type 0} (w v : World U) (resp : R) → Extends w v → GoesOn w (reply v resp)
  reply-GoesOn w v resp (t, s) = (resp, rw (s.1) refl, (t, s))

  render_if-GoesOn :
      (returns : Returns program) (e : Error) (info : Option RequestInfo) (route : Option Route)
      (w : World U)
      → w.unwound ≡ false
      → GoesOn w (render_if h sa rt mi program app e info route w)
  unfolding render_error
  render_if-GoesOn returns e none route w q = reply-GoesOn w w _ ([], Tells-nothing w q)
  render_if-GoesOn returns e (some i) route w q =
      let (t, s) = fire_error-Extends returns e i route w q in
      let (resp, gave, more) =
        rendered-Replies h sa rt mi program app returns e i
          (handler_for h sa rt mi program app e.source_type) w
          (fire_error h sa rt mi program app e i route w) t s in
      (resp, gave, (t, more))

  respond-GoesOn :
      (returns : Returns program) (route : Route) (info : Option RequestInfo) (w : World U)
      (v : World U × Option (Response h))
      → GoesOn w v
      → GoesOn w (respond h sa rt mi program app route info v)
  respond-GoesOn returns route info w (v, none) (resp, e, s) = cc
  respond-GoesOn returns route info w (v, some given) (resp, e, s) =
      let v' =
        observe h sa rt mi program app (reverse route.hooks.response)
          (λ i. response_event i given.status) info v in
      reply-GoesOn w v' given (
        Extends-trans w v v' s (
          observe-Extends returns (reverse route.hooks.response)
            (λ i. response_event i given.status) info v s.1.1))

  caught-GoesOn :
      (returns : Returns program) (p : Payload) (info : Option RequestInfo) (w : World U)
      → w.unwound ≡ false
      → ((m : Text) × (panic_message p ≡ some m))
      → GoesOn w (caught h sa rt mi program app p info w)
  caught-GoesOn returns p none w q c = (_, refl, ([], Tells-nothing w q))
  caught-GoesOn returns p (some i) w q (m, e) = rw e (
      reply-GoesOn w (fire_all program app.on_panic (panic_event i m) w) _ (
        told_to app.on_panic (panic_event i m),
        fire_all-Tells program returns app.on_panic (panic_event i m) w q,
      ))

  after_handler-GoesOn :
      (returns : Returns program) (route : Route) (info : Option RequestInfo) (w : World U)
      (out : Outcome h)
      → w.unwound ≡ false
      → app.catch_panics ≡ true
      → CanTell h sa rt mi program app out
      → GoesOn w (after_handler h sa rt mi program app route info w out)
  after_handler-GoesOn returns route info w (answered (ok resp)) q on c =
      respond-GoesOn returns route info w (w, some resp) (resp, refl, ([], Tells-nothing w q))
  after_handler-GoesOn returns route info w (answered (err e)) q on c =
      respond-GoesOn returns route info w (render_if h sa rt mi program app e info (some route) w)
        (render_if-GoesOn returns e info (some route) w q)
  after_handler-GoesOn returns route info w (World.panicked p) q on c =
      rw on (caught-GoesOn returns p info w q c)
  after_handler-GoesOn returns route info w World.panicked_early q on c = elim c [ ]

  GoesOn-trans :
      {R : Type 0} (w v : World U) (out : World U × Option R)
      → Extends w v
      → GoesOn v out
      → GoesOn w out
  GoesOn-trans w v out s (resp, a, t) = (resp, a, Extends-trans w v out.0 s t)

  dispatch_match-GoesOn :
      (returns : Returns program) (routes : List Route) (r : Request h) (w : World U) (m : Match)
      → w.unwound ≡ false
      → app.catch_panics ≡ true
      → ((id : ℕ) (q : Params) (u : U)
          → CanTell h sa rt mi program app (program.handler id r q u).1)
      → Safety.Answers routes r.method m
      → GoesOn w (dispatch_match h sa rt mi program app r w m)
  dispatch_match-GoesOn returns routes r w (found route params) q on c a =
      let info = found_info h sa rt mi program app route r in
      let first = observe-Extends returns route.hooks.request request_event info w q in
      let w' = observe h sa rt mi program app route.hooks.request request_event info w in
      let out = program.handler route.handler r params w'.user in
      rw (go_on-live w' _ (first.1.1)) (
        GoesOn-trans w w'
          (after_handler h sa rt mi program app route info (record w' { user = out.0 }) out.1) first
          (after_handler-GoesOn returns route info (record w' { user = out.0 }) out.1 first.1.1 on
            (c _ _ _)))
  dispatch_match-GoesOn returns routes r w method_not_allowed q on c a =
      render_if-GoesOn returns (wrong_method h sa rt mi program app)
        (routing_info h sa rt mi program app r) none w q
  dispatch_match-GoesOn returns routes r w not_found q on c a =
      render_if-GoesOn returns (no_route h sa rt mi program app)
        (routing_info h sa rt mi program app r) none w q
  dispatch_match-GoesOn returns routes r w panicked q on c a = elim a [ ]

  dispatch-GoesOn :
      (returns : Returns program) (routes : List Route) (r : Request h) (w : World U)
      → build mi routes ≡ ok app.matcher
      → app.catch_panics ≡ true
      → ((id : ℕ) (q : Params) (u : U)
          → CanTell h sa rt mi program app (program.handler id r q u).1)
      → w.unwound ≡ false
      → GoesOn w (dispatch h sa rt mi program app r w)
  unfolding dispatch
  dispatch-GoesOn returns routes r w built on c q =
      dispatch_match-GoesOn returns routes r w _ q on c
        (find-build mi routes app.matcher r.method (rt.uri_path r.path_and_query) built)

  -- The request got a response.
  abbrev pub IsAnswered : World U × Option (Response h) → Type 0
  IsAnswered out = (resp : Response h) × (out.1 ≡ some resp)

  -- With the panic boundary on, over a matcher that was built, every request gets a response,
  -- whatever the handlers answer and whatever their futures panic with, as long as the message of a
  -- panic can be cut, no handler panics before it gives its future, and no hook and no exception
  -- handler panics.
  pub dispatch-IsAnswered :
      (returns : Returns program) (routes : List Route) (r : Request h) (w : World U)
      → build mi routes ≡ ok app.matcher
      → app.catch_panics ≡ true
      → ((id : ℕ) (q : Params) (u : U)
          → CanTell h sa rt mi program app (program.handler id r q u).1)
      → w.unwound ≡ false
      → IsAnswered (dispatch h sa rt mi program app r w)
  dispatch-IsAnswered returns routes r w built on c q =
      let (resp, gave, more) = dispatch-GoesOn returns routes r w built on c q in (resp, gave)

  -- A handler that tells hooks, if anything, and lets no panic through.
  abbrev pub IsCalm : Handler h (World U) → Type 0
  IsCalm f = (r : Request h) (w : World U) → w.unwound ≡ false → Extends w (f r w).0

  -- A middleware that does so itself.
  abbrev pub KeepsCalm : Middleware h (World U) → Type 0
  KeepsCalm m = (next : Handler h (World U)) → IsCalm next → IsCalm (m.handle next)

  run-IsCalm :
      (ms : List (Middleware h (World U))) (f : Handler h (World U))
      → All KeepsCalm ms
      → IsCalm f
      → IsCalm (run h (World U) ms f)
  unfolding run
  run-IsCalm [] f k c = c
  run-IsCalm (m ∷ ms) f (a, k) c = a (run h (World U) ms f) (run-IsCalm ms f k c)

  as_result-Extends :
      (w : World U) (out : World U × Option (Response h))
      → GoesOn w out
      → Extends w (as_result h sa rt mi program app out).0
  as_result-Extends w (v, some x) (resp, a, s) = s
  as_result-Extends w (v, none) (resp, a, s) = ground arith

  after_chain-GoesOn :
      (returns : Returns program) (info : Option RequestInfo) (w : World U)
      (out : World U × Result (Response h))
      → Extends w out.0
      → GoesOn w (after_chain h sa rt mi program app info out)
  after_chain-GoesOn returns info w (v, ok resp) s = reply-GoesOn w v resp s
  after_chain-GoesOn returns info w (v, err e) s =
      GoesOn-trans w v (render_if h sa rt mi program app e info none v) s
        (render_if-GoesOn returns e info none v s.1.1)

  -- The hooks of the application stand around everything, and are told of one response.
  abbrev pub Wraps : Request h → World U → World U × Option (Response h) → Type 0
  Wraps r w out =
      (resp : Response h) × (t : List (ℕ × HookEvent)) × (out.1 ≡ some resp)
      × Tells w
          (told_to app.on_request (request_event (request_info h sa rt r none))
            ++ (t
                ++ told_to app.on_response
                    (response_event (request_info h sa rt r none) resp.status)))
          out.0

  observed-Wraps :
      (returns : Returns program) (r : Request h) (w : World U)
      (out : World U × Option (Response h))
      → w.unwound ≡ false
      → GoesOn (fire_all program app.on_request (request_event (request_info h sa rt r none)) w) out
      → Wraps r w (observed h sa rt mi program app (some (request_info h sa rt r none)) out)
  observed-Wraps returns r w (v, none) q (resp, e, s) = cc
  observed-Wraps returns r w (v, some given) q (resp, e, (t, s)) =
      let i = request_info h sa rt r none in
      let w' = fire_all program app.on_request (request_event i) w in
      let v' = fire_all program app.on_response (response_event i given.status) v in
      let told_first = told_to app.on_request (request_event i) in
      let told_last = told_to app.on_response (response_event i given.status) in
      let last =
        fire_all-Tells program returns app.on_response (response_event i given.status) v s.1 in
      (
        given,
        t,
        rw (last.1) refl,
        Tells-trans w w' v' told_first (t ++ told_last)
            (fire_all-Tells program returns app.on_request (request_event i) w q)
            (Tells-trans w' v v' t told_last s last),
      )

  -- A request that the server hands over gets a response; the hooks of the application for requests
  -- are told before everything else, and those for responses behind everything else, with the
  -- status of that response. This holds over a matcher that was built, with the panic boundary on,
  -- if panic messages can be cut, no handler panics before it gives its future, no hook and no
  -- exception handler panics, each middleware lets no panic through and only adds to what hooks are
  -- told, and something observes the request.
  pub handle-Wraps :
      (returns : Returns program) (routes : List Route) (r : Request h) (w : World U)
      → build mi routes ≡ ok app.matcher
      → app.catch_panics ≡ true
      → ((r' : Request h) (id : ℕ) (q : Params) (u : U)
          → CanTell h sa rt mi program app (program.handler id r' q u).1)
      → All KeepsCalm app.middleware
      → needs_request_info app ≡ true
      → w.unwound ≡ false
      → Wraps r w (handle h sa rt mi program app r w)
  unfolding handle
  handle-Wraps returns routes r w built on c calm needs q =
      let i = request_info h sa rt r none in
      let first = fire_all-Tells program returns app.on_request (request_event i) w q in
      let w' = fire_all program app.on_request (request_event i) w in
      let dispatched : Handler h (World U) =
        λ r' v. as_result h sa rt mi program app (dispatch h sa rt mi program app r' v) in
      let out = run h (World U) app.middleware dispatched r w' in
      rw (needs, go_on-live w' _ (first.1))
        (observed-Wraps returns r w (after_chain h sa rt mi program app (some i) out) q (
          after_chain-GoesOn returns (some i) w' out (
            run-IsCalm app.middleware dispatched calm
              (λ r' v s.
                as_result-Extends v (dispatch h sa rt mi program app r' v)
                  (dispatch-GoesOn returns routes r' v built on (c r') s))
              r w' first.1)))
