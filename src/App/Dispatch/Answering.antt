-- ===== src/App/Dispatch/Answering.antt =====
-- Whether a request is answered: by its route, by a routing failure, or out of a panic that the
-- boundary caught.
use tork_framework.Base.{
  ℕ, zero, suc, ◌≡◌, ◌≤◌, ◌<◌, ◌↔◌, refl, ap, ◌∙◌, inl, inr, [], ◌∷◌, length, get_elem?,
  get_elem?-some, ltb, ltb→lt, Bool-cases, Option-cases, ◌++◌, true, false, Option, none, some,
  Text, ◌||◌, arith,
}
use tork_framework.Error.{Error, Cause, StatusApi, with_source, take_source}
use tork_framework.Error.Recovery.{take_source-with_source}
use tork_framework.Router.Routes.{Route, has_hooks}
use tork_framework.Router.Matcher.{Matchit, Params, find, found}
use tork_framework.Middleware.Http.{Http, Request, Response}
use tork_framework.App.World.{
  RequestInfo, panic_event, request_event, World, Payload, Outcome, answered, Code, panic_message,
  slice_to, message, Rendering, handler_of, AppInner, needs_request_info,
}
use tork_framework.App.World
use tork_framework.App.Dispatch.{
  fire_all, fire_error, handler_for, recovered, rendered, render_error, panic_response, told,
  dispatch_found, dispatch, handled,
}
use tork_framework.App.Dispatch.Observing.{
  Tells, Tells-trans, Returns, told_to, fire_all-Tells, known, go_on-live,
}

-- Behind the first `n` bytes of a text stands a byte that does not begin a character of UTF-8.
abbrev pub GoesOnWithin : ℕ → Text → Type 0
GoesOnWithin n s = (b : ℕ) × (get_elem? s n ≡ some b) × (128 ≤ b) × (b < 192)

get_elem?-length : (s : Text) (n b : ℕ) → get_elem? s n ≡ some b → n < length s
get_elem?-length [] n b e = cc
get_elem?-length (c ∷ s) zero b e = omega arith
get_elem?-length (c ∷ s) (suc n) b e = ground (arith, get_elem?-length s n b e)

slice_to-GoesOnWithin : (n : ℕ) (s : Text) → n < length s → (slice_to n s ≡ none) ↔ GoesOnWithin n s
slice_to-GoesOnWithin n s long =
    let (b, e) = get_elem?-some s n long in
    (λ h. (b, e, ground arith, ground arith), λ (c, e', lo, hi). ground arith)

panic_message-GoesOnWithin : (s : Text) → (panic_message (message s) ≡ none) ↔ GoesOnWithin 1024 s
panic_message-GoesOnWithin s = elim (Bool-cases (ltb 1024 (length s))) [
  | inl long ↦ rw long (slice_to-GoesOnWithin 1024 s (ltb→lt 1024 (length s) long))
  | inr short ↦ rw short (λ h. cc, λ (b, e, lo, hi). ground (arith, get_elem?-length s 1024 b e))
]

module _ (h : Http) (sa : StatusApi) (rt : Rendering) (mi : Matchit) {U : Type 0}
    (program : Code h U) (app : AppInner h U) where
  -- A panic comes out of the handler's future, and its message can be cut.
  abbrev pub CanTell : Outcome h → Type 0
  CanTell (answered res) = Unit {0}
  CanTell (World.panicked p) = (m : Text) × (panic_message p ≡ some m)
  CanTell World.panicked_early = ⊥

  -- The world that a handler starts in.
  abbrev pub entered : Request h → Route → World U → World U
  entered r route w =
      fire_all program route.hooks.request (request_event (known h sa rt mi program app r route)) w

  dispatch_found_panic :
      (returns : Returns program) (route : Route) (params : Params) (r : Request h) (w : World U)
      (p : Payload)
      → w.unwound ≡ false
      → (needs_request_info app || has_hooks route) ≡ true
      → app.catch_panics ≡ true
      → (program.handler route.handler r params (entered r route w).user).1 ≡ World.panicked p
      → (v : World U) × (v.fired ≡ (entered r route w).fired)
        × (v.unwound ≡ false)
        × (dispatch_found h sa rt mi program app route params r w
            ≡ told h sa rt mi program app
                (known h sa rt mi program app r route)
                (panic_message p)
                v)
  dispatch_found_panic returns route params r w p q needs on gave =
      let first =
        fire_all-Tells program returns route.hooks.request
          (request_event (known h sa rt mi program app r route)) w q in
      (
        record (entered r route w) {
          user = (program.handler route.handler r params (entered r route w).user).0;
        },
        refl,
        first.1,
        rw (needs, go_on-live (entered r route w) _ (first.1), gave, on) refl,
      )

  -- If the future of a route's handler panics, with the panic boundary on and a message that can be
  -- cut, and no hook panics, while something observes the request, then the response is the 500 of
  -- a panic, and the hooks that are told are the route's request hooks and then the panic hooks;
  -- the response hooks of the route are not.
  pub dispatch-told :
      (returns : Returns program) (route : Route) (params : Params) (r : Request h) (w : World U)
      (p : Payload) (m : Text)
      → w.unwound ≡ false
      → find mi app.matcher r.method (rt.uri_path r.path_and_query) ≡ found route params
      → (needs_request_info app || has_hooks route) ≡ true
      → app.catch_panics ≡ true
      → (program.handler route.handler r params (entered r route w).user).1 ≡ World.panicked p
      → panic_message p ≡ some m
      → ((dispatch h sa rt mi program app r w).1 ≡ some (panic_response h sa rt mi program app))
        × Tells w
            (told_to route.hooks.request (request_event (known h sa rt mi program app r route))
              ++ told_to app.on_panic (panic_event (known h sa rt mi program app r route) m))
            (dispatch h sa rt mi program app r w).0
  unfolding dispatch
  dispatch-told returns route params r w p m q at needs on gave cut =
      let i = known h sa rt mi program app r route in
      let first = fire_all-Tells program returns route.hooks.request (request_event i) w q in
      let (v, fired, up, same) = dispatch_found_panic returns route params r w p q needs on gave in
      let last = fire_all-Tells program returns app.on_panic (panic_event i m) v up in
      rw (at, same, cut)
        (
          rw (last.1) refl,
          Tells-trans w v (fire_all program app.on_panic (panic_event i m) v)
              (told_to route.hooks.request (request_event i))
              (told_to app.on_panic (panic_event i m)) (fired ∙ first.0, up) last,
        )

  told-none :
      (returns : Returns program) (i : RequestInfo) (s : Text) (v : World U)
      → v.unwound ≡ false
      → (((told h sa rt mi program app i (panic_message (message s)) v).1 ≡ none)
          × ((told h sa rt mi program app i (panic_message (message s)) v).0.unwound ≡ true))
        ↔ GoesOnWithin 1024 s
  told-none returns i s v up = elim (Option-cases (panic_message (message s))) [
    | inl cut ↦ rw cut (λ h. (panic_message-GoesOnWithin s).0 cut, λ h. (refl, refl))
    | inr (m, whole) ↦ rw whole (
      λ (e, u).
          let q = (fire_all-Tells program returns app.on_panic (panic_event i m) v up).1 in cc,
      λ cut. let none_cut = (panic_message-GoesOnWithin s).1 cut in cc,
    )
  ]

  -- If something observes the request and the future of its handler panics with a text, with the
  -- panic boundary on and no hook panicking, then the panic goes through the boundary and there is
  -- no response exactly if the text goes on behind its first 1024 bytes within a character.
  pub dispatch-panic_message :
      (returns : Returns program) (route : Route) (params : Params) (r : Request h) (w : World U)
      (s : Text)
      → w.unwound ≡ false
      → find mi app.matcher r.method (rt.uri_path r.path_and_query) ≡ found route params
      → (needs_request_info app || has_hooks route) ≡ true
      → app.catch_panics ≡ true
      → (program.handler route.handler r params (entered r route w).user).1
        ≡ World.panicked (message s)
      → (((dispatch h sa rt mi program app r w).1 ≡ none)
          × ((dispatch h sa rt mi program app r w).0.unwound ≡ true))
        ↔ GoesOnWithin 1024 s
  unfolding dispatch
  dispatch-panic_message returns route params r w s q at needs on gave =
      let (v, fired, up, same) =
        dispatch_found_panic returns route params r w (message s) q needs on gave in
      rw (at, same) (told-none returns (known h sa rt mi program app r route) s v up)

  handler_for-some :
      (t id : ℕ)
      → handler_of t app.exception_handlers ≡ some id
      → handler_for h sa rt mi program app (some t) ≡ some (t, id)
  handler_for-some t id has = ground arith

  handled-answer :
      (v : World U) (out : U × Option (Response h))
      → (handled h sa rt mi program app v out).1 ≡ out.1
  handled-answer v (u, none) = refl
  handled-answer v (u, some resp) = refl

  recovered-with_source :
      (e : Error) (c : Cause) (id : ℕ) (i : RequestInfo) (v : World U)
      → v.unwound ≡ false
      → (recovered h sa rt mi program app id i (take_source c.type_id (with_source c e)) v).1
        ≡ (program.exception id c i v.user).1
  recovered-with_source e c id i v q =
      ap (λ x. (recovered h sa rt mi program app id i x v).1) (take_source-with_source c e)
      ∙ ap (λ o. o.1)
          (go_on-live v (handled h sa rt mi program app v (program.exception id c i v.user)) q)
      ∙ handled-answer v (program.exception id c i v.user)

  -- An error with an attached cause, for whose type an exception handler is registered, is answered
  -- by that handler, which gets that cause, in the state that the error hooks leave; if that
  -- handler panics, there is no response. No error hook panics.
  pub render_error-with_source :
      (e : Error) (c : Cause) (id : ℕ) (i : RequestInfo) (route : Option Route) (w : World U)
      → handler_of c.type_id app.exception_handlers ≡ some id
      → (fire_error h sa rt mi program app (with_source c e) i route w).unwound ≡ false
      → (render_error h sa rt mi program app (with_source c e) i route w).1
        ≡ (program.exception id c i
            (fire_error h sa rt mi program app (with_source c e) i route w).user).1
  unfolding render_error
  render_error-with_source e c id i route w has q =
      ap
        (λ x.
          (rendered h sa rt mi program app (with_source c e) i x
            (fire_error h sa rt mi program app (with_source c e) i route w)).1)
        (handler_for-some c.type_id id has)
      ∙ recovered-with_source e c id i
          (fire_error h sa rt mi program app (with_source c e) i route w) q
