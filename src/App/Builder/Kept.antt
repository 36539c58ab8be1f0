-- ===== src/App/Builder/Kept.antt =====
-- crates/tork-core/src/app.rs: what the state of a built application holds.
use tork_framework.Base.{
  ℕ, ◌+◌, ◌≡◌, ◌≢◌, refl, ap, ◌∙◌, sym, arith, ◌++◌, Bool, true, false, ◌&&◌, not, Option, none,
  some, List, [], ◌∷◌, ◌==◌, and_then, or_else, take, drop, suc,
}
use tork_framework.Error.{ok}
use tork_framework.Router.Matcher.{Matchit}
use tork_framework.Middleware.Http.{Http}
use tork_framework.App.State.{StateMap, get_state, downcast}
use tork_framework.App.State.Typing.{entry-insert_self, entry-insert_ne, downcast_self}
use tork_framework.App.Builder.{
  StateType, ws_shutdown, sse_limiter, app_body_limit, ws_ip_limiter, app_ws_config, ws_hooks,
  app_upload_config, cache_handle, throttle_engine, of_program, Values, ValueOf, app_types, App,
  insert_some, ip_limit, hooks_of, Setting, settings, fill, filled_state, Built, build_app,
}
use tork_framework.App.Builder.Registered.{build_app-ok}

-- A number for each type.
abbrev index : StateType → ℕ
index ws_shutdown = 0
index sse_limiter = 1
index app_body_limit = 2
index ws_ip_limiter = 3
index app_ws_config = 4
index ws_hooks = 5
index app_upload_config = 6
index cache_handle = 7
index throttle_engine = 8
index (of_program n) = 9 + n

index_ne : (t u : StateType) → (index t == index u) ≡ false → t ≢ u
index_ne t u d e = let q : index t ≡ index u = ap index e in ground arith

module _ (vs : Values) (h : Http) (U : Type 0) where
  -- What was configured for a type of the framework.
  abbrev pub configured : App vs h U → (t : StateType) → Option (ValueOf vs t)
  configured a ws_shutdown = some tt
  configured a sse_limiter = a.max_sse_connections
  configured a app_body_limit = a.max_request_body_size
  configured a ws_ip_limiter = ip_limit vs h U a.ws_config
  configured a app_ws_config = a.ws_config
  configured a ws_hooks = hooks_of vs h U a.on_ws_connect a.on_ws_disconnect
  configured a app_upload_config = a.upload_config
  configured a cache_handle = a.cache
  configured a throttle_engine = a.throttler
  configured a (of_program n) = none

  abbrev is_other : StateType → Setting vs h U → Bool
  is_other t s = not (index s.0 == index t)

  abbrev all_other : StateType → List (Setting vs h U) → Bool
  all_other t [] = true
  all_other t (s ∷ ss) = is_other t s && all_other t ss

  get_state-insert_some :
      (t : StateType) (o : Option (ValueOf vs t)) (m : StateMap (app_types vs))
      → get_state (app_types vs) t (insert_some vs h U t o m)
        ≡ or_else o (get_state (app_types vs) t m)
  unfolding get_state
  get_state-insert_some t none m = refl
  get_state-insert_some t (some v) m =
      ap (λ e. and_then e (downcast (app_types vs) t)) (entry-insert_self (app_types vs) t (t, v) m)
      ∙ downcast_self (app_types vs) t v

  get_state-insert_some_ne :
      (t u : StateType) (o : Option (ValueOf vs u)) (m : StateMap (app_types vs))
      → (index u == index t) ≡ false
      → get_state (app_types vs) t (insert_some vs h U u o m) ≡ get_state (app_types vs) t m
  unfolding get_state
  get_state-insert_some_ne t u none m d = refl
  get_state-insert_some_ne t u (some v) m d =
      ap (λ e. and_then e (downcast (app_types vs) t))
        (entry-insert_ne (app_types vs) u t (u, v) m (index_ne u t d))

  get_state-fill_ne :
      (t : StateType) (ss : List (Setting vs h U)) (m : StateMap (app_types vs))
      → all_other t ss ≡ true
      → get_state (app_types vs) t (fill vs h U ss m) ≡ get_state (app_types vs) t m
  get_state-fill_ne t [] m d = refl
  get_state-fill_ne t ((u, o) ∷ ss) m d =
      get_state-fill_ne t ss (insert_some vs h U u o m) (ground arith)
      ∙ get_state-insert_some_ne t u o m (ground arith)

  get_state-fill :
      (t : StateType) (o : Option (ValueOf vs t)) (before behind : List (Setting vs h U))
      (m : StateMap (app_types vs))
      → all_other t before ≡ true
      → all_other t behind ≡ true
      → get_state (app_types vs) t (fill vs h U (before ++ (t, o) ∷ behind) m)
        ≡ or_else o (get_state (app_types vs) t m)
  get_state-fill t o [] behind m d e =
      get_state-fill_ne t behind (insert_some vs h U t o m) e ∙ get_state-insert_some t o m
  get_state-fill t o ((u, p) ∷ before) behind m d e =
      get_state-fill t o before behind (insert_some vs h U u p m) (ground arith) e
      ∙ ap (or_else o) (get_state-insert_some_ne t u p m (ground arith))

  -- The setting of a place in the list of them.
  get_state-at :
      (a : App vs h U) (n : ℕ) (t : StateType) (o : Option (ValueOf vs t))
      → take n (settings vs h U a) ++ (t, o) ∷ drop (suc n) (settings vs h U a) ≡ settings vs h U a
      → all_other t (take n (settings vs h U a)) ≡ true
      → all_other t (drop (suc n) (settings vs h U a)) ≡ true
      → get_state (app_types vs) t (filled_state vs h U a)
        ≡ or_else o (get_state (app_types vs) t a.state)
  unfolding filled_state
  get_state-at a n t o e before behind =
      ap (λ ss. get_state (app_types vs) t (fill vs h U ss a.state)) (sym e)
      ∙ get_state-fill t o (take n (settings vs h U a)) (drop (suc n) (settings vs h U a)) a.state
          before behind

  get_state-filled_state :
      (a : App vs h U) (t : StateType)
      → get_state (app_types vs) t (filled_state vs h U a)
        ≡ or_else (configured a t) (get_state (app_types vs) t a.state)
  get_state-filled_state a ws_shutdown =
      get_state-at a 0 ws_shutdown (configured a ws_shutdown) refl refl refl
  get_state-filled_state a sse_limiter =
      get_state-at a 1 sse_limiter (configured a sse_limiter) refl refl refl
  get_state-filled_state a app_body_limit =
      get_state-at a 2 app_body_limit (configured a app_body_limit) refl refl refl
  get_state-filled_state a ws_ip_limiter =
      get_state-at a 3 ws_ip_limiter (configured a ws_ip_limiter) refl refl refl
  get_state-filled_state a app_ws_config =
      get_state-at a 4 app_ws_config (configured a app_ws_config) refl refl refl
  get_state-filled_state a ws_hooks =
      get_state-at a 5 ws_hooks (configured a ws_hooks) refl refl refl
  get_state-filled_state a app_upload_config =
      get_state-at a 6 app_upload_config (configured a app_upload_config) refl refl refl
  get_state-filled_state a cache_handle =
      get_state-at a 7 cache_handle (configured a cache_handle) refl refl refl
  get_state-filled_state a throttle_engine =
      get_state-at a 8 throttle_engine (configured a throttle_engine) refl refl refl
  get_state-filled_state a (of_program n) =
      unfold filled_state in
      get_state-fill_ne (of_program n) (settings vs h U a) a.state (ground arith)

  -- In the state of a built application, each type of the framework stands exactly with what was
  -- configured for it, or if nothing was, with what was there, and every type of the program stands
  -- as it was given.
  pub get_state-build_app :
      (mi : Matchit) (a : App vs h U) (b : Built vs h U) (t : StateType)
      → build_app vs h U mi a ≡ ok b
      → get_state (app_types vs) t b.app_state
        ≡ or_else (configured a t) (get_state (app_types vs) t a.state)
  get_state-build_app mi a b t e =
      ap (λ c. get_state (app_types vs) t c.app_state) (build_app-ok vs h U mi a b e).3
      ∙ get_state-filled_state a t
