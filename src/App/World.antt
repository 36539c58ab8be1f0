-- ===== src/App/World.antt =====
-- crates/tork-core/src/app.rs, service.rs and hooks.rs: what a running application is made of, the
-- events of its hooks, and the rendering of an error. The program's own code (handlers, hooks,
-- exception handlers) is the parameter `Code`, over a state of its own; all of it may panic. How long
-- a response took is left out of its event, and so are log lines.
use tork_framework.Base.{
  ℕ, Bool, ◌||◌, not, Option, none, some, List, [], ◌∷◌, Text, bytes, is_empty, if◌then◌else◌, ltb,
  leb, ◌==◌, length, and_then, unwrap_or, get_elem?, take,
}
use tork_framework.Error.{
  Error, ErrorBody, ErrorDetail, Cause, Result, StatusApi, response_status, error_body,
}
use tork_framework.Router.Matcher.{Matcher, Params}
use tork_framework.Middleware.Http.{Http, Request, Response}
use tork_framework.Middleware.Chain.{Middleware}

pub record RequestInfo : Type 0 where
  pub method : Text
  pub path : Text
  pub route : Option Text
  pub request_id : Option Text

-- What a hook is told.
pub data HookEvent : Type 0 where
  request_event : RequestInfo → HookEvent
  response_event : RequestInfo → ℕ → HookEvent
  error_event : RequestInfo → ℕ → Text → Text → HookEvent
  validation_event : RequestInfo → List ErrorDetail → HookEvent
  panic_event : RequestInfo → Text → HookEvent

-- The state of the program's own code, what was told to which hook, and whether a panic is on its
-- way through the task. Behind that no hook runs.
pub record World (U : Type 0) : Type 0 where
  pub user : U
  pub fired : List (ℕ × HookEvent)
  pub unwound : Bool

-- A panic's payload: a text, or something else.
pub data Payload : Type 0 where
  message : Text → Payload
  opaque : Payload

-- What comes of a handler: a result, a panic in its future, or a panic before it gave its future.
pub data Outcome (h : Http) : Type 0 where
  answered : Result (Response h) → Outcome h
  panicked : Payload → Outcome h
  panicked_early : Outcome h

-- A hook says whether it panics, and an exception handler without a response does.
pub record Code (h : Http) (U : Type 0) : Type 0 where
  pub hook : ℕ → HookEvent → U → U × Bool
  pub handler : ℕ → Request h → Params → U → U × Outcome h
  pub exception : ℕ → Cause → RequestInfo → U → U × Option (Response h)

-- `is_char_boundary` of UTF-8 text, and the slice up to an index, which panics off a boundary.
abbrev pub is_boundary : Text → ℕ → Bool
is_boundary s n = elim (get_elem? s n) [ none ↦ length s == n | some b ↦ ltb b 128 || leb 192 b ]

abbrev pub slice_to : ℕ → Text → Option Text
slice_to n s = if is_boundary s n then some (take n s) else none

abbrev pub max_panic_message : ℕ
max_panic_message = 1024

-- `none`: the slice panics itself.
abbrev pub panic_message : Payload → Option Text
panic_message (message s) =
    if ltb max_panic_message (length s) then slice_to max_panic_message s else some s
panic_message opaque = some (bytes "panic")

-- What rendering and routing read: the serializer, the ids of a response, and the path of a URI.
pub record Rendering : Type 0 where
  pub to_json : ErrorBody → Option Text
  pub trace_id : Text
  pub timestamp : Text
  pub uri_path : Option Text → Text

abbrev pub fallback_error_body : Text
fallback_error_body =
    bytes
      "{\"status\":500,\"code\":\"INTERNAL_SERVER_ERROR\",\"title\":\"Internal Server Error\",\"message\":\"Internal server error\"}"

abbrev pub handler_of : ℕ → List (ℕ × ℕ) → Option ℕ
handler_of t [] = none
handler_of t ((u, i) ∷ hs) = if u == t then some i else handler_of t hs

pub record AppInner (h : Http) (U : Type 0) : Type 0 where
  pub matcher : Matcher
  pub middleware : List (Middleware h (World U))
  pub on_request : List ℕ
  pub on_response : List ℕ
  pub on_error : List ℕ
  pub on_validation_error : List ℕ
  pub on_panic : List ℕ
  pub catch_panics : Bool
  pub exception_handlers : List (ℕ × ℕ)

module _ {h : Http} {U : Type 0} where
  abbrev pub needs_request_info : AppInner h U → Bool
  needs_request_info a =
      not (is_empty a.on_request)
      || not (is_empty a.on_response)
      || not (is_empty a.on_error)
      || not (is_empty a.on_validation_error)
      || not (is_empty a.on_panic)
      || not (is_empty a.exception_handlers)

module _ (h : Http) (sa : StatusApi) (rt : Rendering) where
  abbrev pub error_headers : h.Headers
  error_headers =
      h.insert (bytes "cache-control") (bytes "no-store")
        (h.insert (bytes "content-type") (bytes "application/json") h.empty)

  -- `Error::into_response`
  abbrev pub error_response : Error → Response h
  error_response e = record {
    status = response_status sa e;
    headers = error_headers;
    content = unwrap_or (rt.to_json (error_body sa e rt.trace_id rt.timestamp)) fallback_error_body;
  }

  abbrev pub request_info : Request h → Option Text → RequestInfo
  request_info r route = record {
    method = r.method;
    path = rt.uri_path r.path_and_query;
    route = route;
    request_id = and_then (h.get (bytes "x-request-id") r.headers) h.to_str;
  }
