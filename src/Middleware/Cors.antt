-- ===== src/Middleware/Cors.antt =====
-- crates/tork-core/src/middleware/cors.rs: the headers for cross-origin requests, and the answers to
-- preflight requests.
pub mod Origins
use tork_framework.Base.{
  ℕ, ◌≡◌, Bool, true, false, ◌&&◌, ◌||◌, not, Option, none, some, List, [], ◌∷◌, Text, bytes,
  text_eq, any, and_then, is_some, is_empty, join_with, decimal, if◌then◌else◌, ◌++◌,
}
use tork_framework.Error.{Error, Result, ok, err}
use tork_framework.Middleware.Http.{Http, Request, Response, Handler}

pub record Cors : Type 0 where
  pub origins : List Text
  pub methods : Option Text
  pub headers : Option Text
  pub expose : Option Text
  pub credentials : Bool
  pub max_age : Option Text

abbrev pub new_cors : Cors
new_cors = record {
  origins = [];
  methods = none;
  headers = none;
  expose = none;
  credentials = false;
  max_age = none;
}

abbrev pub allow_origin : Text → Cors → Cors
allow_origin origin c = record c { origins = c.origins ++ origin ∷ [] }

abbrev pub allow_credentials : Bool → Cors → Cors
allow_credentials allow c = record c { credentials = allow }

abbrev pub wildcard : Text
wildcard = bytes "*"

abbrev pub is_wildcard : Text → Bool
is_wildcard o = text_eq o wildcard

abbrev pub origin_name : Text
origin_name = bytes "origin"

abbrev pub vary_name : Text
vary_name = bytes "vary"

abbrev pub allow_origin_name : Text
allow_origin_name = bytes "access-control-allow-origin"

abbrev pub allow_credentials_name : Text
allow_credentials_name = bytes "access-control-allow-credentials"

module _ (h : Http) where
  abbrev pub joined : List Text → Option Text
  joined items = let t = join_with (bytes ", ") items in if is_empty t then none else h.from_str t

  abbrev pub allow_methods : List Text → Cors → Cors
  allow_methods ms c = record c { methods = joined ms }

  abbrev pub allow_headers : List Text → Cors → Cors
  allow_headers ms c = record c { headers = joined ms }

  abbrev pub expose_headers : List Text → Cors → Cors
  expose_headers ms c = record c { expose = joined ms }

  abbrev pub max_age : ℕ → Cors → Cors
  max_age seconds c = record c { max_age = h.from_str (decimal seconds) }

  -- For the origin of the request.
  abbrev pub origin_answer : Cors → Text → Option Text
  origin_answer c origin =
      let any_origin = any is_wildcard c.origins in
      if any_origin && c.credentials
      then none
      else if not (any_origin || any (λ o. text_eq o origin) c.origins)
      then none
      else if any_origin
      then some wildcard
      else h.from_str origin

  unfoldable pub allow_origin_value : Cors → Request h → Option Text
  allow_origin_value c r =
      and_then (h.get origin_name r.headers) λ value. and_then (h.to_str value) (origin_answer c)

  -- An insert of a value that may be missing.
  abbrev pub put : Text → Option Text → h.Headers → h.Headers
  put name none hs = hs
  put name (some v) hs = h.insert name v hs

  abbrev pub put_if : Bool → Text → Text → h.Headers → h.Headers
  put_if true name v hs = h.insert name v hs
  put_if false name v hs = hs

  abbrev pub insert_vary : Bool → h.Headers → h.Headers
  insert_vary preflight hs =
      h.insert vary_name
        (if preflight
          then bytes "Origin, Access-Control-Request-Method, Access-Control-Request-Headers"
          else bytes "Origin")
        hs

  abbrev pub is_preflight : Request h → Bool
  is_preflight r =
      text_eq r.method (bytes "OPTIONS")
      && is_some (h.get (bytes "access-control-request-method") r.headers)

  abbrev pub preflight_headers : Cors → Option Text → h.Headers
  preflight_headers c origin = put (bytes "access-control-max-age") c.max_age (
      put_if c.credentials allow_credentials_name (bytes "true") (
        put (bytes "access-control-allow-headers") c.headers (
          put (bytes "access-control-allow-methods") c.methods
            (put allow_origin_name origin (insert_vary true h.empty)))))

  abbrev pub preflight_response : Cors → Option Text → Response h
  preflight_response c origin = record {
    status = 204;
    headers = preflight_headers c origin;
    content = [];
  }

  -- What is added to the response of an actual request.
  abbrev pub annotated_headers : Cors → Text → h.Headers → h.Headers
  annotated_headers c origin hs = put_if c.credentials allow_credentials_name (bytes "true") (
      put (bytes "access-control-expose-headers") c.expose
        (insert_vary false (h.insert allow_origin_name origin hs)))

  abbrev pub annotated : Cors → Option Text → Response h → Response h
  annotated c none resp = resp
  annotated c (some origin) resp = record resp { headers = annotated_headers c origin resp.headers }

  abbrev pub answered :
      {S : Type 0} → Cors → Option Text → S × Result (Response h) → S × Result (Response h)
  answered c origin (s, err e) = (s, err e)
  answered c origin (s, ok resp) = (s, ok (annotated c origin resp))

  unfoldable pub handle_cors : {S : Type 0} → Cors → Handler h S → Handler h S
  handle_cors c next r s =
      if is_preflight r
      then (s, ok (preflight_response c (allow_origin_value c r)))
      else answered c (allow_origin_value c r) (next r s)
