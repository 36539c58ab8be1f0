-- ===== src/Middleware/Headers.antt =====
-- crates/tork-core/src/middleware/: request_id.rs and security_headers.rs. The text of a new
-- `Uuid::new_v4` is an argument of the request. Header names that a builder takes are in lower case.
pub mod Layering
use tork_framework.Base.{
  ℕ, ◌++◌, Bool, true, false, Option, none, some, Text, bytes, and_then, is_some, unwrap_or,
  if◌then◌else◌, decimal,
}
use tork_framework.Error.{Result, ok, err}
use tork_framework.Middleware.Http.{Http, Request, Response, Handler}
use tork_framework.Middleware.Chain.{Middleware, reject}

pub record RequestId : Type 0 where
  pub header : Text

abbrev pub new_request_id : RequestId
new_request_id = record { header = bytes "x-request-id" }

abbrev pub header_name : Text → RequestId → RequestId
header_name name m = record m { header = name }

pub record SecurityHeaders : Type 0 where
  pub hsts : Option Text
  pub content_type_options : Option Text
  pub frame_options : Option Text
  pub referrer_policy : Option Text
  pub content_security_policy : Option Text

abbrev pub new_security_headers : SecurityHeaders
new_security_headers = record {
  hsts = some (bytes "max-age=31536000; includeSubDomains");
  content_type_options = some (bytes "nosniff");
  frame_options = some (bytes "DENY");
  referrer_policy = some (bytes "no-referrer");
  content_security_policy = none;
}

abbrev pub set_hsts : Text → SecurityHeaders → SecurityHeaders
set_hsts value m = record m { hsts = some value }

abbrev pub without_hsts : SecurityHeaders → SecurityHeaders
without_hsts m = record m { hsts = none }

abbrev pub set_frame_options : Text → SecurityHeaders → SecurityHeaders
set_frame_options value m = record m { frame_options = some value }

abbrev pub without_frame_options : SecurityHeaders → SecurityHeaders
without_frame_options m = record m { frame_options = none }

abbrev pub set_referrer_policy : Text → SecurityHeaders → SecurityHeaders
set_referrer_policy value m = record m { referrer_policy = some value }

abbrev pub without_referrer_policy : SecurityHeaders → SecurityHeaders
without_referrer_policy m = record m { referrer_policy = none }

abbrev pub without_content_type_options : SecurityHeaders → SecurityHeaders
without_content_type_options m = record m { content_type_options = none }

abbrev pub set_content_security_policy : Text → SecurityHeaders → SecurityHeaders
set_content_security_policy value m = record m { content_security_policy = some value }

module _ (h : Http) where
  abbrev pub max_age_value : ℕ → Bool → Text
  max_age_value seconds include_subdomains =
      if include_subdomains
      then bytes "max-age=" ++ decimal seconds ++ bytes "; includeSubDomains"
      else bytes "max-age=" ++ decimal seconds

  abbrev pub hsts_max_age : ℕ → Bool → SecurityHeaders → SecurityHeaders
  hsts_max_age seconds include_subdomains m = record m {
    hsts = h.from_str (max_age_value seconds include_subdomains);
  }

  -- The id that the request brings, if it can be read, or a new one.
  unfoldable pub request_id : RequestId → (uuid : Text) → Request h → Text
  request_id m uuid r =
      unwrap_or (and_then (h.get m.header r.headers) h.to_str) (bytes "req-" ++ uuid)

  abbrev pub put : Text → Option Text → h.Headers → h.Headers
  put name none hs = hs
  put name (some value) hs = h.insert name value hs

  unfoldable pub set_if_absent : Text → Option Text → h.Headers → h.Headers
  set_if_absent name none hs = hs
  set_if_absent name (some value) hs =
      if is_some (h.get name hs) then hs else h.insert name value hs

  unfoldable pub add_security_headers : SecurityHeaders → h.Headers → h.Headers
  add_security_headers m hs =
      set_if_absent (bytes "content-security-policy") m.content_security_policy (
        set_if_absent (bytes "referrer-policy") m.referrer_policy (
          set_if_absent (bytes "x-frame-options") m.frame_options (
            set_if_absent (bytes "x-content-type-options") m.content_type_options
              (set_if_absent (bytes "strict-transport-security") m.hsts hs))))

  module _ {S : Type 0} where
    -- What a middleware does to the headers of a response, and not to an error.
    abbrev pub on_headers :
        (h.Headers → h.Headers) → S × Result (Response h) → S × Result (Response h)
    on_headers f (s, err e) = (s, err e)
    on_headers f (s, ok resp) = (s, ok (record resp { headers = f resp.headers }))

    unfoldable pub handle_request_id : RequestId → (uuid : Text) → Handler h S → Handler h S
    handle_request_id m uuid next r s =
        let value = h.from_str (request_id m uuid r) in
        on_headers (put m.header value)
          (next (record r { headers = put m.header value r.headers }) s)

    unfoldable pub handle_security_headers : SecurityHeaders → Handler h S → Handler h S
    handle_security_headers m next r s = on_headers (add_security_headers m) (next r s)

    abbrev pub request_id_layer : RequestId → (uuid : Text) → Middleware h S
    request_id_layer m uuid = record {
      name = bytes "RequestId";
      duplicate_policy = reject;
      handle = handle_request_id m uuid;
    }

    abbrev pub security_headers_layer : SecurityHeaders → Middleware h S
    security_headers_layer m = record {
      name = bytes "SecurityHeaders";
      duplicate_policy = reject;
      handle = handle_security_headers m;
    }
