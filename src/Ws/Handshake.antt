-- ===== src/Ws/Handshake.antt =====
-- crates/tork-core/src/ws.rs: `__ws_handshake` and the check of the origin. What the crates http and
-- tungstenite read and derive is the parameter `Uris`.
pub mod Origins
use tork_framework.Base.{
  ℕ, Bool, true, false, ◌&&◌, not, Option, none, some, List, [], ◌∷◌, Text, bytes, text_eq, lower,
  any, ◌==◌, if◌then◌else◌, and_then, unwrap_or, starts_with, is_some,
}
use tork_framework.Error.{
  Result, ok, err, ◌>>=◌, Error, error, bad_request_error, internal_error, with_code,
}
use tork_framework.Error
use tork_framework.Middleware.Http.{
  Http, Request, Response, RequestScheme, http_scheme, https_scheme,
}
use tork_framework.Ws.Config.{
  WebSocketConfig, WsOriginPolicy, any_origin, allowlist, effective_config,
}

pub record Authority : Type 0 where
  pub host : Text
  pub port : Option ℕ

-- `Uri::from_str` as far as its scheme and authority, `Authority::from_str`, and `derive_accept_key`.
pub record Uris : Type 0 where
  pub parse_uri : Text → Option (Option Text × Option Authority)
  pub parse_authority : Text → Option Authority
  pub derive_accept_key : Text → Text

pub record ParsedOrigin : Type 0 where
  pub scheme : Text
  pub host : Text
  pub port : ℕ

abbrev pub default_port : Text → ℕ
default_port scheme = if text_eq scheme (bytes "https") then 443 else 80

abbrev pub known_scheme : Text → Option Text
known_scheme s =
    if text_eq s (bytes "http")
    then some (bytes "http")
    else if text_eq s (bytes "https")
    then some (bytes "https")
    else none

abbrev pub origin_at : Text → Authority → ParsedOrigin
origin_at scheme a = record {
  scheme = scheme;
  host = lower a.host;
  port = unwrap_or a.port (default_port scheme);
}

abbrev pub origin_eq : ParsedOrigin → ParsedOrigin → Bool
origin_eq a b = text_eq a.scheme b.scheme && text_eq a.host b.host && a.port == b.port

abbrev pub scheme_text : RequestScheme → Text
scheme_text http_scheme = bytes "http"
scheme_text https_scheme = bytes "https"

-- `contains`
unfoldable pub contains_text : Text → Text → Bool
contains_text needle [] = starts_with needle []
contains_text needle (c ∷ s) =
    let rest = contains_text needle s in if starts_with needle (c ∷ s) then true else rest

abbrev pub origin_forbidden : Error
origin_forbidden =
    with_code (bytes "WS_ORIGIN_FORBIDDEN")
      (error Error.forbidden (bytes "websocket origin is not allowed"))

abbrev pub not_a_websocket : Text → Error
not_a_websocket message = with_code (bytes "NOT_A_WEBSOCKET") (bad_request_error message)

abbrev pub or_refuse : {A : Type 0} → Error → Option A → Result A
or_refuse e none = err e
or_refuse e (some a) = ok a

abbrev pub require : Error → Bool → Result (Unit {0})
require e b = if b then ok tt else err e

module _ (uris : Uris) where
  unfoldable pub parse_origin : Text → Option ParsedOrigin
  parse_origin origin = and_then (uris.parse_uri origin) λ u.
      and_then u.0
        λ s. and_then (known_scheme s) λ scheme. and_then u.1 λ a. some (origin_at scheme a)

  abbrev pub is_listed : ParsedOrigin → Text → Bool
  is_listed actual allowed = elim (parse_origin allowed) [
    | none ↦ false
    | some a ↦ origin_eq a actual
  ]

  module _ (h : Http) where
    abbrev pub header : Text → Request h → Option Text
    header name r = and_then (h.get name r.headers) h.to_str

    unfoldable pub expected_same_origin : Request h → Option ParsedOrigin
    expected_same_origin r = and_then (header (bytes "host") r) λ host.
        and_then (uris.parse_authority host)
          λ a. some (origin_at (scheme_text (unwrap_or r.scheme http_scheme)) a)

    abbrev pub check_policy : Request h → Text → Option WsOriginPolicy → Result (Unit {0})
    check_policy r origin (some any_origin) = ok tt
    check_policy r origin (some (allowlist allowed)) =
        or_refuse origin_forbidden (parse_origin origin) >>= λ actual.
        require origin_forbidden (any (is_listed actual) allowed)
    check_policy r origin none = or_refuse origin_forbidden (parse_origin origin) >>= λ actual.
        or_refuse origin_forbidden (expected_same_origin r) >>= λ expected.
        require origin_forbidden (origin_eq actual expected)

    abbrev pub check_origin : Request h → WebSocketConfig → Option Text → Result (Unit {0})
    check_origin r config none = ok tt
    check_origin r config (some origin) = check_policy r origin config.origin_policy

    unfoldable pub validate_origin :
        Request h → Option WebSocketConfig → WebSocketConfig → Result (Unit {0})
    validate_origin r app_default route =
        check_origin r (effective_config app_default route) (header (bytes "origin") r)

    abbrev pub is_websocket : Request h → Bool
    is_websocket r = is_some (
        and_then (header (bytes "upgrade") r)
          λ v. if text_eq (lower v) (bytes "websocket") then some v else none)

    abbrev pub is_upgrade : Request h → Bool
    is_upgrade r = is_some (
        and_then (header (bytes "connection") r)
          λ v. if contains_text (bytes "upgrade") (lower v) then some v else none)

    abbrev pub is_version_ok : Request h → Bool
    is_version_ok r = is_some (
        and_then (header (bytes "sec-websocket-version") r)
          λ v. if text_eq v (bytes "13") then some v else none)

    abbrev pub switching : Text → Response h
    switching accept = record {
      status = 101;
      headers = h.insert (bytes "sec-websocket-accept") accept (
          h.insert (bytes "connection") (bytes "upgrade")
            (h.insert (bytes "upgrade") (bytes "websocket") h.empty));
      content = [];
    }

    -- `__ws_handshake`
    unfoldable pub ws_handshake :
        Request h → Option WebSocketConfig → WebSocketConfig → Result (Response h)
    ws_handshake r app_default route = validate_origin r app_default route >>= λ _.
        require (not_a_websocket (bytes "expected a WebSocket upgrade")) (is_websocket r) >>= λ _.
        require (not_a_websocket (bytes "WebSocket upgrade requires Connection: upgrade"))
          (is_upgrade r)
        >>= λ _.
            require (not_a_websocket (bytes "unsupported WebSocket version")) (is_version_ok r)
            >>= λ _.
                or_refuse (not_a_websocket (bytes "missing Sec-WebSocket-Key"))
                  (h.get (bytes "sec-websocket-key") r.headers)
                >>= λ key.
                    or_refuse (internal_error (bytes "failed to build WebSocket accept header"))
                      (h.from_str (uris.derive_accept_key key))
                    >>= λ accept. ok (switching accept)
