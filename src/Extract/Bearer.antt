-- ===== src/Extract/Bearer.antt =====
-- crates/tork-core/src/extract/header.rs: the bearer token. An extractor reads the headers of the
-- request, and a token is kept as the header's value.
pub mod Checking
use tork_framework.Base.{Option, none, some, Text, bytes, and_then}
use tork_framework.Error.{Result, ok, err, unauthorized_error}
use tork_framework.Middleware.Http.{Http}
use tork_framework.Middleware.Hosts.{strip_prefix}

abbrev pub bearer_prefix : Text
bearer_prefix = bytes "Bearer "

abbrev pub checked : (header : Text) → Option Text → Result Text
checked header none = err (unauthorized_error (bytes "expected a bearer token"))
checked header (some t) = ok header

abbrev pub prefixed : (header : Text) → Option Text → Result Text
prefixed header none = err (unauthorized_error (bytes "invalid Authorization header"))
prefixed header (some value) = checked header (strip_prefix bearer_prefix value)

module _ (h : Http) where
  abbrev pub resolved : Option Text → Result Text
  resolved none = err (unauthorized_error (bytes "missing Authorization header"))
  resolved (some header) = prefixed header (h.to_str header)

  unfoldable pub resolve : h.Headers → Result Text
  resolve hs = resolved (h.get (bytes "authorization") hs)

  -- `BearerToken::token`; without a value it panics.
  unfoldable pub token : Text → Option Text
  token header = and_then (h.to_str header) (strip_prefix bearer_prefix)
