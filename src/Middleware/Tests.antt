-- ===== src/Middleware/Tests.antt =====
-- Tests of the middlewares, and their theorems at concrete inputs, over headers as a list of pairs.
use tork_framework.Base.{
  ℕ, ◌+◌, ◌≤◌, ◌≡◌, ◌⊎◌, refl, ◌++◌, true, false, not, none, some, List, [], ◌∷◌, Text, bytes,
  lookup, insert, text_eq, contains_byte, split_on, starts_with, ends_with, lower, length, decimal,
  or_else, ◌≢◌, text_ne, arith,
}
use tork_framework.Instances.{pairs}
use tork_framework.Error.{Error, ok, err, bad_request_error}
use tork_framework.Middleware.Http.{Request, Response, Handler, chunk, trailers}
use tork_framework.Middleware.Chain.{
  Middleware, DuplicatePolicy, reject, replace, resolve_duplicates, resolve_from, add_entry, run,
}
use tork_framework.Middleware.Chain.Duplicates.{is_ok, clashes, resolve_duplicates-clashes}
use tork_framework.Middleware.Cors.{
  Cors, new_cors, allow_origin, allow_credentials, allow_origin_value, handle_cors, origin_name,
}
use tork_framework.Middleware.Cors.Origins.{IsAllowed, allow_origin_value-IsAllowed}
use tork_framework.Middleware.Hosts.{
  Networks, ProxyHeaders, new_proxy_headers, trust_loopback, trusted_host, allows, strip_port,
  strip_prefix,
}
use tork_framework.Middleware.Hosts.Trust.{guarded}
use tork_framework.Middleware.Hosts.Strangers.{IsListed, untrusted_peer}
use tork_framework.Middleware.BodyLimit.{
  handle_body_limit, read_body_with_limit, parse_usize, digits_value,
}
use tork_framework.Middleware.BodyLimit.Reading.{handle_body_limit-bounded}
use tork_framework.Middleware.Headers.{
  new_request_id, new_security_headers, hsts_max_age, request_id, set_if_absent,
  add_security_headers, handle_request_id, handle_security_headers, request_id_layer,
  security_headers_layer,
}
use tork_framework.Middleware.Headers.Layering.{value_in, table, with_id, run-layers}

abbrev no_networks : Networks
no_networks = record { IpNet = Unit {0}; contains = λ n ip. false }

abbrev get_request : List (Text × Text) → Request pairs
get_request hs = record {
  method = bytes "GET";
  uri_scheme = none;
  path_and_query = some (bytes "/");
  headers = hs;
  peer = some (bytes "10.0.0.9");
  scheme = none;
  frames = chunk (bytes "ab") ∷ trailers ∷ chunk (bytes "c") ∷ [];
}

-- The handler behind counts its calls.
abbrev page : Response pairs
page = record { status = 200; headers = []; content = bytes "ok" }

abbrev count_calls : Handler pairs ℕ
count_calls r n = (n + 1, ok page)

abbrev layer : Text → DuplicatePolicy → Middleware pairs ℕ
layer name policy = record { name = name; duplicate_policy = policy; handle = λ next. next }

abbrev layers : List (Middleware pairs ℕ)
layers =
    layer (bytes "Cors") reject ∷ layer (bytes "Trace") replace ∷ layer (bytes "Trace") replace ∷ []

middleware_model : Unit {0}
unfolding lookup insert text_eq contains_byte split_on starts_with ends_with lower
    allow_origin_value handle_cors resolve_duplicates resolve_from add_entry run allows strip_port
    strip_prefix read_body_with_limit handle_body_limit parse_usize digits_value request_id
    set_if_absent add_security_headers handle_request_id handle_security_headers value_in decimal
middleware_model = tt

duplicate_tests :
    (resolve_duplicates pairs ℕ layers
      ≡ ok (layer (bytes "Cors") reject ∷ layer (bytes "Trace") replace ∷ []))
    × (is_ok (resolve_duplicates pairs ℕ (layers ++ layer (bytes "Cors") reject ∷ [])) ≡ false)
unfolding middleware_model
duplicate_tests = (refl, refl)

resolve_duplicates-clashes_example :
    is_ok (resolve_duplicates pairs ℕ layers) ≡ not (clashes [] layers)
resolve_duplicates-clashes_example = resolve_duplicates-clashes layers

abbrev site : Text
site = bytes "https://a.example"

abbrev cors : Cors
cors = allow_credentials true (allow_origin site new_cors)

abbrev from_site : Request pairs
from_site = get_request ((origin_name, site) ∷ [])

abbrev asking : Request pairs
asking = record from_site {
  method = bytes "OPTIONS";
  headers = (origin_name, site) ∷ (bytes "access-control-request-method", bytes "PUT") ∷ [];
}

allow_origin_value-IsAllowed_example :
    (value : Text) × (origin : Text) × (lookup origin_name from_site.headers ≡ some value)
    × (some value ≡ some origin)
    × IsAllowed pairs cors origin site
unfolding middleware_model
allow_origin_value-IsAllowed_example = allow_origin_value-IsAllowed pairs cors from_site site refl

abbrev proxy : ProxyHeaders no_networks
proxy = trust_loopback new_proxy_headers

abbrev spoofed : Request pairs
spoofed =
    get_request
      ((bytes "host", bytes "evil.test:80") ∷ (bytes "x-forwarded-host", bytes "example.com") ∷ [])

abbrev proxied : Request pairs
proxied = record spoofed { peer = some (bytes "127.0.0.1") }

untrusted_peer_example :
    (IsListed (bytes "*.example.com" ∷ []) (bytes "evil.test")
      × (run pairs ℕ
            (guarded pairs no_networks proxy (trusted_host (bytes "*.example.com" ∷ [])))
            count_calls
            spoofed
            0
          ≡ count_calls spoofed 0))
    ⊎ ((¬ IsListed (bytes "*.example.com" ∷ []) (bytes "evil.test"))
        × (run pairs ℕ
              (guarded pairs no_networks proxy (trusted_host (bytes "*.example.com" ∷ [])))
              count_calls
              spoofed
              0
            ≡ (0, err (bad_request_error (bytes "invalid host header")))))
unfolding middleware_model
untrusted_peer_example =
    untrusted_peer pairs no_networks proxy (bytes "*.example.com" ∷ []) count_calls spoofed 0
      (bytes "evil.test:80") b'e' (bytes "vil.test") (some (bytes "80"))
      (
        (
          text_ne (bytes "127.0.0.1") (bytes "10.0.0.9") refl,
          (text_ne (bytes "::1") (bytes "10.0.0.9") refl, tt),
        ),
        tt,
      )
      refl refl (λ e. omega arith) refl

handle_body_limit-bounded_example :
    ((e : Error) × (handle_body_limit pairs 3 count_calls from_site 0 ≡ (0, err e)))
    ⊎ ((t : Text) × (length t ≤ 3)
        × (handle_body_limit pairs 3 count_calls from_site 0
            ≡ count_calls (record from_site { frames = chunk t ∷ [] }) 0))
handle_body_limit-bounded_example = handle_body_limit-bounded pairs 3 count_calls from_site 0

abbrev framed : Response pairs
framed = record page { headers = (bytes "x-frame-options", bytes "SAMEORIGIN") ∷ [] }

abbrev identified : Request pairs
identified = get_request ((bytes "x-request-id", bytes "abc") ∷ [])

abbrev show_frame : Handler pairs ℕ
show_frame r n = (n + 1, ok framed)

frame_ne : bytes "x-request-id" ≢ bytes "x-frame-options"
unfolding middleware_model
frame_ne = text_ne (bytes "x-request-id") (bytes "x-frame-options") refl

header_tests :
    (request_id pairs new_request_id (bytes "0") identified ≡ bytes "abc")
    × (request_id pairs new_request_id (bytes "0") from_site ≡ bytes "req-0")
    × (lookup
          (bytes "strict-transport-security")
          (add_security_headers pairs (hsts_max_age pairs 60 false new_security_headers) [])
        ≡ some (bytes "max-age=60"))
unfolding middleware_model
header_tests = (refl, refl, refl)

run-layers_example :
    (out : Response pairs) × (run pairs ℕ
        (request_id_layer pairs new_request_id (bytes "0")
          ∷ security_headers_layer pairs new_security_headers
          ∷ [])
        show_frame
        identified
        0
      ≡ (1, ok out))
    × (out.status ≡ 200)
    × (out.content ≡ bytes "ok")
    × (lookup (bytes "x-request-id") (with_id pairs new_request_id (bytes "abc") identified).headers
        ≡ lookup (bytes "x-request-id") out.headers)
    × (lookup (bytes "x-frame-options") out.headers
        ≡ or_else
            (some (bytes "SAMEORIGIN"))
            (value_in (table new_security_headers) (bytes "x-frame-options")))
unfolding middleware_model
run-layers_example =
    run-layers pairs new_request_id new_security_headers (bytes "0") (bytes "abc")
      (bytes "x-frame-options") show_frame identified 0 1 framed refl refl frame_ne
