-- ===== src/Middleware/Hosts.antt =====
-- crates/tork-core/src/middleware/: trusted_host.rs, proxy_headers.rs and https_redirect.rs. An IP
-- address is its canonical text; networks and their test are those of the crate `ipnet`, a
-- parameter. Header texts are ASCII, so that `trim` and `to_ascii_lowercase` work on bytes.
pub mod Trust
pub mod Strangers
use tork_framework.Base.{
  ℕ, ◌++◌, Bool, true, false, ◌&&◌, ◌||◌, not, Option, none, some, List, [], ◌∷◌, Text, bytes,
  text_eq, any, and_then, is_empty, leb, ◌==◌, if◌then◌else◌, lower, ends_with, starts_with,
  split_on, unwrap_or, map,
}
use tork_framework.Error.{Error, Result, ok, err, bad_request_error}
use tork_framework.Middleware.Http.{
  Http, Request, Response, Handler, RequestScheme, http_scheme, https_scheme,
}

pub data HostPattern : Type 0 where
  exact suffix : Text → HostPattern

-- `strip_prefix`
unfoldable pub strip_prefix : Text → Text → Option Text
strip_prefix [] s = some s
strip_prefix (p ∷ ps) [] = none
strip_prefix (p ∷ ps) (c ∷ s) = let rest = strip_prefix ps s in if p == c then rest else none

abbrev pub pattern_of : Text → Option Text → HostPattern
pattern_of host none = exact (lower host)
pattern_of host (some rest) = suffix (b'.' ∷ lower rest)

-- `TrustedHost::new`
abbrev pub trusted_host : List Text → List HostPattern
trusted_host hosts = map (λ host. pattern_of host (strip_prefix (bytes "*.") host)) hosts

abbrev pub matches : Text → HostPattern → Bool
matches host (exact e) = text_eq e host
matches host (suffix s) = ends_with s host

unfoldable pub allows : List HostPattern → Text → Bool
allows patterns host = any (matches (lower host)) patterns

-- Up to a byte, the byte included.
unfoldable pub up_to : ℕ → Text → Option Text
up_to b [] = none
up_to b (c ∷ s) =
    let rest = up_to b s in if c == b then some (c ∷ []) else and_then rest (λ t. some (c ∷ t))

abbrev pub first_piece : List Text → Text
first_piece [] = []
first_piece (p ∷ ps) = p

unfoldable pub strip_port : Text → Text
strip_port value =
    if starts_with (bytes "[") value
    then unwrap_or (up_to b']' value) value
    else first_piece (split_on b':' value)

abbrev pub is_space : ℕ → Bool
is_space c = c == 32 || (leb 9 c && leb c 13)

abbrev pub trim_left : Text → Text
trim_left [] = []
trim_left (c ∷ s) = let rest = trim_left s in if is_space c then rest else c ∷ s

abbrev pub keep_unless_space : ℕ → Text → Text
keep_unless_space c [] = if is_space c then [] else c ∷ []
keep_unless_space c (d ∷ s) = c ∷ d ∷ s

abbrev pub trim_right : Text → Text
trim_right [] = []
trim_right (c ∷ s) = keep_unless_space c (trim_right s)

abbrev pub non_empty : Text → Option Text
non_empty [] = none
non_empty (c ∷ s) = some (c ∷ s)

abbrev pub scheme_named : Text → Option RequestScheme
scheme_named proto =
    if text_eq (lower proto) (bytes "https")
    then some https_scheme
    else if text_eq (lower proto) (bytes "http")
    then some http_scheme
    else none

pub record Networks : Type 1 where
  pub IpNet : Type 0
  pub contains : IpNet → Text → Bool

pub record ProxyHeaders (nets : Networks) : Type 0 where
  pub trusted_ips : List Text
  pub trusted_cidrs : List nets.IpNet

module _ {nets : Networks} where
  abbrev pub new_proxy_headers : ProxyHeaders nets
  new_proxy_headers = record { trusted_ips = []; trusted_cidrs = [] }

  abbrev pub trust_proxy : Text → ProxyHeaders nets → ProxyHeaders nets
  trust_proxy addr p = record p { trusted_ips = p.trusted_ips ++ addr ∷ [] }

  abbrev pub trust_cidr : nets.IpNet → ProxyHeaders nets → ProxyHeaders nets
  trust_cidr network p = record p { trusted_cidrs = p.trusted_cidrs ++ network ∷ [] }

  abbrev pub trust_loopback : ProxyHeaders nets → ProxyHeaders nets
  trust_loopback p = trust_proxy (bytes "::1") (trust_proxy (bytes "127.0.0.1") p)

abbrev pub is_trusted_peer : (nets : Networks) → ProxyHeaders nets → Option Text → Bool
is_trusted_peer nets p none = false
is_trusted_peer nets p (some ip) =
    any (λ addr. text_eq addr ip) p.trusted_ips || any (λ n. nets.contains n ip) p.trusted_cidrs

module _ (h : Http) where
  -- The host that `TrustedHost` checks.
  abbrev pub request_host : Request h → Option Text
  request_host r =
      and_then (h.get (bytes "host") r.headers) λ v. and_then (h.to_str v) λ t. some (strip_port t)

  abbrev pub is_host_allowed : List HostPattern → Option Text → Bool
  is_host_allowed patterns none = false
  is_host_allowed patterns (some host) = allows patterns host

  unfoldable pub handle_trusted_host : {S : Type 0} → List HostPattern → Handler h S → Handler h S
  handle_trusted_host patterns next r s =
      if not (is_host_allowed patterns (request_host r))
      then (s, err (bad_request_error (bytes "invalid host header")))
      else next r s

  abbrev pub forwarded_value : Request h → Text → Option Text
  forwarded_value r name = and_then (h.get name r.headers) λ v.
      and_then (h.to_str v) λ t. non_empty (trim_right (trim_left (first_piece (split_on b',' t))))

  abbrev pub with_host : Option Text → Request h → Request h
  with_host none r = r
  with_host (some v) r = record r { headers = h.insert (bytes "host") v r.headers }

  abbrev pub with_scheme : Option RequestScheme → Request h → Request h
  with_scheme none r = r
  with_scheme (some scheme) r = record r { scheme = some scheme }

  -- The request behind a trusted proxy.
  abbrev pub forwarded : Request h → Request h
  forwarded r =
      let r' = with_host (and_then (forwarded_value r (bytes "x-forwarded-host")) h.from_str) r in
      with_scheme (and_then (forwarded_value r' (bytes "x-forwarded-proto")) scheme_named) r'

  unfoldable pub handle_proxy_headers :
      (nets : Networks) → {S : Type 0} → ProxyHeaders nets → Handler h S → Handler h S
  handle_proxy_headers nets p next r s =
      if not (is_trusted_peer nets p r.peer) then next r s else next (forwarded r) s

  abbrev pub is_https : Request h → Bool
  is_https r = elim r.scheme [
    | some https_scheme ↦ true
    | some http_scheme ↦ false
    | none ↦ text_eq (unwrap_or r.uri_scheme []) (bytes "https")
  ]

  abbrev pub location : Request h → Text
  location r =
      bytes "https://"
      ++ (unwrap_or (and_then (h.get (bytes "host") r.headers) h.to_str) []
          ++ unwrap_or r.path_and_query (bytes "/"))

  abbrev pub with_location : Option Text → h.Headers → h.Headers
  with_location none hs = hs
  with_location (some v) hs = h.insert (bytes "location") v hs

  abbrev pub redirect : Request h → Response h
  redirect r = record {
    status = 308;
    headers =
        with_location (h.from_str (location r))
          (h.insert (bytes "content-type") (bytes "text/plain; charset=utf-8") h.empty);
    content = [];
  }

  unfoldable pub handle_https_redirect : {S : Type 0} → Handler h S → Handler h S
  handle_https_redirect next r s = if is_https r then next r s else (s, ok (redirect r))
