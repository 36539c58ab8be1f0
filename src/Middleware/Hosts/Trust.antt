-- ===== src/Middleware/Hosts/Trust.antt =====
-- Which hosts are accepted, and who may say what the host is.
use tork_framework.Base.{
  ℕ, ◌≡◌, ◌≢◌, refl, sym, ap, ◌∙◌, ◌↔◌, inl, inr, ◌++◌, true, false, Option, none, some, List, [],
  ◌∷◌, Text, bytes, text_eq, text_eq_iff, text_eq_refl, any, and_then, arith, if◌then◌else◌, lower,
  lower_byte, ends_with, starts_with, Bool-cases,
}
use tork_framework.Base.Splitting.{HasNo, split_on-append}
use tork_framework.Error.{err, bad_request_error}
use tork_framework.Middleware.Http.{Http, Request, Handler, RequestScheme}
use tork_framework.Middleware.Chain.{Middleware, run, reject}
use tork_framework.Middleware.Hosts.{
  HostPattern, strip_prefix, trusted_host, matches, allows, strip_port, Networks, ProxyHeaders,
  is_trusted_peer, request_host, is_host_allowed, handle_trusted_host, forwarded_value, with_host,
  with_scheme, forwarded, handle_proxy_headers,
}

ends_with_self : (s : Text) → ends_with s s ≡ true
unfolding ends_with text_eq
ends_with_self [] = refl
ends_with_self (c ∷ s) = rw (text_eq_refl (c ∷ s)) refl

pub ends_with-append : (p s : Text) → ends_with s (p ++ s) ≡ true
unfolding ends_with
ends_with-append [] s = ends_with_self s
ends_with-append (c ∷ p) s = ground (arith, ends_with-append p s)

pub ends_with-split : (s x : Text) → ends_with s x ≡ true → (p : Text) × (x ≡ p ++ s)
unfolding ends_with
ends_with-split s [] e = ([], sym ((text_eq_iff s []).0 e))
ends_with-split s (c ∷ x) e = elim (Bool-cases (text_eq s (c ∷ x))) [
  | inl same ↦ ([], sym ((text_eq_iff s (c ∷ x)).0 same))
  | inr other ↦ let (p, q) = ends_with-split s x (ground arith) in (c ∷ p, ap (λ t. c ∷ t) q)
]

-- A pattern with a leading wildcard accepts exactly the hosts that end, in lower case, in a dot and
-- the rest of the pattern.
pub allows_wildcard :
    (s host : Text)
    → (allows (trusted_host ((bytes "*." ++ s) ∷ [])) host ≡ true)
      ↔ ((p : Text) × (lower host ≡ p ++ b'.' ∷ lower s))
unfolding allows strip_prefix
allows_wildcard s host = (
  λ e. ends_with-split (b'.' ∷ lower s) (lower host) (ground arith),
  λ (p, q). rw (q, ends_with-append p (b'.' ∷ lower s)) refl,
)

lower_idem : (s : Text) → lower (lower s) ≡ lower s
unfolding lower
lower_idem [] = refl
lower_idem (c ∷ s) =
    let one : lower_byte (lower_byte c) ≡ lower_byte c = ground arith in cc (one, lower_idem s)

-- The case of a host does not matter.
pub allows-lower : (ps : List HostPattern) (host : Text) → allows ps (lower host) ≡ allows ps host
unfolding allows
allows-lower ps host = ap (λ x. any (matches x) ps) (lower_idem host)

-- A port behind a name is not part of the host: the name holds no colon, and does not begin with a
-- bracket.
pub strip_port_lem :
    (c : ℕ) (host port : Text)
    → c ≢ b'['
    → HasNo b':' (c ∷ host)
    → strip_port ((c ∷ host) ++ b':' ∷ port) ≡ c ∷ host
unfolding strip_port starts_with
strip_port_lem c host port plain clean = ground (arith, split_on-append b':' (c ∷ host) port clean)

module _ (h : Http) where
  with_scheme-headers :
      (x : Option RequestScheme) (r : Request h) → (with_scheme h x r).headers ≡ r.headers
  with_scheme-headers none r = refl
  with_scheme-headers (some scheme) r = refl

  host_of_headers : h.Headers → Option Text
  host_of_headers hs =
      and_then (h.get (bytes "host") hs) λ v. and_then (h.to_str v) λ t. some (strip_port t)

  request_host-forwarded :
      (r : Request h) (host value : Text)
      → forwarded_value h r (bytes "x-forwarded-host") ≡ some host
      → h.from_str host ≡ some value
      → h.to_str value ≡ some host
      → request_host h (forwarded h r) ≡ some (strip_port host)
  unfolding host_of_headers
  request_host-forwarded r host value named valid readable =
      ap host_of_headers (
        with_scheme-headers _ _
        ∙ ap (λ o. (with_host h (and_then o h.from_str) r).headers) named
        ∙ ap (λ o. (with_host h o r).headers) valid)
      ∙ rw (h.get-insert_self (bytes "host") value r.headers, readable) refl

module _ (h : Http) (nets : Networks) {S : Type 0} where
  -- The two middlewares as they are registered: the proxy's headers first.
  abbrev pub guarded : ProxyHeaders nets → List HostPattern → List (Middleware h S)
  guarded p hosts =
      (record {
        name = bytes "ProxyHeaders";
        duplicate_policy = reject;
        handle = handle_proxy_headers h nets p;
      })
      ∷ (record {
        name = bytes "TrustedHost";
        duplicate_policy = reject;
        handle = handle_trusted_host h hosts;
      })
      ∷ []

  -- From a peer that is not trusted, the request goes on as it came, and its own host is checked.
  pub run-guarded :
      (p : ProxyHeaders nets) (hosts : List HostPattern) (dispatch : Handler h S) (r : Request h)
      (s : S)
      → is_trusted_peer nets p r.peer ≡ false
      → run h S (guarded p hosts) dispatch r s ≡ (
          if is_host_allowed h hosts (request_host h r)
          then dispatch r s
          else (s, err (bad_request_error (bytes "invalid host header"))))
  unfolding run handle_proxy_headers handle_trusted_host
  run-guarded p hosts dispatch r s distrust = rw distrust (ground arith)

  -- With proxy headers in front of trusted hosts, a forwarded host from a trusted proxy, if it is a
  -- readable header value, is the host that is checked.
  pub trusted_peer :
      (p : ProxyHeaders nets) (hosts : List HostPattern) (dispatch : Handler h S) (r : Request h)
      (s : S) (host value : Text)
      → is_trusted_peer nets p r.peer ≡ true
      → forwarded_value h r (bytes "x-forwarded-host") ≡ some host
      → h.from_str host ≡ some value
      → h.to_str value ≡ some host
      → run h S (guarded p hosts) dispatch r s ≡ (
          if allows hosts (strip_port host)
          then dispatch (forwarded h r) s
          else (s, err (bad_request_error (bytes "invalid host header"))))
  unfolding run handle_proxy_headers handle_trusted_host
  trusted_peer p hosts dispatch r s host value trust named valid readable =
      rw (trust, request_host-forwarded h r host value named valid readable) (ground arith)
