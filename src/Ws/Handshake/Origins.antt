-- ===== src/Ws/Handshake/Origins.antt =====
-- Which origins a handshake lets through.
use tork_framework.Base.{
  ◌≡◌, refl, sym, ap, ◌∙◌, Bool, true, false, ◌&&◌, Option, none, some, Text, bytes, text_eq,
  text_eq_sound, ◌==◌, ==_iff,
}
use tork_framework.Error.{ok, >>=-eq-ok, Error}
use tork_framework.Middleware.Http.{Http, Request, Response}
use tork_framework.Ws.Config.{WebSocketConfig, effective_config}
use tork_framework.Ws.Handshake.{
  Uris, ParsedOrigin, origin_eq, origin_forbidden, or_refuse, require, parse_origin, header,
  expected_same_origin, check_policy, check_origin, validate_origin, ws_handshake,
}

or_refuse-ok : {A : Type 0} (e : Error) (o : Option A) (a : A) → or_refuse e o ≡ ok a → o ≡ some a
or_refuse-ok e none a q = cc
or_refuse-ok e (some b) a q = cc

require-ok : (e : Error) (b : Bool) (u : Unit {0}) → require e b ≡ ok u → b ≡ true
require-ok e true u q = refl
require-ok e false u q = cc

and_true : (a b : Bool) → (a && b) ≡ true → (a ≡ true) × (b ≡ true)
and_true true b e = (refl, e)
and_true false b e = cc

origin_eq_sound : (a b : ParsedOrigin) → origin_eq a b ≡ true → a ≡ b
origin_eq_sound a b e =
    let (names, port) =
      and_true (text_eq a.scheme b.scheme && text_eq a.host b.host) (a.port == b.port) e in
    let (scheme, host) = and_true (text_eq a.scheme b.scheme) (text_eq a.host b.host) names in
    ap (λ x. record { scheme = x; host = a.host; port = a.port })
      (text_eq_sound a.scheme b.scheme scheme)
    ∙ ap (λ x. record { scheme = b.scheme; host = x; port = a.port })
        (text_eq_sound a.host b.host host)
    ∙ ap (λ x. record { scheme = b.scheme; host = b.host; port = x })
        ((==_iff a.port b.port).0 port)

module _ (uris : Uris) (h : Http) where
  same_origin :
      (r : Request h) (origin : Text) (u : Unit {0})
      → check_policy uris h r origin none ≡ ok u
      → (a : ParsedOrigin) × (parse_origin uris origin ≡ some a)
        × (expected_same_origin uris h r ≡ some a)
  same_origin r origin u e =
      let (a, pa, e1) = >>=-eq-ok (or_refuse origin_forbidden (parse_origin uris origin)) _ e in
      let (b, pb, e2) =
        >>=-eq-ok (or_refuse origin_forbidden (expected_same_origin uris h r)) _ e1 in
      let same = origin_eq_sound a b (require-ok origin_forbidden (origin_eq a b) u e2) in
      (a, or_refuse-ok _ _ a pa, or_refuse-ok _ _ b pb ∙ ap some (sym same))

  validate_origin-same :
      (r : Request h) (app_default : Option WebSocketConfig) (route : WebSocketConfig)
      (origin : Text) (u : Unit {0})
      → header uris h (bytes "origin") r ≡ some origin
      → (effective_config app_default route).origin_policy ≡ none
      → validate_origin uris h r app_default route ≡ ok u
      → check_policy uris h r origin none ≡ ok u
  unfolding validate_origin
  validate_origin-same r app_default route origin u o p e =
      sym (
        ap (check_origin uris h r (effective_config app_default route)) o
        ∙ ap (check_policy uris h r origin) p)
      ∙ e

  -- If a request names an origin and no policy is set for its route or the application, then its
  -- handshake is accepted only if that origin can be parsed and is the origin that the request
  -- itself came to.
  pub ws_handshake-same_origin :
      (r : Request h) (app_default : Option WebSocketConfig) (route : WebSocketConfig)
      (origin : Text) (resp : Response h)
      → header uris h (bytes "origin") r ≡ some origin
      → (effective_config app_default route).origin_policy ≡ none
      → ws_handshake uris h r app_default route ≡ ok resp
      → (a : ParsedOrigin) × (parse_origin uris origin ≡ some a)
        × (expected_same_origin uris h r ≡ some a)
  unfolding ws_handshake
  ws_handshake-same_origin r app_default route origin resp o p e =
      let (u, valid, rest) = >>=-eq-ok (validate_origin uris h r app_default route) _ e in
      same_origin r origin u (validate_origin-same r app_default route origin u o p valid)
