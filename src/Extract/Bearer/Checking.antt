-- ===== src/Extract/Bearer/Checking.antt =====
-- crates/tork-core/src/extract/header.rs and security.rs: a bearer token that is compared with a
-- secret.
use tork_framework.Base.{
  ◌≡◌, ◌↔◌, refl, arith, true, Option, none, some, [], ◌∷◌, ◌++◌, Text, bytes, All, and_then, sym,
  ap, ◌∙◌,
}
use tork_framework.Error.{ok, ok-injective}
use tork_framework.Middleware.Http.{Http}
use tork_framework.Middleware.Hosts.{strip_prefix}
use tork_framework.Security.{constant_time_eq}
use tork_framework.Security.Comparing.{IsByte, constant_time_eq_iff}
use tork_framework.Extract.Bearer.{resolve, token, bearer_prefix, checked, prefixed, resolved}

strip_prefix-some : (p s t : Text) → strip_prefix p s ≡ some t → s ≡ p ++ t
unfolding strip_prefix
strip_prefix-some [] s t e = ground arith
strip_prefix-some (a ∷ p) [] t e = cc
strip_prefix-some (a ∷ p) (c ∷ s) t e = ground (arith, strip_prefix-some p s t)

append-All : (p s : Text) → All IsByte (p ++ s) → All IsByte s
append-All [] s a = a
append-All (b ∷ p) s a = append-All p s a.1

behind : (v p s : Text) → v ≡ p ++ s → All IsByte v → All IsByte s
behind v p s e a = append-All p s (rw (← e) a)

append_cancel : (p s t : Text) → p ++ s ≡ p ++ t → s ≡ t
append_cancel [] s t e = e
append_cancel (b ∷ p) s t e = append_cancel p s t (ground arith)

checked-ok :
    (g header : Text) (o : Option Text)
    → checked g o ≡ ok header
    → (t : Text) × (g ≡ header) × (o ≡ some t)
checked-ok g header none e = cc
checked-ok g header (some t) e = (t, ok-injective e, refl)

prefixed-ok :
    (g header : Text) (o : Option Text)
    → prefixed g o ≡ ok header
    → (value : Text) × (t : Text) × (g ≡ header)
      × (o ≡ some value)
      × (strip_prefix bearer_prefix value ≡ some t)
prefixed-ok g header none e = cc
prefixed-ok g header (some value) e =
    let (t, same, q) = checked-ok g header (strip_prefix bearer_prefix value) e in
    (value, t, same, refl, q)

module _ (h : Http) where
  resolved-ok :
      (header : Text) (o : Option Text)
      → resolved h o ≡ ok header
      → (value : Text) × (t : Text) × (o ≡ some header)
        × (h.to_str header ≡ some value)
        × (strip_prefix bearer_prefix value ≡ some t)
  resolved-ok header none e = cc
  resolved-ok header (some g) e =
      let (value, t, same, readable, q) = prefixed-ok g header (h.to_str g) e in
      (value, t, ap some same, ap h.to_str (sym same) ∙ readable, q)

  -- If a request is accepted as one with a bearer token, and its header and a secret are texts of
  -- bytes, then the header is the one that the request names, reading the token does not panic, and
  -- comparing the token in constant time with the secret is true exactly if the header is `Bearer `
  -- and the secret.
  pub token-resolve :
      (hs : h.Headers) (header value secret : Text)
      → resolve h hs ≡ ok header
      → h.to_str header ≡ some value
      → All IsByte value
      → All IsByte secret
      → (t : Text) × (h.get (bytes "authorization") hs ≡ some header)
        × (token h header ≡ some t)
        × ((constant_time_eq t secret ≡ true) ↔ (value ≡ bearer_prefix ++ secret))
  unfolding resolve token
  token-resolve hs header value secret accepted readable value_bytes secret_bytes =
      let (v, t, named, readable', q) = resolved-ok header _ accepted in
      let same : v ≡ value = ground arith in
      let split : value ≡ bearer_prefix ++ t = sym same ∙ strip_prefix-some bearer_prefix v t q in
      let token_bytes : All IsByte t = behind value bearer_prefix t split value_bytes in
      let compared = constant_time_eq_iff t secret token_bytes secret_bytes in
      (
        t,
        named,
        ap (λ o. and_then o (strip_prefix bearer_prefix)) readable' ∙ q,
        (
          λ e. split ∙ ap (λ u. bearer_prefix ++ u) (compared.0 e),
          λ e. compared.1 (append_cancel bearer_prefix t secret (sym split ∙ e)),
        ),
      )
