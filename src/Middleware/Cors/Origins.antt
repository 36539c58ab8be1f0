-- ===== src/Middleware/Cors/Origins.antt =====
-- Which origins are let in, and what the headers of an answer say.
use tork_framework.Base.{
  ◌≡◌, ◌≢◌, refl, ◌∙◌, ◌⊎◌, inl, inr, Bool, true, false, Option, none, some, Text, bytes, text_eq,
  text_ne, any, arith, if◌then◌else◌, and_then-eq-some,
}
use tork_framework.Error.{ok}
use tork_framework.Middleware.Http.{Http, Request, Response, Handler}
use tork_framework.Middleware.Cors.{
  Cors, wildcard, is_wildcard, origin_name, vary_name, allow_origin_name, allow_credentials_name,
  origin_answer, allow_origin_value, put, put_if, insert_vary, is_preflight, preflight_headers,
  preflight_response, annotated_headers, annotated, handle_cors,
}

-- Either the wildcard, without credentials, or the origin itself, which is listed.
abbrev pub IsAllowed : Http → Cors → Text → Text → Type 0
IsAllowed h c origin v =
    ((v ≡ wildcard) × (c.credentials ≡ false) × (any is_wildcard c.origins ≡ true))
    ⊎ ((h.from_str origin ≡ some v) × (any (λ o. text_eq o origin) c.origins ≡ true))

module _ (h : Http) where
  origin_answer-IsAllowed :
      (c : Cors) (origin v : Text) → origin_answer h c origin ≡ some v → IsAllowed h c origin v
  origin_answer-IsAllowed c origin v e = ground arith

  get-put :
      (k n : Text) (o : Option Text) (hs : h.Headers) → n ≢ k → h.get k (put h n o hs) ≡ h.get k hs
  get-put k n none hs d = refl
  get-put k n (some v) hs d = h.get-insert_ne n v k hs d

  get-put_if :
      (k n v : Text) (b : Bool) (hs : h.Headers) → n ≢ k → h.get k (put_if h b n v hs) ≡ h.get k hs
  get-put_if k n v true hs d = h.get-insert_ne n v k hs d
  get-put_if k n v false hs d = refl

  -- The answer to a preflight request allows exactly the origin that the configuration allows, and
  -- credentials exactly if they are configured; it is a 204 that the handlers behind do not see.
  pub preflight :
      {S : Type 0} (c : Cors) (next : Handler h S) (r : Request h) (s : S)
      → is_preflight h r ≡ true
      → (resp : Response h) × (handle_cors h c next r s ≡ (s, ok resp))
        × (resp.status ≡ 204)
        × (h.get allow_origin_name resp.headers ≡ allow_origin_value h c r)
        × (h.get allow_credentials_name resp.headers
            ≡ (if c.credentials then some (bytes "true") else none))
  unfolding handle_cors text_eq
  preflight c next r s p = (
    preflight_response h c (allow_origin_value h c r),
    rw p refl,
    refl,
    origin_of (allow_origin_value h c r),
    credentials_of (allow_origin_value h c r) c.credentials refl,
  )
    where
      inner : Option Text → h.Headers
      inner o = put h (bytes "access-control-allow-headers") c.headers (
          put h (bytes "access-control-allow-methods") c.methods
            (put h allow_origin_name o (insert_vary h true h.empty)))

      own :
          (o : Option Text)
          → h.get allow_origin_name (put h allow_origin_name o (insert_vary h true h.empty)) ≡ o
      own none =
          h.get-insert_ne vary_name _ allow_origin_name h.empty (text_ne _ _ refl)
          ∙ h.get-empty allow_origin_name
      own (some v) = h.get-insert_self allow_origin_name v (insert_vary h true h.empty)

      origin_of : (o : Option Text) → h.get allow_origin_name (preflight_headers h c o) ≡ o
      origin_of o =
          get-put allow_origin_name _ c.max_age _ (text_ne _ _ refl)
          ∙ get-put_if allow_origin_name _ _ c.credentials (inner o) (text_ne _ _ refl)
          ∙ get-put allow_origin_name _ c.headers _ (text_ne _ _ refl)
          ∙ get-put allow_origin_name _ c.methods _ (text_ne _ _ refl)
          ∙ own o

      credentials_of :
          (o : Option Text) (b : Bool)
          → c.credentials ≡ b
          → h.get allow_credentials_name (preflight_headers h c o)
            ≡ (if b then some (bytes "true") else none)
      credentials_of o true q =
          get-put allow_credentials_name _ c.max_age _ (text_ne _ _ refl)
          ∙ rw q (h.get-insert_self allow_credentials_name (bytes "true") (inner o))
      credentials_of o false q =
          get-put allow_credentials_name _ c.max_age _ (text_ne _ _ refl)
          ∙ rw q (
              get-put allow_credentials_name _ c.headers _ (text_ne _ _ refl)
              ∙ get-put allow_credentials_name _ c.methods _ (text_ne _ _ refl)
              ∙ get-put allow_credentials_name _ o _ (text_ne _ _ refl)
              ∙ h.get-insert_ne vary_name _ allow_credentials_name h.empty (text_ne _ _ refl)
              ∙ h.get-empty allow_credentials_name)

  -- Whatever origin the middleware allows, the request named it, and it is listed, or the wildcard
  -- is listed and no credentials are configured.
  pub allow_origin_value-IsAllowed :
      (c : Cors) (r : Request h) (v : Text)
      → allow_origin_value h c r ≡ some v
      → (value : Text) × (origin : Text) × (h.get origin_name r.headers ≡ some value)
        × (h.to_str value ≡ some origin)
        × IsAllowed h c origin v
  unfolding allow_origin_value
  allow_origin_value-IsAllowed c r v e =
      let (value, present, rest) = and_then-eq-some (h.get origin_name r.headers) _ e in
      let (origin, readable, answer) = and_then-eq-some (h.to_str value) (origin_answer h c) rest in
      (value, origin, present, readable, origin_answer-IsAllowed c origin v answer)

  -- An actual request that the handlers behind answer gets their response as it is if its origin is
  -- not allowed; otherwise the response has the same status and content and names what is allowed.
  pub actual :
      {S : Type 0} (c : Cors) (next : Handler h S) (r : Request h) (s s' : S) (resp : Response h)
      → is_preflight h r ≡ false
      → next r s ≡ (s', ok resp)
      → (out : Response h) × (handle_cors h c next r s ≡ (s', ok out))
        × (out.status ≡ resp.status)
        × (out.content ≡ resp.content)
        × (((allow_origin_value h c r ≡ none) × (out ≡ resp))
            ⊎ ((v : Text) × (allow_origin_value h c r ≡ some v)
                × (h.get allow_origin_name out.headers ≡ some v)))
  unfolding handle_cors text_eq
  actual c next r s s' resp p q = go (allow_origin_value h c r) refl
    where
      names_origin :
          (v : Text) → h.get allow_origin_name (annotated_headers h c v resp.headers) ≡ some v
      names_origin v =
          get-put_if allow_origin_name _ _ c.credentials _ (text_ne _ _ refl)
          ∙ get-put allow_origin_name _ c.expose _ (text_ne _ _ refl)
          ∙ h.get-insert_ne vary_name _ allow_origin_name _ (text_ne _ _ refl)
          ∙ h.get-insert_self allow_origin_name v resp.headers

      go :
          (o : Option Text)
          → allow_origin_value h c r ≡ o
          → (out : Response h) × (handle_cors h c next r s ≡ (s', ok out))
            × (out.status ≡ resp.status)
            × (out.content ≡ resp.content)
            × (((allow_origin_value h c r ≡ none) × (out ≡ resp))
                ⊎ ((v : Text) × (allow_origin_value h c r ≡ some v)
                    × (h.get allow_origin_name out.headers ≡ some v)))
      go none e = (resp, rw (p, q, e) refl, refl, refl, inl (e, refl))
      go (some v) e =
          (annotated h c (some v) resp, rw (p, q, e) refl, refl, refl, inr (v, e, names_origin v))
