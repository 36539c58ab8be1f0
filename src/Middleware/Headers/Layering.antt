-- ===== src/Middleware/Headers/Layering.antt =====
-- crates/tork-core/src/middleware/: request_id.rs in front of security_headers.rs: what a response
-- carries behind both.
use tork_framework.Base.{
  ◌≡◌, ◌≢◌, refl, arith, Bool, Option, none, some, List, [], ◌∷◌, Text, bytes, text_eq, text_eq_iff,
  text_eq_refl, sym, or_else, is_some, if◌then◌else◌, ◌∙◌, inl, inr, Bool-cases,
}
use tork_framework.Error.{ok}
use tork_framework.Middleware.Http.{Http, Request, Response, Handler}
use tork_framework.Middleware.Chain.{run}
use tork_framework.Middleware.Headers.{
  RequestId, SecurityHeaders, request_id, set_if_absent, add_security_headers, handle_request_id,
  handle_security_headers, request_id_layer, security_headers_layer,
}

-- The headers that a configuration adds, by name.
abbrev pub table : SecurityHeaders → List (Text × Option Text)
table m =
    (bytes "strict-transport-security", m.hsts)
    ∷ (bytes "x-content-type-options", m.content_type_options)
    ∷ (bytes "x-frame-options", m.frame_options)
    ∷ (bytes "referrer-policy", m.referrer_policy)
    ∷ (bytes "content-security-policy", m.content_security_policy)
    ∷ []

-- The first value of a name.
unfoldable pub value_in : List (Text × Option Text) → Text → Option Text
value_in [] name = none
value_in ((n, v) ∷ t) name = if text_eq n name then or_else v (value_in t name) else value_in t name

module _ (h : Http) where
  abbrev add_all : List (Text × Option Text) → h.Headers → h.Headers
  add_all [] hs = hs
  add_all ((n, v) ∷ t) hs = add_all t (set_if_absent h n v hs)

  or_else-none : (o : Option Text) → or_else o none ≡ o
  or_else-none none = refl
  or_else-none (some v) = refl

  absent :
      (n v : Text) (hs : h.Headers)
      → h.get n (if is_some (h.get n hs) then hs else h.insert n v hs)
        ≡ or_else (h.get n hs) (some v)
  absent n v hs = ground (arith, h.get-insert_self n v hs)

  get-insert_absent :
      (n k v : Text) (hs : h.Headers)
      → n ≢ k
      → h.get k (if is_some (h.get n hs) then hs else h.insert n v hs) ≡ h.get k hs
  get-insert_absent n k v hs d = ground (arith, h.get-insert_ne n v k hs d)

  or_else-if :
      (b : Bool) (o v w : Option Text)
      → or_else (if b then or_else o v else o) w ≡ or_else o (if b then or_else v w else w)
  or_else-if b o v w = ground arith

  get-set_if_absent :
      (n k : Text) (v : Option Text) (hs : h.Headers)
      → h.get k (set_if_absent h n v hs)
        ≡ (if text_eq n k then or_else (h.get k hs) v else h.get k hs)
  unfolding set_if_absent
  get-set_if_absent n k none hs = ground (arith, or_else-none (h.get k hs))
  get-set_if_absent n k (some v) hs = elim (Bool-cases (text_eq n k)) [
    | inl same ↦ rw (← (text_eq_iff n k).0 same, text_eq_refl n) (absent n v hs)
    | inr other ↦ rw other (get-insert_absent n k v hs (λ e. ground (arith, text_eq_iff n k)))
  ]

  get-add_all :
      (k : Text) (t : List (Text × Option Text)) (hs : h.Headers)
      → h.get k (add_all t hs) ≡ or_else (h.get k hs) (value_in t k)
  unfolding value_in
  get-add_all k [] hs = sym (or_else-none (h.get k hs))
  get-add_all k ((n, v) ∷ t) hs =
      rw (get-add_all k t (set_if_absent h n v hs), get-set_if_absent n k v hs)
        (or_else-if (text_eq n k) (h.get k hs) v (value_in t k))

  add_security_headers-add_all :
      (m : SecurityHeaders) (hs : h.Headers) → add_security_headers h m hs ≡ add_all (table m) hs
  unfolding add_security_headers
  add_security_headers-add_all m hs = refl

  get-add_security_headers :
      (m : SecurityHeaders) (k : Text) (hs : h.Headers)
      → h.get k (add_security_headers h m hs) ≡ or_else (h.get k hs) (value_in (table m) k)
  unfolding add_security_headers
  get-add_security_headers m k hs = get-add_all k (table m) hs

  -- The request with its id written back.
  abbrev pub with_id : RequestId → Text → Request h → Request h
  with_id m value r = record r { headers = h.insert m.header value r.headers }

  module _ {S : Type 0} where
    -- Request ids in front of security headers: if the id of a request is a valid header value and
    -- the handlers behind answer with a response, then the response keeps its status and content,
    -- carries the same id that the handlers read, and every other header of the handlers as they
    -- set it, and beside these exactly the configured security headers that they did not set.
    pub run-layers :
        (m : RequestId) (c : SecurityHeaders) (uuid value name : Text) (dispatch : Handler h S)
        (r : Request h) (s s' : S) (resp : Response h)
        → h.from_str (request_id h m uuid r) ≡ some value
        → dispatch (with_id m value r) s ≡ (s', ok resp)
        → m.header ≢ name
        → (out : Response h) × (run h S
              (request_id_layer h m uuid ∷ security_headers_layer h c ∷ [])
              dispatch
              r
              s
            ≡ (s', ok out))
          × (out.status ≡ resp.status)
          × (out.content ≡ resp.content)
          × (h.get m.header (with_id m value r).headers ≡ h.get m.header out.headers)
          × (h.get name out.headers ≡ or_else (h.get name resp.headers) (value_in (table c) name))
    unfolding run handle_request_id handle_security_headers
    run-layers m c uuid value name dispatch r s s' resp valid answers other =
        let secured = add_security_headers h c resp.headers in
        (
          record resp { headers = h.insert m.header value secured },
          rw (valid, answers) refl,
          refl,
          refl,
          h.get-insert_self m.header value r.headers
              ∙ sym (h.get-insert_self m.header value secured),
          h.get-insert_ne m.header value name secured other
              ∙ get-add_security_headers c name resp.headers,
        )
