-- ===== src/Middleware/Hosts/Strangers.antt =====
-- What a peer that no proxy configuration names can reach, whatever its forwarding headers say.
use tork_framework.Base.{
  ℕ, ◌≡◌, ◌≢◌, refl, sym, ap, ◌∙◌, ◌↔◌, ◌⊎◌, inl, inr, ◌++◌, true, false, Option, none, some, List,
  [], ◌∷◌, Text, bytes, text_eq, text_eq_iff, Bool, any, arith, lower, split_on, contains_byte,
  ends_with, starts_with, ◌||◌, Bool-cases, Option-cases, All,
}
use tork_framework.Base.Splitting.{HasNo}
use tork_framework.Error.{err, bad_request_error}
use tork_framework.Middleware.Http.{Http, Request, Handler}
use tork_framework.Middleware.Chain.{run}
use tork_framework.Middleware.Hosts.{
  strip_prefix, pattern_of, trusted_host, matches, allows, strip_port, Networks, ProxyHeaders,
  is_trusted_peer, request_host,
}
use tork_framework.Middleware.Hosts.Trust.{
  guarded, run-guarded, strip_port_lem, ends_with-split, ends_with-append,
}

-- A peer without an address, or with one that is neither listed nor in a listed network.
abbrev pub IsStranger : (nets : Networks) → ProxyHeaders nets → Option Text → Type 0
IsStranger nets p none = Unit
IsStranger nets p (some ip) =
    All (λ addr. addr ≢ ip) p.trusted_ips × All (λ n. nets.contains n ip ≡ false) p.trusted_cidrs

any_none : {A : Type 0} (f : A → Bool) (xs : List A) → All (λ x. f x ≡ false) xs → any f xs ≡ false
any_none f [] h = refl
any_none f (x ∷ xs) h = rw (h.0) (any_none f xs h.1)

unlisted :
    (ip : Text) (ips : List Text)
    → All (λ addr. addr ≢ ip) ips
    → All (λ addr. text_eq addr ip ≡ false) ips
unlisted ip [] h = tt
unlisted ip (a ∷ ips) h = (ground (arith, text_eq_iff a ip), unlisted ip ips h.1)

stranger :
    (nets : Networks) (p : ProxyHeaders nets) (peer : Option Text)
    → IsStranger nets p peer
    → is_trusted_peer nets p peer ≡ false
stranger nets p none h = refl
stranger nets p (some ip) h =
    rw (any_none (λ addr. text_eq addr ip) p.trusted_ips (unlisted ip p.trusted_ips h.0))
      (any_none (λ n. nets.contains n ip) p.trusted_cidrs h.1)

strip_prefix-split : (p s t : Text) → strip_prefix p s ≡ some t → s ≡ p ++ t
unfolding strip_prefix
strip_prefix-split [] s t e = cc
strip_prefix-split (p ∷ ps) [] t e = cc
strip_prefix-split (p ∷ ps) (c ∷ s) t e = ground (arith, strip_prefix-split ps s t)

-- A host ends, in lower case, in a dot and what stands behind the wildcard of an entry; or it is
-- the entry, which has no wildcard, in either case.
abbrev pub IsWildcard : Text → Text → Type 0
IsWildcard entry host =
    (s : Text) × (p : Text) × (entry ≡ bytes "*." ++ s) × (lower host ≡ p ++ b'.' ∷ lower s)

abbrev pub IsExactly : Text → Text → Type 0
IsExactly entry host = ((s : Text) → entry ≢ bytes "*." ++ s) × (lower host ≡ lower entry)

abbrev pub IsListed : List Text → Text → Type 0
IsListed [] host = ⊥
IsListed (e ∷ es) host = (IsWildcard e host ⊎ IsExactly e host) ⊎ IsListed es host

wildcard_stripped : (e s : Text) → e ≡ bytes "*." ++ s → strip_prefix (bytes "*.") e ≡ some s
unfolding strip_prefix
wildcard_stripped e s w = ap (strip_prefix (bytes "*.")) w

-- What the pattern of an entry accepts.
suffix-IsListed :
    (e host s : Text)
    → e ≡ bytes "*." ++ s
    → (ends_with (b'.' ∷ lower s) (lower host) ≡ true) ↔ (IsWildcard e host ⊎ IsExactly e host)
suffix-IsListed e host s w = (
  λ h. let (p, q) = ends_with-split (b'.' ∷ lower s) (lower host) h in inl (s, p, w, q),
  λ found. elim found [
    | inl (s', p, w', q) ↦
        let same : s' ≡ s = cc in rw (q, same) (ends_with-append p (b'.' ∷ lower s))
    | inr (plain, q) ↦ elim (plain s w) [ ]
  ],
)

exact-IsListed :
    (e host : Text)
    → ((s : Text) → e ≢ bytes "*." ++ s)
    → (text_eq (lower e) (lower host) ≡ true) ↔ (IsWildcard e host ⊎ IsExactly e host)
exact-IsListed e host plain = (
  λ h. inr (plain, sym ((text_eq_iff (lower e) (lower host)).0 h)),
  λ found. elim found [
    | inl (s, p, w, q) ↦ elim (plain s w) [ ]
    | inr (_, q) ↦ (text_eq_iff (lower e) (lower host)).1 (sym q)
  ],
)

matches-IsListed :
    (e host : Text)
    → (matches (lower host) (pattern_of e (strip_prefix (bytes "*.") e)) ≡ true)
      ↔ (IsWildcard e host ⊎ IsExactly e host)
matches-IsListed e host = elim (Option-cases (strip_prefix (bytes "*.") e)) [
  | inl plain ↦ rw plain (exact-IsListed e host (λ s w. let q = wildcard_stripped e s w in cc))
  | inr (s, stripped) ↦
      rw stripped (suffix-IsListed e host s (strip_prefix-split (bytes "*.") e s stripped))
]

either : {P Q : Type 0} (a b : Bool) → (a ≡ true) ↔ P → (b ≡ true) ↔ Q → ((a || b) ≡ true) ↔ (P ⊎ Q)
either true b p q = (λ h. inl (p.0 refl), λ h. refl)
either false b p q =
    (λ h. inr (q.0 h), λ found. elim found [ inl x ↦ (let e = p.1 x in cc) | inr y ↦ q.1 y ])

allows-IsListed :
    (hosts : List Text) (host : Text)
    → (allows (trusted_host hosts) host ≡ true) ↔ IsListed hosts host
unfolding allows
allows-IsListed [] host = (λ h. cc, λ h. elim h [ ])
allows-IsListed (e ∷ es) host = either _ _ (matches-IsListed e host) (allows-IsListed es host)

-- A `Host` header: a name without colons, which is not an address in brackets, and perhaps a port.
abbrev pub with_port : Text → Option Text → Text
with_port name none = name
with_port name (some port) = name ++ b':' ∷ port

split_on-whole : (b : ℕ) (s : Text) → HasNo b s → split_on b s ≡ s ∷ []
unfolding split_on contains_byte
split_on-whole b [] h = refl
split_on-whole b (c ∷ s) h = ground (arith, split_on-whole b s)

strip_port-with_port :
    (c : ℕ) (name : Text) (port : Option Text)
    → c ≢ b'['
    → HasNo b':' (c ∷ name)
    → strip_port (with_port (c ∷ name) port) ≡ c ∷ name
unfolding strip_port starts_with
strip_port-with_port c name none plain clean = ground (arith, split_on-whole b':' (c ∷ name) clean)
strip_port-with_port c name (some port) plain clean = strip_port_lem c name port plain clean

module _ (h : Http) where
  request_host-with_port :
      (r : Request h) (v : Text) (c : ℕ) (name : Text) (port : Option Text)
      → h.get (bytes "host") r.headers ≡ some v
      → h.to_str v ≡ some (with_port (c ∷ name) port)
      → c ≢ b'['
      → HasNo b':' (c ∷ name)
      → request_host h r ≡ some (c ∷ name)
  request_host-with_port r v c name port has readable plain clean =
      rw (has, readable) (ap some (strip_port-with_port c name port plain clean))

module _ (h : Http) (nets : Networks) {S : Type 0} where
  -- With proxy headers in front of trusted hosts, a request from a peer without an address, or with
  -- one that is neither trusted itself nor in a trusted network, and with a `Host` header of a name
  -- and perhaps a port, reaches the dispatch as it came if its name is listed, and is refused if
  -- not, whatever its forwarding headers say. Listed are, in either case, an entry without a
  -- wildcard, and what ends in a dot and the rest of an entry with one. The name is no address in
  -- brackets.
  pub untrusted_peer :
      (p : ProxyHeaders nets) (hosts : List Text) (dispatch : Handler h S) (r : Request h) (s : S)
      (v : Text) (c : ℕ) (name : Text) (port : Option Text)
      → IsStranger nets p r.peer
      → h.get (bytes "host") r.headers ≡ some v
      → h.to_str v ≡ some (with_port (c ∷ name) port)
      → c ≢ b'['
      → HasNo b':' (c ∷ name)
      → (IsListed hosts (c ∷ name)
          × (run h S (guarded h nets p (trusted_host hosts)) dispatch r s ≡ dispatch r s))
        ⊎ ((¬ IsListed hosts (c ∷ name))
            × (run h S (guarded h nets p (trusted_host hosts)) dispatch r s
                ≡ (s, err (bad_request_error (bytes "invalid host header")))))
  untrusted_peer p hosts dispatch r s v c name port strange has readable plain clean =
      let host = request_host-with_port h r v c name port has readable plain clean in
      let runs =
        run-guarded h nets p (trusted_host hosts) dispatch r s (stranger nets p r.peer strange) in
      let listed = allows-IsListed hosts (c ∷ name) in
      elim (Bool-cases (allows (trusted_host hosts) (c ∷ name))) [
        | inl fits ↦ inl (listed.0 fits, runs ∙ rw (host, fits) refl)
        | inr other ↦ inr (λ l. let fits = listed.1 l in cc, runs ∙ rw (host, other) refl)
      ]
