-- ===== src/Router/Matcher/Safety.antt =====
-- What a match promises: a route of the table, registered for the requested method.
use tork_framework.Base.{
  ℕ, zero, suc, ◌≡◌, refl, ◌∙◌, ◌⊎◌, true, Option, none, some, List, [], ◌∷◌, Text, arith, All,
  All-append, All-get, AllEntries, insert-AllEntries, lookup-AllEntries, drop, get_elem?, lookup,
  unwrap_or, and_then, and_then-eq-some, or_else-eq-some, Option-cases, inl, inr, Bool-cases,
  contains_byte,
}
use tork_framework.Error.{ok, err, Error, ok-injective, >>=-eq-ok}
use tork_framework.Router.Routes.{Route}
use tork_framework.Router.Matcher.{
  Matchit, Matcher, Match, found, method_not_allowed, not_found, panicked, Params, Tree, patterns,
  at, register, build_from, build, find_in, route_at, other_method, find, normalized, collapsed,
}

-- An entry of a method's tree points at a route of that method with that path.
abbrev pub PointsAt : List Route → Text → Text × ℕ → Type 0
PointsAt routes method (path, index) =
    (r : Route) × (get_elem? routes index ≡ some r) × (r.method ≡ method) × (r.path ≡ path)

abbrev pub IsIndexed : Matcher → Type 0
IsIndexed m = AllEntries (λ method t. All (PointsAt m.routes method) t) m.by_method

drop-get :
    (xs : List Route) (i : ℕ) (r : Route) (rs : List Route)
    → drop i xs ≡ r ∷ rs
    → (get_elem? xs i ≡ some r) × (drop (suc i) xs ≡ rs)
drop-get [] zero r rs e = cc
drop-get [] (suc i) r rs e = cc
drop-get (x ∷ xs) zero r rs e = ground arith
drop-get (x ∷ xs) (suc i) r rs e = drop-get xs i r rs e

Hits : List Route → Text → ℕ × Params → Type 0
Hits routes method hit = (r : Route) × (get_elem? routes hit.0 ≡ some r) × (r.method ≡ method)

-- What `find` may answer over the table: a route that stands in it, registered for the requested
-- method.
abbrev pub Answers : List Route → Text → Match → Type 0
Answers routes method (found r params) =
    (r.method ≡ method) × ((i : ℕ) × (get_elem? routes i ≡ some r))
Answers routes method method_not_allowed = Unit
Answers routes method not_found = Unit
Answers routes method panicked = ⊥

module _ (mi : Matchit) where
  tree_of-IsIndexed :
      (m : Matcher) (method : Text)
      → IsIndexed m
      → All (PointsAt m.routes method) (unwrap_or (lookup method m.by_method) [])
  tree_of-IsIndexed m method h = elim (Option-cases (lookup method m.by_method)) [
    | inl absent ↦ rw absent tt
    | inr (t, there) ↦ rw there (lookup-AllEntries _ method m.by_method h there)
  ]

  register-IsIndexed :
      (index : ℕ) (r : Route) (m m' : Matcher)
      → IsIndexed m
      → get_elem? m.routes index ≡ some r
      → register mi index r m ≡ ok m'
      → IsIndexed m' × (m'.routes ≡ m.routes)
  unfolding register
  register-IsIndexed index r m m' h there e =
      elim (Bool-cases
        (mi.accepts (patterns (unwrap_or (lookup r.method m.by_method) [])) r.path)) [
          | inl taken ↦ rw (← ok-injective (rw (taken, register) at e)) (
            insert-AllEntries (λ method t. All (PointsAt m.routes method) t) r.method _ m.by_method
                (All-append (PointsAt m.routes r.method) _ ((r.path, index) ∷ [])
                  (tree_of-IsIndexed m r.method h) ((r, there, refl, refl), tt))
                h,
            refl,
          )
          | inr refused ↦ absurd (clash (rw (refused, register) at e))
        ]
    where
      clash : {x : Error} → err x ≡ ok m' → ⊥
      clash q = cc

  build_from-IsIndexed :
      (index : ℕ) (rs : List Route) (m m' : Matcher)
      → IsIndexed m
      → drop index m.routes ≡ rs
      → build_from mi index rs m ≡ ok m'
      → IsIndexed m' × (m'.routes ≡ m.routes)
  unfolding build_from
  build_from-IsIndexed index [] m m' h d e = rw (← ok-injective e) (h, refl)
  build_from-IsIndexed index (r ∷ rs) m m' h d e =
      let (there, rest) = drop-get m.routes index r rs d in
      let (m1, taken, more) = >>=-eq-ok (register mi index r m) (build_from mi (suc index) rs) e in
      let (h1, same1) = register-IsIndexed index r m m1 h there taken in
      let (h2, same2) = build_from-IsIndexed (suc index) rs m1 m' h1 (rw same1 rest) more in
      (h2, same2 ∙ same1)

  at-PointsAt :
      (routes : List Route) (method : Text) (t : Tree ℕ) (path : Text) (i : ℕ) (c : Params)
      → All (PointsAt routes method) t
      → at mi t path ≡ some (i, c)
      → (r : Route) × (get_elem? routes i ≡ some r) × (r.method ≡ method)
  unfolding at
  at-PointsAt routes method t path i c h e =
      let (m, matched, rest) = and_then-eq-some (mi.matches (patterns t) path) _ e in
      let (v, there, same) = and_then-eq-some (get_elem? t m.0) _ rest in
      let (r, listed, of_method, with_path) = All-get (PointsAt routes method) t m.0 h there in
      let index : v.1 ≡ i = ground arith in (r, rw index at listed, of_method)

  find_in-PointsAt :
      (routes : List Route) (method : Text) (t : Tree ℕ) (path : Text) (hit : ℕ × Params)
      → All (PointsAt routes method) t
      → find_in mi t path ≡ some hit
      → Hits routes method hit
  unfolding find_in Hits
  find_in-PointsAt routes method t path (i, c) h e = elim (or_else-eq-some (at mi t path) _ e) [
    | inl direct ↦ at-PointsAt routes method t path i c h direct
    | inr retried ↦ elim (or_else-eq-some (and_then (normalized path) (at mi t)) _ retried) [
      | inl one ↦
          let (p, _, hit) = and_then-eq-some (normalized path) (at mi t) one in
          at-PointsAt routes method t p i c h hit
      | inr two ↦
          let (p, _, hit) = and_then-eq-some (collapsed path) (at mi t) two in
          at-PointsAt routes method t p i c h hit
    ]
  ]

  route_at-Answers :
      (routes : List Route) (method : Text) (hit : ℕ × Params)
      → Hits routes method hit
      → Answers routes method (route_at routes hit)
  unfolding Hits
  route_at-Answers routes method (i, c) (r, there, of_method) = rw there (of_method, (i, there))

  other_method-cases :
      (m : Matcher) (path : Text)
      → (other_method mi m path ≡ method_not_allowed) ⊎ (other_method mi m path ≡ not_found)
  unfolding other_method
  other_method-cases m path = ground arith

  other_method-Answers :
      (m : Matcher) (method path : Text) → Answers m.routes method (other_method mi m path)
  other_method-Answers m method path = elim (other_method-cases m path) [
    | inl e ↦ rw e tt
    | inr e ↦ rw e tt
  ]

  find-Answers :
      (m : Matcher) (method path : Text)
      → IsIndexed m
      → Answers m.routes method (find mi m method path)
  unfolding find
  find-Answers m method path h = elim (Bool-cases (contains_byte 0 path)) [
    | inl nul ↦ rw nul tt
    | inr clean ↦ rw clean (go (lookup method m.by_method) refl)
  ]
    where
      go :
          (o : Option (Tree ℕ))
          → lookup method m.by_method ≡ o
          → Answers m.routes method (elim (and_then o (λ t. find_in mi t path)) as (λ x. Match) [
            | some hit ↦ route_at m.routes hit
            | none ↦ other_method mi m path
          ])
      go none e = other_method-Answers m method path
      go (some t) e = elim (Option-cases (find_in mi t path)) [
        | inl missed ↦ rw missed (other_method-Answers m method path)
        | inr (hit, got) ↦ rw got (
            route_at-Answers m.routes method hit (
              find_in-PointsAt m.routes method t path hit
                (lookup-AllEntries _ method m.by_method h e) got))
      ]

  -- A table that was built answers every request with a route of its own that is registered for the
  -- request's method, with 405 or with 404, and never by an index out of range.
  pub find-build :
      (routes : List Route) (m : Matcher) (method path : Text)
      → build mi routes ≡ ok m
      → Answers routes method (find mi m method path)
  unfolding build
  find-build routes m method path e =
      let (indexed, same) = build_from-IsIndexed 0 routes _ m tt refl e in
      rw (← same) (find-Answers m method path indexed)

  -- A path that holds a NUL byte matches no route, whatever the table.
  pub find_nul :
      (m : Matcher) (method path : Text)
      → contains_byte 0 path ≡ true
      → find mi m method path ≡ not_found
  unfolding find
  find_nul m method path nul = rw nul
