-- ===== src/Middleware/Chain/Duplicates.antt =====
-- When a stack with repeated names is refused, and what an accepted one holds.
use tork_framework.Base.{
  ℕ, zero, suc, ◌++◌, ◌≡◌, refl, sym, ap, ◌∙◌, ◌⊎◌, inl, inr, Bool, true, false, ◌||◌, ◌&&◌, not,
  some, List, [], ◌∷◌, Text, text_eq, text_eq_iff, set, any-append, arith, Option-cases, All,
  is_some,
}
use tork_framework.Error.{Error, Result, ok, err, ok-injective}
use tork_framework.Router.Routes.{contains}
use tork_framework.Router.Routes.Tags.{AreDistinct, AreDistinct-append}
use tork_framework.Middleware.Http.{Http}
use tork_framework.Middleware.Chain.{
  DuplicatePolicy, allow, warn, reject, replace, Middleware, position, duplicate_error, add_entry,
  resolve_from, resolve_duplicates,
}

abbrev pub is_reject : DuplicatePolicy → Bool
is_reject reject = true
is_reject _ = false

abbrev pub is_ok {ℓ} : {A : Type ℓ} → Result A → Bool
is_ok (ok a) = true
is_ok (err e) = false

-- Two lists of names with the same members.
abbrev pub SameNames : List Text → List Text → Type 0
SameNames ns ks = (n : Text) → contains ns n ≡ contains ks n

SameNames-append :
    (ns ks : List Text) (t : Text) → SameNames ns ks → SameNames (ns ++ t ∷ []) (ks ++ t ∷ [])
SameNames-append ns ks t same n =
    any-append (text_eq n) ns (t ∷ [])
    ∙ ap (λ b. b || contains (t ∷ []) n) (same n)
    ∙ sym (any-append (text_eq n) ks (t ∷ []))

SameNames-again :
    (ns ks : List Text) (t : Text)
    → SameNames ns ks
    → contains ns t ≡ true
    → SameNames ns (ks ++ t ∷ [])
SameNames-again ns ks t same there n =
    ground (arith, same n, any-append (text_eq n) ks (t ∷ []), text_eq_iff n t)

module _ {h : Http} {S : Type 0} where
  abbrev pub names : List (Middleware h S) → List Text
  names [] = []
  names (m ∷ ms) = m.name ∷ names ms

  -- An entry that rejects stands behind one of its name.
  abbrev pub clashes : List Text → List (Middleware h S) → Bool
  clashes seen [] = false
  clashes seen (m ∷ ms) =
      (contains seen m.name && is_reject m.duplicate_policy) || clashes (seen ++ m.name ∷ []) ms

  names-append :
      (ms : List (Middleware h S)) (m : Middleware h S)
      → names (ms ++ m ∷ []) ≡ names ms ++ m.name ∷ []
  names-append [] m = refl
  names-append (k ∷ ms) m = ap (λ t. k.name ∷ t) (names-append ms m)

  position-contains :
      (n : Text) (ms : List (Middleware h S)) → is_some (position h S n ms) ≡ contains (names ms) n
  position-contains n [] = refl
  position-contains n (m ∷ ms) =
      ground (arith, position-contains n ms, text_eq_iff m.name n, text_eq_iff n m.name)

  -- A replacement keeps the names.
  names-set :
      (ms : List (Middleware h S)) (m : Middleware h S) (i : ℕ)
      → position h S m.name ms ≡ some i
      → names (set ms i m) ≡ names ms
  names-set [] m i e = cc
  names-set (k ∷ ms) m zero e = ground (arith, text_eq_iff k.name m.name)
  names-set (k ∷ ms) m (suc i) e = ground (arith, names-set ms m i)

  -- What one entry does, by whether its name is there.
  add_entry-new :
      (ms : List (Middleware h S)) (m : Middleware h S)
      → contains (names ms) m.name ≡ false
      → add_entry h S ms m ≡ ok (ms ++ m ∷ [])
  unfolding add_entry
  add_entry-new ms m absent = elim (Option-cases (position h S m.name ms)) [
    | inl e ↦ rw (e, add_entry) refl
    | inr (i, e) ↦ ground (arith, position-contains m.name ms)
  ]

  -- The names that a successful round leaves, and whether the round succeeds.
  pub data Round (ms : List (Middleware h S)) (m : Middleware h S) : Type 0 where
    fresh : contains (names ms) m.name ≡ false → add_entry h S ms m ≡ ok (ms ++ m ∷ []) → Round ms m
    kept :
        contains (names ms) m.name ≡ true
        → (m.duplicate_policy ≡ allow) ⊎ (m.duplicate_policy ≡ warn)
        → add_entry h S ms m ≡ ok (ms ++ m ∷ [])
        → Round ms m
    replaced :
        (out : List (Middleware h S))
        → contains (names ms) m.name ≡ true
        → m.duplicate_policy ≡ replace
        → names out ≡ names ms
        → add_entry h S ms m ≡ ok out
        → Round ms m
    refused :
        contains (names ms) m.name ≡ true
        → m.duplicate_policy ≡ reject
        → add_entry h S ms m ≡ err (duplicate_error h S m.name)
        → Round ms m

  Round-repeated :
      (ms : List (Middleware h S)) (m : Middleware h S) (i : ℕ) (p : DuplicatePolicy)
      → contains (names ms) m.name ≡ true
      → position h S m.name ms ≡ some i
      → m.duplicate_policy ≡ p
      → Round ms m
  unfolding add_entry
  Round-repeated ms m i allow there e q = kept there (inl q) (ground arith)
  Round-repeated ms m i warn there e q = kept there (inr q) (ground arith)
  Round-repeated ms m i replace there e q =
      replaced (set ms i m) there q (names-set ms m i e) (ground arith)
  Round-repeated ms m i reject there e q = refused there q (ground arith)

  round : (ms : List (Middleware h S)) (m : Middleware h S) → Round ms m
  round ms m = elim (Option-cases (position h S m.name ms)) [
    | inl e ↦
        let absent : contains (names ms) m.name ≡ false =
          ground (arith, position-contains m.name ms) in
        fresh absent (add_entry-new ms m absent)
    | inr (i, e) ↦
        Round-repeated ms m i m.duplicate_policy (ground (arith, position-contains m.name ms)) e
          refl
  ]

  resolve_from-clashes :
      (ms : List (Middleware h S)) (resolved : List (Middleware h S)) (seen : List Text)
      → SameNames (names resolved) seen
      → is_ok (resolve_from h S resolved ms) ≡ not (clashes seen ms)
  unfolding resolve_from
  resolve_from-clashes [] resolved seen same = refl
  resolve_from-clashes (m ∷ ms) resolved seen same = elim (round resolved m) [
    | fresh absent e ↦
        let clear : (contains seen m.name && is_reject m.duplicate_policy) ≡ false =
          ground (arith, same m.name) in
        rw (e, resolve_from, clear)
          (resolve_from-clashes ms (resolved ++ m ∷ []) (seen ++ m.name ∷ [])
            (rw (names-append resolved m) (SameNames-append (names resolved) seen m.name same)))
    | kept there q e ↦
        let clear : (contains seen m.name && is_reject m.duplicate_policy) ≡ false = ground arith in
        rw (e, resolve_from, clear)
          (resolve_from-clashes ms (resolved ++ m ∷ []) (seen ++ m.name ∷ [])
            (rw (names-append resolved m) (SameNames-append (names resolved) seen m.name same)))
    | replaced out there q n e ↦
        let clear : (contains seen m.name && is_reject m.duplicate_policy) ≡ false =
          rw q (ground arith) in
        rw (e, resolve_from, clear)
          (resolve_from-clashes ms out (seen ++ m.name ∷ [])
            (rw n (SameNames-again (names resolved) seen m.name same there)))
    | refused there q e ↦
        let clash : (contains seen m.name && is_reject m.duplicate_policy) ≡ true =
          rw q (ground (arith, same m.name)) in
        rw (e, resolve_from, clash) refl
  ]

  -- A stack is accepted exactly if none of its entries rejects being registered behind another of
  -- its name.
  pub resolve_duplicates-clashes :
      (ms : List (Middleware h S)) → is_ok (resolve_duplicates h S ms) ≡ not (clashes [] ms)
  unfolding resolve_duplicates
  resolve_duplicates-clashes ms = resolve_from-clashes ms [] [] (λ n. refl)

  -- Either rejects or replaces.
  abbrev pub IsStrict : Middleware h S → Type 0
  IsStrict m = (m.duplicate_policy ≡ reject) ⊎ (m.duplicate_policy ≡ replace)

  resolve_from-AreDistinct :
      (ms resolved out : List (Middleware h S))
      → All IsStrict ms
      → AreDistinct (names resolved)
      → resolve_from h S resolved ms ≡ ok out
      → AreDistinct (names out)
  unfolding resolve_from
  resolve_from-AreDistinct [] resolved out strict d e = rw (← ok-injective e) d
  resolve_from-AreDistinct (m ∷ ms) resolved out strict d e = elim (round resolved m) [
    | fresh absent q ↦
        resolve_from-AreDistinct ms (resolved ++ m ∷ []) out strict.1
          (rw (names-append resolved m) (AreDistinct-append (names resolved) m.name d absent))
          (rw (q, resolve_from) at e)
    | kept there p q ↦ absurd (lax m strict.0 p)
    | replaced next there p n q ↦
        resolve_from-AreDistinct ms next out strict.1 (rw n d) (rw (q, resolve_from) at e)
    | refused there p q ↦ absurd (clash (rw (q, resolve_from) at e))
  ]
    where
      clash : {x : Error} → err x ≡ ok out → ⊥
      clash c = cc

      lax :
          (m : Middleware h S)
          → IsStrict m
          → (m.duplicate_policy ≡ allow) ⊎ (m.duplicate_policy ≡ warn)
          → ⊥
      lax m (inl q) (inl p) = cc
      lax m (inl q) (inr p) = cc
      lax m (inr q) (inl p) = cc
      lax m (inr q) (inr p) = cc

  -- If every entry rejects or replaces, the names of an accepted stack are distinct.
  pub resolve_duplicates-AreDistinct :
      (ms out : List (Middleware h S))
      → All IsStrict ms
      → resolve_duplicates h S ms ≡ ok out
      → AreDistinct (names out)
  unfolding resolve_duplicates
  resolve_duplicates-AreDistinct ms out strict e = resolve_from-AreDistinct ms [] out strict tt e
