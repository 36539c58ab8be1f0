-- ===== src/Router/Matcher/Slashes.antt =====
-- The two retries of a match: without the trailing slashes, and with the slashes collapsed.
use tork_framework.Base.{
  ℕ, zero, suc, ◌≡◌, ◌==◌, refl, ◌≢◌, ap, ◌∙◌, ◌⊎◌, inl, inr, true, false, not, Option, none, some,
  List, [], ◌∷◌, ◌++◌, Text, arith, All, keep, is_empty, text_eq, text_eq_iff, starts_with,
  ends_with, contains_byte, trim_end, split_on, join_with, or_else, and_then, Option-cases,
  Bool-cases,
}
use tork_framework.Base.Splitting.{HasNo, split_on-HasNo}
use tork_framework.Base.Trimming.{trim_before, trim_end-append}
use tork_framework.Router.Paths.{slash}
use tork_framework.Router.Matcher.{
  Matchit, Tree, Params, patterns, at, find_in, normalized, collapsed,
}

join_with-unrooted :
    (ps : List Text)
    → All (HasNo b'/') ps
    → starts_with slash (join_with slash (keep (λ s. not (is_empty s)) ps)) ≡ false
unfolding starts_with join_with contains_byte
join_with-unrooted [] h = refl
join_with-unrooted ([] ∷ ps) h = join_with-unrooted ps h.1
join_with-unrooted ((c ∷ p) ∷ ps) h = go (keep (λ s. not (is_empty s)) ps) (ground arith)
  where
    go :
        (rest : List Text)
        → (b'/' == c) ≡ false
        → starts_with slash (join_with slash ((c ∷ p) ∷ rest)) ≡ false
    go [] n = ground arith
    go (q ∷ rest) n = ground arith

-- Collapsing gives the root path, or a path that does not begin with a slash: the leading slash is
-- lost with the empty pieces.
pub collapsed_unrooted :
    (path c : Text) → collapsed path ≡ some c → (c ≡ slash) ⊎ (starts_with slash c ≡ false)
unfolding collapsed
collapsed_unrooted path c e =
    ground (arith, join_with-unrooted (split_on b'/' path) (split_on-HasNo b'/' path))

unfoldable pub slashes : ℕ → Text
slashes zero = []
slashes (suc k) = b'/' ∷ slashes k

trim_end-slashes : (k : ℕ) → trim_end b'/' (slashes k) ≡ []
unfolding trim_end slashes
trim_end-slashes zero = refl
trim_end-slashes (suc k) = rw (trim_end-slashes k)

trim_end-append_slashes :
    (p : Text) (k : ℕ) → trim_end b'/' p ≡ p → trim_end b'/' (p ++ slashes k) ≡ p
trim_end-append_slashes p k e =
    trim_end-append b'/' p (slashes k) ∙ ap (trim_before b'/' p) (trim_end-slashes k) ∙ e

ends_with-append_slashes : (p : Text) (k : ℕ) → ends_with slash (p ++ slashes (suc k)) ≡ true
unfolding ends_with slashes text_eq
ends_with-append_slashes [] zero = refl
ends_with-append_slashes [] (suc k) = ends_with-append_slashes [] k
ends_with-append_slashes (c ∷ p) k = ground (arith, ends_with-append_slashes p k)

not_slash : (x : Text) (c : ℕ) (p : Text) → trim_end b'/' x ≡ c ∷ p → text_eq x slash ≡ false
unfolding trim_end
not_slash x c p e = elim (Bool-cases (text_eq x slash)) [
  | inl same ↦ let root : x ≡ slash = (text_eq_iff x slash).0 same in cc (rw root at e)
  | inr other ↦ other
]

-- A path that does not end in a slash is what its version with any number of slashes behind it is
-- normalized to.
normalized-append_slashes :
    (c : ℕ) (p : Text) (k : ℕ)
    → trim_end b'/' (c ∷ p) ≡ c ∷ p
    → normalized ((c ∷ p) ++ slashes (suc k)) ≡ some (c ∷ p)
unfolding normalized
normalized-append_slashes c p k e = ground (
  arith,
  ends_with-append_slashes (c ∷ p) k,
  trim_end-append_slashes (c ∷ p) (suc k) e,
  not_slash ((c ∷ p) ++ slashes (suc k)) c p (trim_end-append_slashes (c ∷ p) (suc k) e),
)

module _ (mi : Matchit) (t : Tree ℕ) where
  -- A request that has slashes behind a matched path, which does not end in one itself, reaches the
  -- same route with the same parameters, if the tree has no match for it as it stands.
  pub find_in_trailing :
      (c : ℕ) (p : Text) (k : ℕ) (hit : ℕ × Params)
      → trim_end b'/' (c ∷ p) ≡ c ∷ p
      → at mi t (c ∷ p) ≡ some hit
      → at mi t ((c ∷ p) ++ slashes (suc k)) ≡ none
      → find_in mi t ((c ∷ p) ++ slashes (suc k)) ≡ some hit
  unfolding find_in
  find_in_trailing c p k hit e matched missed =
      rw (missed, normalized-append_slashes c p k e) (ground (arith, matched))

  at_unrooted :
      (path : Text)
      → All (λ p. starts_with slash p ≡ true) (patterns t)
      → starts_with slash path ≡ false
      → at mi t path ≡ none
  unfolding at
  at_unrooted path rooted n = rw (mi.rooted (patterns t) path rooted n)

  at-collapsed :
      (path : Text)
      → All (λ p. starts_with slash p ≡ true) (patterns t)
      → collapsed path ≢ some slash
      → and_then (collapsed path) (at mi t) ≡ none
  at-collapsed path rooted other = elim (Option-cases (collapsed path)) [
    | inl whole ↦ rw whole
    | inr (c, e) ↦ elim (collapsed_unrooted path c e) [
      | inl root ↦ absurd (other (e ∙ ap some root))
      | inr n ↦ rw e (at_unrooted c rooted n)
    ]
  ]

  or_else-none : (a b : Option (ℕ × Params)) → or_else a (or_else b none) ≡ or_else a b
  or_else-none none none = refl
  or_else-none none (some b) = refl
  or_else-none (some a) b = refl

  -- Over patterns that begin with a slash, the collapsed path of a request is never matched, unless
  -- it is the root path: a match is one of the path as it stands, or of the path without its
  -- trailing slashes.
  pub find_in-collapsed :
      (path : Text)
      → All (λ p. starts_with slash p ≡ true) (patterns t)
      → collapsed path ≢ some slash
      → find_in mi t path ≡ or_else (at mi t path) (and_then (normalized path) (at mi t))
  unfolding find_in
  find_in-collapsed path rooted other =
      rw (at-collapsed path rooted other)
        (or_else-none (at mi t path) (and_then (normalized path) (at mi t)))
