-- ===== src/Instances.antt =====
-- Concrete functions for the parameters of the model: headers as a list of pairs, a matcher of
-- whole paths, and status codes from 100 to 999.
use tork_framework.Base.{
  ℕ, zero, suc, ◌<◌, ◌≡◌, refl, true, false, ◌&&◌, not, Option, none, some, List, [], ◌∷◌, Text,
  bytes, arith, All, text_eq, text_eq_iff, starts_with, length, lookup, insert, lookup-insert_self,
  lookup-insert_ne, and_then, if◌then◌else◌, leb, ltb,
}
use tork_framework.Error.{StatusApi}
use tork_framework.Router.Paths.{slash}
use tork_framework.Router.Routes.{contains}
use tork_framework.Router.Matcher.{Matchit, Params}
use tork_framework.Middleware.Http.{Http}

abbrev pub codes : StatusApi
codes = record {
  from_u16 = λ n. if leb 100 n && ltb n 1000 then some n else none;
  is_server_error = λ n. leb 500 n && ltb n 600;
  canonical_reason = λ n. none;
  from_u16_lem = λ n. refl;
  is_server_error_lem = λ n. refl;
}

pub lookup-nil : (n : Text) → lookup {V = Text} n [] ≡ none
unfolding lookup
lookup-nil n = refl

abbrev pub pairs : Http
pairs = record {
  Headers = List (Text × Text);
  empty = [];
  get = lookup;
  insert = insert;
  to_str = some;
  from_str = some;
  get-insert_self = λ n v hs. lookup-insert_self n v hs;
  get-insert_ne = λ n v k hs d. lookup-insert_ne n k v hs d;
  get-empty = lookup-nil;
}

-- The position of a pattern that is the path.
unfoldable pub position : List Text → Text → Option ℕ
position [] q = none
position (p ∷ ps) q = if text_eq p q then some 0 else and_then (position ps q) (λ i. some (suc i))

unfoldable pub exactly : List Text → Text → Option (ℕ × Params)
exactly ps q = and_then (position ps q) (λ i. some (i, []))

position_in_range : (ps : List Text) (q : Text) (i : ℕ) → position ps q ≡ some i → i < length ps
unfolding position
position_in_range [] q i e = cc
position_in_range (p ∷ ps) q zero e = omega arith
position_in_range (p ∷ ps) q (suc i) e = ground (arith, position_in_range ps q i)

pub exactly_in_range :
    (ps : List Text) (q : Text) (i : ℕ) (c : Params) → exactly ps q ≡ some (i, c) → i < length ps
unfolding exactly
exactly_in_range ps q i c e = ground (arith, position_in_range ps q i)

position_rooted :
    (ps : List Text) (q : Text)
    → All (λ p. starts_with slash p ≡ true) ps
    → starts_with slash q ≡ false
    → position ps q ≡ none
unfolding position
position_rooted [] q h n = refl
position_rooted (p ∷ ps) q h n = ground (arith, position_rooted ps q h.1 n, text_eq_iff p q)

pub exactly_rooted :
    (ps : List Text) (q : Text)
    → All (λ p. starts_with slash p ≡ true) ps
    → starts_with slash q ≡ false
    → exactly ps q ≡ none
unfolding exactly
exactly_rooted ps q h n = rw (position_rooted ps q h n)

abbrev pub whole_paths : Matchit
whole_paths = record {
  accepts = λ ps p. not (contains ps p);
  describe = λ ps p. bytes "conflict";
  matches = exactly;
  in_range = exactly_in_range;
  rooted = exactly_rooted;
}
