-- ===== src/OpenApi/Names/Placeholders.antt =====
-- crates/tork-openapi/src/spec.rs: the placeholders of a path that is written as a list of parts.
use tork_framework.Base.{
  ℕ, suc, ◌≡◌, refl, ap, ◌∙◌, arith, ◌++◌, some, List, [], ◌∷◌, Text, ==_iff, trim_start, take,
  length, contains_byte,
}
use tork_framework.Base.Splitting.{HasNo}
use tork_framework.OpenApi.Names.{find_char, names_from, placeholder_names}

-- A part of a path: a text without an opening brace, or a placeholder, whose name has no closing one.
pub data Part : Type 0 where
  literal placeholder : Text → Part

abbrev pub IsPart : Part → Type 0
IsPart (literal t) = HasNo b'{' t
IsPart (placeholder t) = HasNo b'}' t

abbrev pub IsPath : List Part → Type 0
IsPath [] = Unit
IsPath (p ∷ ps) = IsPart p × IsPath ps

unfoldable pub written : List Part → Text
written [] = []
written (literal t ∷ ps) = t ++ written ps
written (placeholder t ∷ ps) = b'{' ∷ t ++ b'}' ∷ written ps

-- The names, without the stars that stand in front of a name for the rest of a path.
unfoldable pub names : List Part → List Text
names [] = []
names (literal t ∷ ps) = names ps
names (placeholder t ∷ ps) = trim_start b'*' t ∷ names ps

find_char-append : (b : ℕ) (t s : Text) → HasNo b t → find_char b (t ++ b ∷ s) ≡ some (length t)
unfolding find_char contains_byte
find_char-append b [] s h = ground (arith, ==_iff b b)
find_char-append b (c ∷ t) s h = ground (arith, find_char-append b t s)

take-length : (t s : Text) → take (length t) (t ++ s) ≡ t
take-length [] s = refl
take-length (c ∷ t) s = ap (λ u. c ∷ u) (take-length t s)

names_from_past :
    (t : Text) (c : ℕ) (s : Text) → names_from (suc (length t)) (t ++ c ∷ s) ≡ names_from 0 s
unfolding names_from
names_from_past [] c s = refl
names_from_past (d ∷ t) c s = names_from_past t c s

names_from-literal : (t s : Text) → HasNo b'{' t → names_from 0 (t ++ s) ≡ names_from 0 s
unfolding names_from contains_byte
names_from-literal [] s h = refl
names_from-literal (c ∷ t) s h = ground (arith, names_from-literal t s)

names_from-placeholder :
    (t s : Text)
    → HasNo b'}' t
    → names_from 0 (b'{' ∷ t ++ b'}' ∷ s) ≡ trim_start b'*' t ∷ names_from 0 s
unfolding names_from
names_from-placeholder t s h =
    rw (find_char-append b'}' t s h, take-length t (b'}' ∷ s))
      (ap (λ ns. trim_start b'*' t ∷ ns) (names_from_past t b'}' s))

-- The placeholders of a path that is written as a list of literal parts and placeholders are
-- exactly the names of these, in order, without leading stars, if no literal part holds an opening
-- brace and no name a closing one.
pub placeholder_names-written :
    (ps : List Part) → IsPath ps → placeholder_names (written ps) ≡ names ps
unfolding placeholder_names written names
placeholder_names-written [] h = unfold names_from in refl
placeholder_names-written (literal t ∷ ps) h =
    names_from-literal t (written ps) h.0 ∙ placeholder_names-written ps h.1
placeholder_names-written (placeholder t ∷ ps) h =
    names_from-placeholder t (written ps) h.0
    ∙ ap (λ ns. trim_start b'*' t ∷ ns) (placeholder_names-written ps h.1)
