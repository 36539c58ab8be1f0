-- ===== src/OpenApi/Escape/Decoding.antt =====
-- crates/tork-openapi/src/: what a reader of HTML makes of the texts that are escaped.
use tork_framework.Base.{
  ℕ, zero, suc, ◌≡◌, ◌≢◌, refl, sym, ap, ◌∙◌, arith, ◌++◌, append_assoc, ◌||◌, Option, none, some,
  [], ◌∷◌, map, Text, bytes, ◌==◌, if◌then◌else◌, starts_with, All, All-append,
}
use tork_framework.OpenApi.Escape.{
  is_control, sanitize_char, sanitize_doc_text, replace_char, html_escape,
}

-- The character that a reference behind `&` stands for, and how many characters it has.
unfoldable pub reference : Text → Option (ℕ × ℕ)
reference s =
    if starts_with (bytes "amp;") s
    then some (38, 4)
    else if starts_with (bytes "lt;") s
    then some (60, 3)
    else if starts_with (bytes "gt;") s
    then some (62, 3)
    else if starts_with (bytes "quot;") s
    then some (34, 5)
    else if starts_with (bytes "#x27;") s
    then some (39, 5)
    else if starts_with (bytes "#x60;") s
    then some (96, 5)
    else none

-- The text that is read, from behind the next characters on.
unfoldable pub read_from : (skip : ℕ) → Text → Text
read_from k [] = []
read_from (suc k) (c ∷ s) = read_from k s
read_from zero (c ∷ s) =
    let plain = c ∷ read_from 0 s in
    if c == 38 then elim (reference s) [ none ↦ plain | some (b, k) ↦ b ∷ read_from k s ] else plain

-- Characters that end a text, an attribute or a tag.
abbrev pub IsInert : ℕ → Type 0
IsInert c = (c ≢ 60) × (c ≢ 62) × (c ≢ 34) × (c ≢ 39) × (c ≢ 96)

-- A character as it is written, once.
entity : ℕ → Text
entity c =
    if c == 38
    then bytes "&amp;"
    else if c == 60
    then bytes "&lt;"
    else if c == 62
    then bytes "&gt;"
    else if c == 34
    then bytes "&quot;"
    else if c == 39
    then bytes "&#x27;"
    else if c == 96
    then bytes "&#x60;"
    else c ∷ []

entities : Text → Text
entities [] = []
entities (c ∷ s) = entity c ++ entities s

read_from-entity : (c : ℕ) (s : Text) → read_from 0 (entity c ++ s) ≡ c ∷ read_from 0 s
unfolding entity read_from reference starts_with
read_from-entity c s = ground arith

entity-IsInert : (c : ℕ) → All IsInert (entity c)
unfolding entity
entity-IsInert c = ground arith

read_from-entities : (s : Text) → read_from 0 (entities s) ≡ s
unfolding entities
read_from-entities [] = unfold read_from in refl
read_from-entities (c ∷ s) =
    read_from-entity c (entities s) ∙ ap (λ t. c ∷ t) (read_from-entities s)

entities-IsInert : (s : Text) → All IsInert (entities s)
unfolding entities
entities-IsInert [] = tt
entities-IsInert (c ∷ s) =
    All-append IsInert (entity c) (entities s) (entity-IsInert c) (entities-IsInert s)

-- What a control character becomes that ends no line and is no tab.
abbrev pub visible : ℕ → ℕ
visible c = if c == 10 || c == 13 || c == 9 then c else if is_control c then 32 else c

sanitize_char-entity : (c : ℕ) → sanitize_char c ≡ entity (visible c)
unfolding sanitize_char entity
sanitize_char-entity c = ground arith

sanitize_doc_text-entities : (s : Text) → sanitize_doc_text s ≡ entities (map visible s)
unfolding sanitize_doc_text entities
sanitize_doc_text-entities [] = refl
sanitize_doc_text-entities (c ∷ s) = rw (sanitize_char-entity c, sanitize_doc_text-entities s) refl

replace_char-append :
    (b : ℕ) (t x y : Text) → replace_char b t (x ++ y) ≡ replace_char b t x ++ replace_char b t y
unfolding replace_char
replace_char-append b t [] y = refl
replace_char-append b t (c ∷ x) y =
    rw (replace_char-append b t x y)
      (sym (append_assoc (if c == b then t else c ∷ []) (replace_char b t x) (replace_char b t y)))

html_escape-append : (x y : Text) → html_escape (x ++ y) ≡ html_escape x ++ html_escape y
unfolding html_escape
html_escape-append x y = simp (replace_char-append)

html_escape-entity : (c : ℕ) → html_escape (c ∷ []) ≡ entity c
unfolding html_escape replace_char entity
html_escape-entity c = ground arith

html_escape-entities : (s : Text) → html_escape s ≡ entities s
unfolding entities
html_escape-entities [] = unfold html_escape replace_char in refl
html_escape-entities (c ∷ s) =
    html_escape-append (c ∷ []) s ∙ rw (html_escape-entity c, html_escape-entities s) refl

-- A reader of HTML gets from an escaped text what was escaped, and from a sanitized one the same
-- with a space for each control character that is no tab and ends no line; neither holds a
-- character that could open or close a tag or end an attribute.
pub read_from-html_escape :
    (s : Text)
    → (read_from 0 (html_escape s) ≡ s)
      × All IsInert (html_escape s)
      × (read_from 0 (sanitize_doc_text s) ≡ map visible s)
      × All IsInert (sanitize_doc_text s)
read_from-html_escape s = (
  rw (html_escape-entities s) (read_from-entities s),
  rw (html_escape-entities s) (entities-IsInert s),
  rw (sanitize_doc_text-entities s) (read_from-entities (map visible s)),
  rw (sanitize_doc_text-entities s) (entities-IsInert (map visible s)),
)
