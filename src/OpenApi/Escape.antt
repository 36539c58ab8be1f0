-- ===== src/OpenApi/Escape.antt =====
-- crates/tork-openapi/src/: `sanitize_doc_text` of spec.rs and `html_escape` of docs.rs.
pub mod Decoding
use tork_framework.Base.{
  ℕ, ◌++◌, Bool, ◌&&◌, ◌||◌, List, [], ◌∷◌, Text, bytes, ◌==◌, leb, ltb, if◌then◌else◌,
}

-- `char::is_control`
abbrev pub is_control : ℕ → Bool
is_control c = ltb c 32 || (leb 127 c && leb c 159)

unfoldable pub sanitize_char : ℕ → Text
sanitize_char c =
    if c == 38
    then bytes "&amp;"
    else if c == 60
    then bytes "&lt;"
    else if c == 62
    then bytes "&gt;"
    else if c == 34
    then bytes "&quot;"
    else if c == 39
    then bytes "&#x27;"
    else if c == 96
    then bytes "&#x60;"
    else if c == 10 || c == 13 || c == 9
    then c ∷ []
    else if is_control c
    then 32 ∷ []
    else c ∷ []

unfoldable pub sanitize_doc_text : Text → Text
sanitize_doc_text [] = []
sanitize_doc_text (c ∷ s) = sanitize_char c ++ sanitize_doc_text s

-- `str::replace` of a character.
unfoldable pub replace_char : ℕ → Text → Text → Text
replace_char b t [] = []
replace_char b t (c ∷ s) = (if c == b then t else c ∷ []) ++ replace_char b t s

unfoldable pub html_escape : Text → Text
html_escape s = replace_char 96 (bytes "&#x60;") (
    replace_char 39 (bytes "&#x27;") (
      replace_char 34 (bytes "&quot;") (
        replace_char 62 (bytes "&gt;")
          (replace_char 60 (bytes "&lt;") (replace_char 38 (bytes "&amp;") s)))))
