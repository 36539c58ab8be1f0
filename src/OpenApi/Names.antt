-- ===== src/OpenApi/Names.antt =====
-- crates/tork-openapi/src/: what a path is called in a document: `operation_id` and
-- `placeholder_names` of spec.rs and `channel_name` of asyncapi.rs.
pub mod Placeholders
use tork_framework.Base.{
  ℕ, zero, suc, ◌++◌, Bool, ◌&&◌, ◌||◌, not, Option, none, some, List, [], ◌∷◌, map, Text, bytes,
  ◌==◌, leb, if◌then◌else◌, is_empty, keep, split_on, trim_start, take,
}

abbrev pub is_alphanumeric : ℕ → Bool
is_alphanumeric c =
    (leb b'0' c && leb c b'9') || (leb b'A' c && leb c b'Z') || (leb b'a' c && leb c b'z')

abbrev pub segments : Text → List Text
segments path = keep (λ s. not (is_empty s)) (split_on b'/' path)

abbrev pub id_char : ℕ → ℕ
id_char c = if is_alphanumeric c then c else b'_'

abbrev pub id_segments : List Text → Text
id_segments [] = []
id_segments (s ∷ ss) = b'_' ∷ map id_char s ++ id_segments ss

unfoldable pub operation_id : (method path : Text) → Text
operation_id method path = method ++ id_segments (segments path)

-- The characters of a segment in a channel's name.
abbrev pub channel_segment : Text → Text
channel_segment [] = []
channel_segment (c ∷ s) =
    let rest = channel_segment s in
    if is_alphanumeric c
    then c ∷ rest
    else if not (c == b'{') && not (c == b'}')
    then b'_' ∷ rest
    else rest

-- From the name so far.
abbrev pub channel_segments : Text → List Text → Text
channel_segments name [] = name
channel_segments name (s ∷ ss) =
    channel_segments ((if is_empty name then name else name ++ b'_' ∷ []) ++ channel_segment s) ss

unfoldable pub channel_name : Text → Text
channel_name path =
    let name = channel_segments [] (segments path) in if is_empty name then bytes "root" else name

-- `find` of a character: its index.
unfoldable pub find_char : ℕ → Text → Option ℕ
find_char b [] = none
find_char b (c ∷ s) =
    if c == b then some 0 else elim (find_char b s) [ none ↦ none | some i ↦ some (suc i) ]

-- The names from an index on that lies `skip` characters ahead.
unfoldable pub names_from : (skip : ℕ) → Text → List Text
names_from k [] = []
names_from (suc k) (c ∷ s) = names_from k s
names_from zero (c ∷ s) =
    let plain = names_from 0 s in
    if c == b'{'
    then elim (find_char b'}' s) [
      | none ↦ plain
      | some offset ↦ trim_start b'*' (take offset s) ∷ names_from (suc offset) s
    ]
    else plain

unfoldable pub placeholder_names : Text → List Text
placeholder_names path = names_from 0 path
