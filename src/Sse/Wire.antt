-- ===== src/Sse/Wire.antt =====
-- The wire format read back: a client of the event-stream format, and what it gets from an encoded
-- event. The client follows the WHATWG description: lines end at LF, CR or CRLF, a field's name
-- stands before the first colon, one space behind the colon is dropped, and an empty line dispatches
-- the event if it has data.
use tork_framework.Base.{
  ◌++◌, Bool, true, false, Option, some, List, [], ◌∷◌, Text, bytes, text_eq, contains_byte,
  split_on, join_with, ◌==◌, if◌then◌else◌,
}

pub record Message : Type 0 where
  pub kind : Text
  pub content : Text
  pub last_id : Text

pub record Client : Type 0 where
  pub kind : Text
  pub content : List Text
  pub last_id : Text
  pub wait : Option Text
  pub messages : List Message

-- CR and CRLF become LF.
abbrev pub after_cr : Bool → Text → Text → Text
after_cr true whole rest = rest
after_cr false whole rest = whole

abbrev pub is_lf_next : Text → Bool
is_lf_next [] = false
is_lf_next (c ∷ s) = c == 10

unfoldable pub unified : Text → Text
unified [] = []
unified (c ∷ s) =
    let rest = unified s in if c == 13 then (if is_lf_next s then rest else 10 ∷ rest) else c ∷ rest

abbrev pub dispatch : Client → Client
dispatch c = elim c.content [
  | [] ↦ record c { kind = [] }
  | l ∷ ls ↦ record c {
    kind = [];
    content = [];
    messages =
        c.messages
        ++ (record { kind = c.kind; content = join_with (10 ∷ []) (l ∷ ls); last_id = c.last_id })
          ∷ [];
  }
]

-- The name of a field and its value.
unfoldable pub field : Text → Text × Text
field [] = ([], [])
field (c ∷ s) = let (name, value) = field s in if c == b':' then ([], s) else (c ∷ name, value)

abbrev pub without_space : Text → Text
without_space [] = []
without_space (c ∷ s) = if c == b' ' then s else c ∷ s

abbrev pub all_digits : Text → Bool
all_digits [] = true
all_digits (c ∷ s) = if contains_byte c (bytes "0123456789") then all_digits s else false

unfoldable pub take_field : Text → Text → Client → Client
take_field name value c =
    if text_eq name (bytes "event")
    then record c { kind = value }
    else if text_eq name (bytes "data")
    then record c { content = c.content ++ value ∷ [] }
    else if text_eq name (bytes "id")
    then (if contains_byte 0 value then c else record c { last_id = value })
    else if text_eq name (bytes "retry")
    then (if all_digits value then record c { wait = some value } else c)
    else c

unfoldable pub take_line : Text → Client → Client
take_line [] c = dispatch c
take_line (b ∷ s) c = let (name, value) = field (b ∷ s) in take_field name (without_space value) c

-- The lines that are complete; what stands behind the last terminator is not a line yet.
unfoldable pub take_lines : List Text → Client → Client
take_lines [] c = c
take_lines (l ∷ []) c = c
take_lines (l ∷ k ∷ ls) c = take_lines (k ∷ ls) (take_line l c)

unfoldable pub read : Text → Client → Client
read s c = take_lines (split_on 10 (unified s)) c
