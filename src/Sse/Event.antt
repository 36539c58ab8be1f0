-- ===== src/Sse/Event.antt =====
-- crates/tork-core/src/sse.rs: an event and its encoding. A typed payload is a type `D` with the
-- serialization of serde_json, which may fail, as a parameter; strings are their bytes.
use tork_framework.Base.{
  ℕ, ◌++◌, Bool, true, false, ◌||◌, ◌&&◌, not, Option, none, some, List, [], ◌∷◌, Text, bytes,
  decimal, split_on, keep, or_else, ◌==◌, ◌⊎◌, inl, inr,
}
use tork_framework.Error.{Result, ok, err, internal_error}

pub record SseEvent {ℓ} (D : Type ℓ) : Type ℓ where
  pub payload : Option D
  pub text : Option Text
  pub name : Option Text
  pub id : Option Text
  pub retry : Option ℕ
  pub remark : Option Text

pub record RawEvent : Type 0 where
  pub data_text : Option Text
  pub name : Option Text
  pub id : Option Text
  pub retry : Option ℕ
  pub remark : Option Text

module _ {ℓ} {D : Type ℓ} where
  abbrev pub new_event : D → SseEvent D
  new_event d = record {
    payload = some d;
    text = none;
    name = none;
    id = none;
    retry = none;
    remark = none;
  }

  abbrev pub raw_event : Text → SseEvent D
  raw_event t = record {
    payload = none;
    text = some t;
    name = none;
    id = none;
    retry = none;
    remark = none;
  }

  abbrev pub set_event : Text → SseEvent D → SseEvent D
  set_event t e = record e { name = some t }

  abbrev pub set_id : Text → SseEvent D → SseEvent D
  set_id t e = record e { id = some t }

  abbrev pub retry_ms : ℕ → SseEvent D → SseEvent D
  retry_ms n e = record e { retry = some n }

  abbrev pub comment : Text → SseEvent D → SseEvent D
  comment t e = record e { remark = some t }

  abbrev pub wired : SseEvent D → Option Text → RawEvent
  wired e t = record { data_text = t; name = e.name; id = e.id; retry = e.retry; remark = e.remark }

  abbrev pub serialized : SseEvent D → Text ⊎ Text → Result RawEvent
  serialized e (inl why) = err (internal_error (bytes "failed to serialize SSE data: " ++ why))
  serialized e (inr json) = ok (wired e (some json))

  -- A payload is serialized, and otherwise the raw text is taken.
  abbrev pub into_raw : (D → Text ⊎ Text) → SseEvent D → Result RawEvent
  into_raw to_json e = elim e.payload [
    | some d ↦ serialized e (to_json d)
    | none ↦ ok (wired e e.text)
  ]

-- The bytes of a single-line field: no CR, no LF, and on demand no NUL.
abbrev pub is_kept : Bool → ℕ → Bool
is_kept strip_nul c = not (c == 13 || (c == 10 || (strip_nul && c == 0)))

abbrev pub single_line : Text → Bool → Text
single_line value strip_nul = keep (is_kept strip_nul) value

-- One line for each line of a text, behind the name of its field.
unfoldable pub field_lines : Text → List Text → Text
field_lines label [] = []
field_lines label (l ∷ ls) = label ++ (l ++ 10 ∷ field_lines label ls)

abbrev pub text_field : Text → Option Text → Text
text_field label none = []
text_field label (some t) = field_lines label (split_on 10 t)

abbrev pub line_field : Text → Option Text → Text
line_field label none = []
line_field label (some t) = label ++ (t ++ 10 ∷ [])

-- `Option::map`, into a text.
abbrev pub mapped {ℓ} : {A : Type ℓ} → (A → Text) → Option A → Option Text
mapped f none = none
mapped f (some a) = some (f a)

unfoldable pub encode_event : RawEvent → Option Text → Text
encode_event e default_event =
    text_field (bytes ": ") e.remark
    ++ (line_field (bytes "event: ")
          (mapped (λ t. single_line t false) (or_else e.name default_event))
        ++ (line_field (bytes "id: ") (mapped (λ t. single_line t true) e.id)
            ++ (line_field (bytes "retry: ") (mapped decimal e.retry)
                ++ (text_field (bytes "data: ") e.data_text ++ 10 ∷ []))))
