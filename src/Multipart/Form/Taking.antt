-- ===== src/Multipart/Form/Taking.antt =====
-- crates/tork-core/src/multipart.rs: how a form model takes its fields out of a parsed form.
-- `FromStr::from_str` is the parameter `parse`.
pub mod Values
use tork_framework.Base.{
  ℕ, ◌≡◌, refl, sym, ap, ◌∙◌, ◌++◌, Bool, true, false, not, Option, none, some, List, [], ◌∷◌, map,
  Text, bytes, text_eq, if◌then◌else◌, any, keep, Bool-cases, inl, inr, arith,
}
use tork_framework.Error.{Result, ok, err, ◌>>=◌, Error, unprocessable_error}
use tork_framework.Multipart.Spool.{
  TempFiles, or_error, io_failed, FileBytes, UploadFile, read_whole,
}
use tork_framework.Multipart.Form.{FilePart, MultipartForm}

-- `position` and `remove`: the first element of a kind, and the others.
unfoldable pub remove_first {ℓ} : {A : Type ℓ} → (A → Bool) → List A → Option (A × List A)
remove_first p [] = none
remove_first p (x ∷ xs) =
    let rest = remove_first p xs in
    if p x then some (x, xs) else elim rest [ none ↦ none | some (y, ys) ↦ some (y, x ∷ ys) ]

-- The loop that removes each element of a kind as it meets it: those, and the others.
unfoldable pub remove_all {ℓ} : {A : Type ℓ} → (A → Bool) → List A → List A × List A
remove_all p [] = ([], [])
remove_all p (x ∷ xs) =
    let rest = remove_all p xs in if p x then (x ∷ rest.0, rest.1) else (rest.0, x ∷ rest.1)

abbrev pub field_message : Text → Text → Text
field_message name rest = bytes "form field `" ++ (name ++ rest)

abbrev pub not_a_text : Text → Error
not_a_text name = unprocessable_error (field_message name (bytes "` is a file, not a text value"))

abbrev pub not_a_file : Text → Error
not_a_file name = unprocessable_error (field_message name (bytes "` is a text value, not a file"))

abbrev pub invalid_value : Text → Error
invalid_value name = unprocessable_error (field_message name (bytes "` has an invalid value"))

abbrev pub is_text_named : Text → Text × Text → Bool
is_text_named name t = text_eq t.0 name

module _ {A : Type 0} (parse : Text → Option A) (name : Text) where
  abbrev pub parsed : Text → Result A
  parsed value = elim (parse value) [ none ↦ err (invalid_value name) | some a ↦ ok a ]

  -- A value in front of those behind it.
  abbrev pub push_value :
      A → List (Text × Text) × Result (List A) → List (Text × Text) × Result (List A)
  push_value a (ts, ok values) = (ts, ok (a ∷ values))
  push_value a (ts, err e) = (ts, err e)

  -- The loop of `take_form_values`: a value that is refused is gone, and what is behind it stays.
  unfoldable pub take_values : List (Text × Text) → List (Text × Text) × Result (List A)
  take_values [] = ([], ok [])
  take_values (t ∷ ts) =
      let rest = take_values ts in
      if is_text_named name t
      then elim (parse t.1) [ none ↦ (ts, err (invalid_value name)) | some a ↦ push_value a rest ]
      else (t ∷ rest.0, rest.1)

  -- The values of texts, or the refusal of the first one that is none.
  unfoldable pub parse_each : List (Text × Text) → Result (List A)
  parse_each [] = ok []
  parse_each (t ∷ ts) = parsed t.1 >>= λ a. parse_each ts >>= λ values. ok (a ∷ values)

module _ (tf : TempFiles) (decode : Option Text → Text → Text) where
  abbrev pub is_file_named : Text → FilePart tf decode → Bool
  is_file_named name f = text_eq f.name name

  abbrev pub form_value :
      {A : Type 0}
      → (Text → Option A)
      → Text
      → MultipartForm tf decode
      → Option ((Text × Text) × List (Text × Text))
      → MultipartForm tf decode × Result (Option A)
  form_value parse name form none =
      (form, if any (is_file_named name) form.files then err (not_a_text name) else ok none)
  form_value parse name form (some (t, ts)) =
      (record form { texts = ts }, parsed parse name t.1 >>= λ a. ok (some a))

  unfoldable pub take_form_value :
      {A : Type 0}
      → (Text → Option A)
      → Text
      → MultipartForm tf decode
      → MultipartForm tf decode × Result (Option A)
  take_form_value parse name form =
      form_value parse name form (remove_first (is_text_named name) form.texts)

  unfoldable pub take_form_values :
      {A : Type 0}
      → (Text → Option A)
      → Text
      → MultipartForm tf decode
      → MultipartForm tf decode × Result (List A)
  take_form_values parse name form =
      let r = take_values parse name form.texts in (record form { texts = r.0 }, r.1)

  abbrev pub file_part_into_bytes : FilePart tf decode → Result (FileBytes tf)
  file_part_into_bytes part = or_error io_failed (read_whole tf part.storage) >>= λ r.
      ok (record { content = r.1; filename = part.filename; content_type = part.content_type })

  abbrev pub file_part_into_upload : FilePart tf decode → UploadFile tf
  file_part_into_upload part = record {
    filename = part.filename;
    content_type = part.content_type;
    size = part.size;
    storage = some part.storage;
  }

  abbrev pub file_bytes :
      Text
      → MultipartForm tf decode
      → Option (FilePart tf decode × List (FilePart tf decode))
      → MultipartForm tf decode × Result (Option (FileBytes tf))
  file_bytes name form none =
      (form, if any (is_text_named name) form.texts then err (not_a_file name) else ok none)
  file_bytes name form (some (f, fs)) =
      (record form { files = fs }, file_part_into_bytes f >>= λ b. ok (some b))

  unfoldable pub take_file_bytes :
      Text → MultipartForm tf decode → MultipartForm tf decode × Result (Option (FileBytes tf))
  take_file_bytes name form = file_bytes name form (remove_first (is_file_named name) form.files)

  abbrev pub all_bytes : List (FilePart tf decode) → Result (List (FileBytes tf))
  all_bytes [] = ok []
  all_bytes (f ∷ fs) = file_part_into_bytes f >>= λ b. all_bytes fs >>= λ bs. ok (b ∷ bs)

  unfoldable pub take_file_bytes_list :
      Text → MultipartForm tf decode → MultipartForm tf decode × Result (List (FileBytes tf))
  take_file_bytes_list name form =
      let r = remove_all (is_file_named name) form.files in
      (record form { files = r.1 }, all_bytes r.0)

  abbrev pub upload_file :
      MultipartForm tf decode
      → Option (FilePart tf decode × List (FilePart tf decode))
      → MultipartForm tf decode × Option (UploadFile tf)
  upload_file form none = (form, none)
  upload_file form (some (f, fs)) = (record form { files = fs }, some (file_part_into_upload f))

  unfoldable pub take_upload_file :
      Text → MultipartForm tf decode → MultipartForm tf decode × Option (UploadFile tf)
  take_upload_file name form = upload_file form (remove_first (is_file_named name) form.files)

  unfoldable pub take_upload_file_list :
      Text → MultipartForm tf decode → MultipartForm tf decode × List (UploadFile tf)
  take_upload_file_list name form =
      let r = remove_all (is_file_named name) form.files in
      (record form { files = r.1 }, map file_part_into_upload r.0)
