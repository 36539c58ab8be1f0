-- ===== src/Multipart/Form.antt =====
-- crates/tork-core/src/multipart.rs: `MultipartForm`. The crate `multer` is the script of what it
-- reads: the parts in order, each with its pieces, and how the body ends. How it turns the bytes of
-- a part into text is the parameter `decode`. Sizes do not overflow.
pub mod Reading
pub mod Limits
pub mod Parsing
pub mod Acceptance
pub mod Taking
use tork_framework.Base.{
  ℕ, suc, ◌+◌, ◌++◌, Bool, true, false, Option, none, some, List, [], ◌∷◌, Text, bytes, text_eq,
  ltb, leb, length, if◌then◌else◌, unwrap_or, and_then, any,
}
use tork_framework.Error.{
  Result, ok, err, ◌>>=◌, Error, bad_request_error, unprocessable_error, payload_too_large_error,
  with_code,
}
use tork_framework.Middleware.Http.{Http}
use tork_framework.Multipart.Config.{
  UploadConfig, new_config, ResolvedConfig, merge, resolve, spool_flush_threshold,
}
use tork_framework.Multipart.Rules.{file_too_large}
use tork_framework.Multipart.Spool.{
  TempFiles, new_spool, spool_flush, and_done, or_error, io_failed, FileBytes, UploadFile,
  read_whole,
}

-- A piece of a part, or the message of multer's error.
pub data Piece : Type 0 where
  piece : Text → Piece
  broken : Text → Piece

pub record Field : Type 0 where
  pub name : Option Text
  pub file_name : Option Text
  pub content_type : Option Text
  pub pieces : List Piece

pub data Parts : Type 0 where
  closed : Parts
  unreadable : Text → Parts
  next_field : Field → Parts → Parts

abbrev pub parse_error : Text → Error
parse_error message = bad_request_error (bytes "multipart parse error: " ++ message)

abbrev pub too_many_fields : Error
too_many_fields =
    with_code (bytes "TOO_MANY_FIELDS") (unprocessable_error (bytes "too many form fields"))

abbrev pub too_many_files : Error
too_many_files =
    with_code (bytes "TOO_MANY_FILES") (bad_request_error (bytes "too many file fields"))

abbrev pub body_too_large : Error
body_too_large = payload_too_large_error (bytes "request body is too large")

abbrev pub field_too_large : Error
field_too_large =
    with_code (bytes "FIELD_TOO_LARGE") (payload_too_large_error (bytes "form field is too large"))

-- `Field::text`, which reads the part to its end.
unfoldable pub gather : Text → List Piece → Result Text
gather t [] = ok t
gather t (piece u ∷ ps) = gather (t ++ u) ps
gather t (broken message ∷ ps) = err (parse_error message)

module _ (tf : TempFiles) (decode : Option Text → Text → Text) where
  pub record FilePart : Type 0 where
    pub name : Text
    pub filename : Option Text
    pub content_type : Option Text
    pub storage : tf.Storage
    pub size : ℕ

  pub record MultipartForm : Type 0 where
    pub texts : List (Text × Text)
    pub files : List FilePart

  abbrev pub flushed : tf.Storage → Text → Result (tf.Storage × Text)
  flushed storage buffer =
      if leb spool_flush_threshold (length buffer)
      then (spool_flush tf storage buffer false >>= λ s. ok (s, []))
      else ok (storage, buffer)

  -- The pieces of a file: its storage, its size and the total size behind it.
  unfoldable pub read_file :
      ResolvedConfig
      → tf.Storage
      → (buffer : Text) → (size total : ℕ) → List Piece
      → Result (tf.Storage × ℕ × ℕ)
  read_file c storage buffer size total [] =
      spool_flush tf storage buffer true >>= λ s. ok (s, size, total)
  read_file c storage buffer size total (broken message ∷ ps) = err (parse_error message)
  read_file c storage buffer size total (piece t ∷ ps) =
      if ltb c.max_file_size (size + length t)
      then err file_too_large
      else if ltb c.max_body_size (total + length t)
      then err body_too_large
      else (flushed storage (buffer ++ t) >>= λ sb.
          read_file c sb.0 sb.1 (size + length t) (total + length t) ps)

  abbrev pub field_name : Field → Text
  field_name f = unwrap_or f.name []

  abbrev pub with_file : MultipartForm → Field → tf.Storage × ℕ × ℕ → MultipartForm
  with_file form f (storage, size, total) = record form {
    files =
        form.files
        ++ record {
          name = field_name f;
          filename = f.file_name;
          content_type = f.content_type;
          storage = storage;
          size = size;
        }
          ∷ [];
  }

  abbrev pub with_text : MultipartForm → Field → Text → MultipartForm
  with_text form f t = record form { texts = form.texts ++ (field_name f, t) ∷ [] }

  -- One round of the loop: the form and the total size behind it.
  abbrev pub file_field : ResolvedConfig → MultipartForm → ℕ → Field → Result (MultipartForm × ℕ)
  file_field c form total f =
      if leb c.max_files (length form.files)
      then err too_many_files
      else (read_file c (new_spool tf c) [] 0 total f.pieces >>= λ r. ok (with_file form f r, r.2))

  abbrev pub text_field : ResolvedConfig → MultipartForm → ℕ → Field → Result (MultipartForm × ℕ)
  text_field c form total f = gather [] f.pieces >>= λ raw.
      let t = decode f.content_type raw in
      if ltb c.max_body_size (total + length t)
      then err body_too_large
      else if ltb c.max_text_field_size (length t)
      then err field_too_large
      else ok (with_text form f t, total + length t)

  unfoldable pub add_field : ResolvedConfig → MultipartForm → ℕ → Field → Result (MultipartForm × ℕ)
  add_field c form total f = elim f.file_name [
    | some filename ↦ file_field c form total f
    | none ↦ text_field c form total f
  ]

  unfoldable pub parse_parts :
      ResolvedConfig → MultipartForm → (total seen : ℕ) → Parts → Result MultipartForm
  parse_parts c form total seen closed = ok form
  parse_parts c form total seen (unreadable message) = err (parse_error message)
  parse_parts c form total seen (next_field f rest) =
      if ltb c.max_fields (suc seen)
      then err too_many_fields
      else (add_field c form total f >>= λ r. parse_parts c r.0 r.1 (suc seen) rest)

  abbrev pub no_form : MultipartForm
  no_form = record { texts = []; files = [] }

  abbrev pub no_content_type : Error
  no_content_type = bad_request_error (bytes "missing Content-Type for multipart form")

  abbrev pub no_boundary : Error
  no_boundary = bad_request_error (bytes "invalid or missing multipart boundary")

  abbrev pub or_refuse : {A : Type 0} → Error → Option A → Result A
  or_refuse e none = err e
  or_refuse e (some a) = ok a

  -- `MultipartForm::parse`, of a body that is read by its boundary.
  unfoldable pub parse :
      (h : Http)
      → (parse_boundary : Text → Option Text) → h.Headers
      → (taken : Result (Text → Parts)) → UploadConfig
      → Result MultipartForm
  parse h parse_boundary headers taken config =
      or_refuse no_content_type (and_then (h.get (bytes "content-type") headers) h.to_str) >>= λ v.
      or_refuse no_boundary (parse_boundary v) >>= λ boundary.
      taken >>= λ parts. parse_parts (resolve config) no_form 0 0 (parts boundary)

  -- `__parse_multipart`: the configuration of the route over that of the application, if it has one.
  abbrev pub parse_multipart :
      (h : Http)
      → (Text → Option Text)
      → h.Headers
      → Result (Text → Parts)
      → Option UploadConfig
      → UploadConfig
      → Result MultipartForm
  parse_multipart h parse_boundary headers taken app_default route =
      parse h parse_boundary headers taken (merge route (unwrap_or app_default new_config))
