-- ===== src/Multipart/Rules.antt =====
-- crates/tork-core/src/multipart.rs: the rules that a form model has for a file. A content type is
-- the text of its essence; what `infer` finds in a file's bytes is the parameter `sniff`.
use tork_framework.Base.{
  ℕ, Bool, false, not, Option, none, some, List, Text, bytes, any, text_eq, lower, ltb, is_empty,
  if◌then◌else◌,
}
use tork_framework.Error.{
  Result, ok, err, Error, payload_too_large_error, unprocessable_error, with_code,
}

pub record FileRule : Type 0 where
  pub max_size : Option ℕ
  pub content_types : List Text
  pub sniff : Bool

abbrev pub file_too_large : Error
file_too_large =
    with_code (bytes "FILE_TOO_LARGE")
      (payload_too_large_error (bytes "uploaded file is too large"))

abbrev pub unsupported : Text → Error
unsupported message = with_code (bytes "UNSUPPORTED_MEDIA_TYPE") (unprocessable_error message)

unfoldable pub check_size : ℕ → FileRule → Result (Unit {0})
check_size size rule = elim rule.max_size [
  | none ↦ ok tt
  | some limit ↦ if ltb limit size then err file_too_large else ok tt
]

abbrev pub is_allowed : FileRule → Text → Bool
is_allowed rule type = any (λ allowed. text_eq (lower allowed) (lower type)) rule.content_types

abbrev pub is_declared : FileRule → Option Text → Bool
is_declared rule none = false
is_declared rule (some type) = is_allowed rule type

unfoldable pub check_declared_type : Option Text → FileRule → Result (Unit {0})
check_declared_type declared rule =
    if is_empty rule.content_types
    then ok tt
    else if not (is_declared rule declared)
    then err (unsupported (bytes "unsupported file content type"))
    else ok tt

module _ (infer : Text → Option Text) where
  unfoldable pub check_sniffed_type : Text → FileRule → Result (Unit {0})
  check_sniffed_type content rule =
      if is_empty rule.content_types then ok tt else elim (infer content) [
        | none ↦ ok tt
        | some detected ↦
            if not (is_allowed rule detected)
            then err (unsupported (bytes "file content does not match the declared type"))
            else ok tt
      ]
