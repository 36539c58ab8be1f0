-- ===== src/Multipart/Paths.antt =====
-- crates/tork-core/src/multipart.rs: where an upload may be saved. `Component` and `components` are
-- those of std::path on Unix; whether a path names a symbolic link is the parameter `is_symlink`.
pub mod Containment
pub mod Descent
use tork_framework.Base.{
  ℕ, ◌++◌, Bool, true, false, ◌||◌, List, [], ◌∷◌, Text, bytes, any, text_eq, is_empty, split_on,
  starts_with, ends_with, if◌then◌else◌, Option, none, some,
}
use tork_framework.Error.{Result, ok, err, ◌>>=◌, Error, bad_request_error, with_code}

pub data Component : Type 0 where
  root_dir cur_dir parent_dir : Component
  normal : Text → Component

abbrev pub separator : ℕ
separator = b'/'

abbrev pub add_segment : Text → List Component → List Component
add_segment s cs =
    if is_empty s || text_eq s (bytes ".")
    then cs
    else (if text_eq s (bytes "..") then parent_dir else normal s) ∷ cs

-- The components of a path's segments behind its start.
unfoldable pub body : List Text → List Component
body [] = []
body (s ∷ ss) = add_segment s (body ss)

-- A dot is a component only where a relative path starts.
abbrev pub relative : List Text → List Component
relative [] = []
relative (s ∷ ss) = if text_eq s (bytes ".") then cur_dir ∷ body ss else body (s ∷ ss)

abbrev pub is_absolute : Text → Bool
is_absolute p = starts_with (separator ∷ []) p

unfoldable pub components : Text → List Component
components p =
    if is_absolute p
    then root_dir ∷ body (split_on separator p)
    else relative (split_on separator p)

-- `Path::join`
unfoldable pub join : Text → Text → Text
join dir name =
    if is_absolute name
    then name
    else if is_empty dir || ends_with (separator ∷ []) dir
    then dir ++ name
    else dir ++ separator ∷ name

abbrev pub name_refused : Error
name_refused =
    with_code (bytes "UPLOAD_PATH_INVALID")
      (bad_request_error (bytes "upload destination filename is not allowed"))

abbrev pub path_refused : Text → Error
path_refused code =
    with_code code (bad_request_error (bytes "upload destination path is not allowed"))

abbrev pub target : Text → Text → List Component → Result Text
target dir file_name (normal c ∷ []) = ok (join dir file_name)
target dir file_name cs = err name_refused

unfoldable pub build_safe_target : Text → Text → Result Text
build_safe_target dir file_name = target dir file_name (components file_name)

abbrev pub is_parent_dir : Component → Bool
is_parent_dir parent_dir = true
is_parent_dir c = false

module _ (is_symlink : Text → Bool) where
  unfoldable pub ensure_target_is_not_symlink : Text → Result (Unit {0})
  ensure_target_is_not_symlink path =
      if is_symlink path then err (path_refused (bytes "UPLOAD_PATH_SYMLINK")) else ok tt

  unfoldable pub validate_save_path : Text → Result (Unit {0})
  validate_save_path path =
      if is_absolute path
      then err (path_refused (bytes "UPLOAD_PATH_INVALID"))
      else if any is_parent_dir (components path)
      then err (path_refused (bytes "UPLOAD_PATH_INVALID"))
      else ensure_target_is_not_symlink path
