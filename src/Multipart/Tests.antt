-- ===== src/Multipart/Tests.antt =====
-- Tests of uploads, and their theorems at concrete inputs, over temporary files that are texts.
use tork_framework.Base.{
  ℕ, ◌≡◌, refl, sym, ap, ◌∙◌, ◌++◌, false, Option, none, some, [], ◌∷◌, map, Text, bytes, text_eq,
  arith, split_on, starts_with, ends_with,
}
use tork_framework.Error.{ok, err}
use tork_framework.Multipart.Config.{
  ResolvedConfig, new_config, set_max_files, set_max_body_size, merge, resolve,
}
use tork_framework.Multipart.Spool.{done, TempFiles, spool_flush}
use tork_framework.Multipart.Paths.{
  normal, components, body, join, build_safe_target, validate_save_path,
  ensure_target_is_not_symlink, name_refused,
}
use tork_framework.Multipart.Paths.Containment.{build_safe_target-components}
use tork_framework.Multipart.Paths.Descent.{walk, validate_save_path-walk}
use tork_framework.Multipart.Form.{
  piece, Field, Parts, closed, next_field, gather, MultipartForm, read_file, add_field, parse_parts,
  no_form,
}
use tork_framework.Multipart.Form.Limits.{texts_sent, files_sent, stored, IsWithin}
use tork_framework.Multipart.Form.Parsing.{parse_parts-sent}
use tork_framework.Multipart.Form.Acceptance.{NeverFails, Fits, parse_parts-Fits}
use tork_framework.Multipart.Form.Taking.{take_form_values, take_values, parse_each}

done-injective : {A : Type 0} {a b : A} → done a ≡ done b → a ≡ b
done-injective e = cc

abbrev in_memory : TempFiles
in_memory = record {
  Storage = Text;
  spooled = λ n dir. [];
  write_all = λ t s. done (s ++ t);
  seek_start = λ s. done s;
  read_to_end = λ s. done (s, s);
  read = λ n s. done (s, s);
  contents = λ s. s;
  AtEnd = λ s. Unit;
  spooled_lem = λ n dir. (tt, refl);
  write_all_lem = λ t s s' a e. (tt, sym (done-injective e));
  seek_start_lem = λ s s' e. sym (done-injective e);
  read_to_end_lem =
      λ s s' s'' t e q. sym (ap (λ p. p.1) (done-injective q)) ∙ sym (done-injective e);
}

abbrev plain : Option Text → Text → Text
plain type t = t

abbrev title : Field
title = record {
  name = some (bytes "title");
  file_name = none;
  content_type = none;
  pieces = piece (bytes "hel") ∷ piece (bytes "lo") ∷ [];
}

abbrev avatar : Field
avatar = record {
  name = some (bytes "avatar");
  file_name = some (bytes "a.png");
  content_type = some (bytes "image/png");
  pieces = piece (bytes "ab") ∷ piece (bytes "c") ∷ [];
}

abbrev upload : Parts
upload = next_field title (next_field avatar closed)

abbrev limits : ResolvedConfig
limits = record {
  max_body_size = 9;
  max_file_size = 3;
  max_text_field_size = 5;
  memory_threshold = 1;
  max_files = 1;
  max_fields = 2;
  temp_dir = none;
}

abbrev form : MultipartForm in_memory plain
form = record {
  texts = (bytes "title", bytes "hello") ∷ [];
  files =
      record {
        name = bytes "avatar";
        filename = some (bytes "a.png");
        content_type = some (bytes "image/png");
        storage = bytes "abc";
        size = 3;
      }
      ∷ [];
}

multipart_model : Unit {0}
unfolding gather read_file add_field parse_parts spool_flush texts_sent files_sent Fits components
    body join build_safe_target validate_save_path ensure_target_is_not_symlink split_on starts_with
    ends_with text_eq merge resolve take_form_values take_values parse_each
multipart_model = tt

form_test : parse_parts in_memory plain limits (no_form in_memory plain) 0 0 upload ≡ ok form
unfolding multipart_model
form_test = refl

merge_test :
    (resolve (merge (set_max_files 2 new_config) (set_max_body_size 7 new_config))).max_files ≡ 2
unfolding multipart_model
merge_test = refl

parse_parts-sent_example :
    (form.texts ≡ texts_sent in_memory plain upload)
    × (map (stored in_memory plain) form.files ≡ files_sent in_memory plain upload)
    × ((total : ℕ) × (seen : ℕ) × IsWithin in_memory plain limits form total seen)
parse_parts-sent_example = parse_parts-sent in_memory plain limits upload form form_test

in_memory-NeverFails : NeverFails in_memory
in_memory-NeverFails = record { write = λ t s. (s ++ t, refl); seek = λ s. (s, refl) }

upload-Fits : Fits in_memory plain in_memory-NeverFails limits 0 0 0 upload
unfolding multipart_model
upload-Fits = (
  omega arith,
  tt,
  omega arith,
  omega arith,
  (omega arith, tt, (omega arith, omega arith), omega arith, tt),
)

parse_parts-Fits_example :
    (out : MultipartForm in_memory plain) × (parse_parts in_memory plain limits
        (no_form in_memory plain)
        0
        0
        upload
      ≡ ok out)
parse_parts-Fits_example =
    parse_parts-Fits in_memory plain in_memory-NeverFails limits (no_form in_memory plain) 0 0
      upload upload-Fits

path_tests :
    (build_safe_target (bytes "/srv/files") (bytes "a.png") ≡ ok (bytes "/srv/files/a.png"))
    × (build_safe_target (bytes "/srv/files") (bytes "../a.png") ≡ err name_refused)
    × (build_safe_target (bytes "/srv/files") (bytes "/etc/passwd") ≡ err name_refused)
    × (validate_save_path (λ p. false) (bytes "uploads//./a.png") ≡ ok tt)
unfolding multipart_model
path_tests = (refl, refl, refl, refl)

build_safe_target-components_example :
    (c : Text) × (components (bytes "/srv/files/a.png")
      ≡ components (bytes "/srv/files") ++ normal c ∷ [])
build_safe_target-components_example =
    build_safe_target-components (bytes "/srv/files") (bytes "a.png") (bytes "/srv/files/a.png")
      path_tests.0

validate_save_path-walk_example :
    (false ≡ false) × ((n : ℕ) × (walk 0 (components (bytes "uploads//./a.png")) ≡ some n))
validate_save_path-walk_example =
    validate_save_path-walk (λ p. false) (bytes "uploads//./a.png") path_tests.3
