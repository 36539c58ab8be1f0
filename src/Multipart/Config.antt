-- ===== src/Multipart/Config.antt =====
-- crates/tork-core/src/multipart.rs: `UploadConfig` and its defaults. A path is its text.
use tork_framework.Base.{ℕ, ◌*◌, Option, none, some, Text, or_else, unwrap_or}

abbrev pub default_max_body_size : ℕ
default_max_body_size = 16 * 1024 * 1024

abbrev pub default_max_file_size : ℕ
default_max_file_size = 8 * 1024 * 1024

abbrev pub default_max_text_field_size : ℕ
default_max_text_field_size = 1024 * 1024

abbrev pub default_memory_threshold : ℕ
default_memory_threshold = 1024 * 1024

abbrev pub default_max_files : ℕ
default_max_files = 32

abbrev pub default_max_fields : ℕ
default_max_fields = 1000

abbrev pub spool_flush_threshold : ℕ
spool_flush_threshold = 256 * 1024

pub record UploadConfig : Type 0 where
  pub max_body_size : Option ℕ
  pub max_file_size : Option ℕ
  pub max_text_field_size : Option ℕ
  pub memory_threshold : Option ℕ
  pub max_files : Option ℕ
  pub max_fields : Option ℕ
  pub temp_dir : Option Text

abbrev pub new_config : UploadConfig
new_config = record {
  max_body_size = none;
  max_file_size = none;
  max_text_field_size = none;
  memory_threshold = none;
  max_files = none;
  max_fields = none;
  temp_dir = none;
}

abbrev pub set_max_body_size : ℕ → UploadConfig → UploadConfig
set_max_body_size n c = record c { max_body_size = some n }

abbrev pub set_max_body_size_mb : ℕ → UploadConfig → UploadConfig
set_max_body_size_mb mb c = set_max_body_size (mb * 1024 * 1024) c

abbrev pub set_max_file_size : ℕ → UploadConfig → UploadConfig
set_max_file_size n c = record c { max_file_size = some n }

abbrev pub set_max_file_size_mb : ℕ → UploadConfig → UploadConfig
set_max_file_size_mb mb c = set_max_file_size (mb * 1024 * 1024) c

abbrev pub set_max_text_field_size : ℕ → UploadConfig → UploadConfig
set_max_text_field_size n c = record c { max_text_field_size = some n }

abbrev pub set_max_text_field_size_kb : ℕ → UploadConfig → UploadConfig
set_max_text_field_size_kb kb c = set_max_text_field_size (kb * 1024) c

abbrev pub set_memory_threshold : ℕ → UploadConfig → UploadConfig
set_memory_threshold n c = record c { memory_threshold = some n }

abbrev pub set_max_files : ℕ → UploadConfig → UploadConfig
set_max_files n c = record c { max_files = some n }

abbrev pub set_max_fields : ℕ → UploadConfig → UploadConfig
set_max_fields n c = record c { max_fields = some n }

abbrev pub set_temp_dir : Text → UploadConfig → UploadConfig
set_temp_dir dir c = record c { temp_dir = some dir }

-- A route's configuration over that of the application.
unfoldable pub merge : UploadConfig → UploadConfig → UploadConfig
merge c base = record {
  max_body_size = or_else c.max_body_size base.max_body_size;
  max_file_size = or_else c.max_file_size base.max_file_size;
  max_text_field_size = or_else c.max_text_field_size base.max_text_field_size;
  memory_threshold = or_else c.memory_threshold base.memory_threshold;
  max_files = or_else c.max_files base.max_files;
  max_fields = or_else c.max_fields base.max_fields;
  temp_dir = or_else c.temp_dir base.temp_dir;
}

pub record ResolvedConfig : Type 0 where
  pub max_body_size : ℕ
  pub max_file_size : ℕ
  pub max_text_field_size : ℕ
  pub memory_threshold : ℕ
  pub max_files : ℕ
  pub max_fields : ℕ
  pub temp_dir : Option Text

unfoldable pub resolve : UploadConfig → ResolvedConfig
resolve c = record {
  max_body_size = unwrap_or c.max_body_size default_max_body_size;
  max_file_size = unwrap_or c.max_file_size default_max_file_size;
  max_text_field_size = unwrap_or c.max_text_field_size default_max_text_field_size;
  memory_threshold = unwrap_or c.memory_threshold default_memory_threshold;
  max_files = unwrap_or c.max_files default_max_files;
  max_fields = unwrap_or c.max_fields default_max_fields;
  temp_dir = c.temp_dir;
}
