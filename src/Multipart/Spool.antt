-- ===== src/Multipart/Spool.antt =====
-- crates/tork-core/src/multipart.rs: the temporary files of uploads. The crate `tempfile` is the
-- parameter `TempFiles`; `contents` is what a file holds, which only the laws speak of. That a
-- blocking task panics or is cancelled is left out.
use tork_framework.Base.{
  ℕ, ◌≡◌, ◌++◌, Bool, Option, none, some, [], Text, bytes, is_empty, if◌then◌else◌, unwrap_or,
  length,
}
use tork_framework.Error.{Result, ok, err, ◌>>=◌, Error, internal_error}
use tork_framework.Multipart.Config.{ResolvedConfig}
use tork_framework.Multipart.Rules.{FileRule, check_size, check_declared_type, check_sniffed_type}

-- The outcome of an operation on files, with the message of a failure.
pub data Io (A : Type 0) : Type 0 where
  done : A → Io A
  failed : Text → Io A

pub record TempFiles : Type 1 where
  pub Storage : Type 0
  pub spooled : (threshold : ℕ) → Option Text → Storage
  pub write_all : Text → Storage → Io Storage
  pub seek_start : Storage → Io Storage
  pub read_to_end : Storage → Io (Storage × Text)
  pub read : ℕ → Storage → Io (Storage × Text)
  pub contents : Storage → Text
  pub AtEnd : Storage → Type 0
  pub spooled_lem :
      (n : ℕ) (dir : Option Text) → AtEnd (spooled n dir) × (contents (spooled n dir) ≡ [])
  pub write_all_lem :
      (t : Text) (s s' : Storage)
      → AtEnd s
      → write_all t s ≡ done s'
      → AtEnd s' × (contents s' ≡ contents s ++ t)
  pub seek_start_lem : (s s' : Storage) → seek_start s ≡ done s' → contents s' ≡ contents s
  pub read_to_end_lem :
      (s s' s'' : Storage) (t : Text)
      → seek_start s ≡ done s'
      → read_to_end s' ≡ done (s'', t)
      → t ≡ contents s

abbrev pub spool_failed : Text → Error
spool_failed message = internal_error (bytes "spool write failed: " ++ message)

abbrev pub io_failed : Text → Error
io_failed message = internal_error (bytes "upload IO error: " ++ message)

abbrev pub or_error : {A : Type 0} → (Text → Error) → Io A → Result A
or_error to_error (done a) = ok a
or_error to_error (failed message) = err (to_error message)

abbrev pub and_done : {A B : Type 0} → Io A → (A → Io B) → Io B
and_done (done a) next = next a
and_done (failed message) next = failed message

module _ (tf : TempFiles) where
  abbrev pub new_spool : ResolvedConfig → tf.Storage
  new_spool c = tf.spooled c.memory_threshold c.temp_dir

  unfoldable pub spool_flush : tf.Storage → Text → Bool → Result tf.Storage
  spool_flush storage content rewind = or_error spool_failed (
      and_done (if is_empty content then done storage else tf.write_all content storage)
        (λ s. if rewind then tf.seek_start s else done s))

  pub record FileBytes : Type 0 where
    pub content : Text
    pub filename : Option Text
    pub content_type : Option Text

  -- The storage is gone while an operation runs, and stays so if it fails.
  pub record UploadFile : Type 0 where
    pub filename : Option Text
    pub content_type : Option Text
    pub size : ℕ
    pub storage : Option tf.Storage

  abbrev pub consumed : Error
  consumed = internal_error (bytes "upload file storage was already consumed")

  abbrev pub put_back : {R : Type 0} → UploadFile → Io (tf.Storage × R) → UploadFile × Result R
  put_back file (done (s, r)) = (record file { storage = some s }, ok r)
  put_back file (failed message) = (record file { storage = none }, err (io_failed message))

  abbrev pub on_storage :
      {R : Type 0}
      → UploadFile
      → (tf.Storage → Io (tf.Storage × R))
      → Option tf.Storage
      → UploadFile × Result R
  on_storage file op none = (file, err consumed)
  on_storage file op (some s) = put_back file (op s)

  unfoldable pub with_storage :
      {R : Type 0} → UploadFile → (tf.Storage → Io (tf.Storage × R)) → UploadFile × Result R
  with_storage file op = on_storage file op file.storage

  abbrev pub read_whole : tf.Storage → Io (tf.Storage × Text)
  read_whole s = and_done (tf.seek_start s) tf.read_to_end

  abbrev pub read : UploadFile → UploadFile × Result Text
  read file = with_storage file read_whole

  abbrev pub some_chunk : tf.Storage × Text → Io (tf.Storage × Option Text)
  some_chunk (s, t) = done (s, if is_empty t then none else some t)

  abbrev pub read_chunk : ℕ → UploadFile → UploadFile × Result (Option Text)
  read_chunk n file = with_storage file (λ s. and_done (tf.read n s) some_chunk)

  abbrev pub rewound : tf.Storage → Io (tf.Storage × Unit {0})
  rewound s = and_done (tf.seek_start s) (λ s'. done (s', tt))

  abbrev pub seek_start : UploadFile → UploadFile × Result (Unit {0})
  seek_start file = with_storage file rewound

  module _ (infer : Text → Option Text) where
    unfoldable pub validate_file_bytes : FileBytes → FileRule → Result (Unit {0})
    validate_file_bytes file rule = check_size (length file.content) rule >>= λ _.
        check_declared_type file.content_type rule >>= λ _.
        if rule.sniff then check_sniffed_type infer file.content rule else ok tt

    -- A step of which the error ends the validation, with the file as it is then.
    abbrev pub and_ok :
        {A B : Type 0}
        → UploadFile × Result A
        → (UploadFile → A → UploadFile × Result B)
        → UploadFile × Result B
    and_ok (file, ok a) next = next file a
    and_ok (file, err e) next = (file, err e)

    unfoldable pub validate_upload : UploadFile → FileRule → UploadFile × Result (Unit {0})
    validate_upload file rule =
        and_ok (file, check_size file.size rule)
          λ _ _.
            and_ok (file, check_declared_type file.content_type rule)
              λ _ _.
                if rule.sniff
                then and_ok (seek_start file) (λ f _. and_ok (read_chunk 512 f) (λ g prefix.
                  and_ok (seek_start g)
                    (λ k _. (k, check_sniffed_type infer (unwrap_or prefix []) rule))))
                else (file, ok tt)
