-- ===== src/Multipart/Form/Limits.antt =====
-- What a parsed form holds, against the parts of the body and the limits of the configuration.
use tork_framework.Base.{
  ℕ, suc, ◌+◌, ◌≤◌, ◌≡◌, refl, ap, ◌++◌, Option, none, some, List, [], ◌∷◌, map, Text, length,
  length-append, All, All-append, arith,
}
use tork_framework.Multipart.Config.{ResolvedConfig}
use tork_framework.Multipart.Spool.{TempFiles}
use tork_framework.Multipart.Form.{
  Field, Parts, closed, unreadable, next_field, FilePart, MultipartForm, field_name, with_file,
  with_text,
}
use tork_framework.Multipart.Form.Reading.{data_of, FileRead}

pub map-append :
    {A B : Type 0} (f : A → B) (xs ys : List A) → map f (xs ++ ys) ≡ map f xs ++ map f ys
map-append f [] ys = refl
map-append f (x ∷ xs) ys = ap (λ zs. f x ∷ zs) (map-append f xs ys)

-- The sum of the sizes of elements.
abbrev pub total_of {ℓ} : {A : Type ℓ} → (A → ℕ) → List A → ℕ
total_of size [] = 0
total_of size (x ∷ xs) = size x + total_of size xs

total_of-append :
    {A : Type 0} (size : A → ℕ) (xs ys : List A)
    → total_of size (xs ++ ys) ≡ total_of size xs + total_of size ys
total_of-append size [] ys = omega arith
total_of-append size (x ∷ xs) ys = omega (arith, total_of-append size xs ys)

-- A file as the body sends it: its name, the client's name for it, its type and its bytes.
abbrev pub SentFile : Type 0
SentFile = Text × Option Text × Option Text × Text

module _ (tf : TempFiles) (decode : Option Text → Text → Text) where
  abbrev pub text_of : Field → Text × Text
  text_of f = (field_name tf decode f, decode f.content_type (data_of f.pieces))

  abbrev pub file_of : Field → SentFile
  file_of f = (field_name tf decode f, f.file_name, f.content_type, data_of f.pieces)

  abbrev pub when_text : Field → Option Text → List (Text × Text)
  when_text f none = text_of f ∷ []
  when_text f (some filename) = []

  abbrev pub when_file : Field → Option Text → List SentFile
  when_file f none = []
  when_file f (some filename) = file_of f ∷ []

  -- The texts and the files of the parts that a body has, in order.
  unfoldable pub texts_sent : Parts → List (Text × Text)
  texts_sent (next_field f rest) = when_text f f.file_name ++ texts_sent rest
  texts_sent closed = []
  texts_sent (unreadable message) = []

  unfoldable pub files_sent : Parts → List SentFile
  files_sent (next_field f rest) = when_file f f.file_name ++ files_sent rest
  files_sent closed = []
  files_sent (unreadable message) = []

  -- A file as it lies on disk.
  abbrev pub stored : FilePart tf decode → SentFile
  stored p = (p.name, p.filename, p.content_type, tf.contents p.storage)

  abbrev pub IsFileWithin : ResolvedConfig → FilePart tf decode → Type 0
  IsFileWithin c p = (p.size ≤ c.max_file_size) × (p.size ≡ length (tf.contents p.storage))

  abbrev pub IsTextWithin : ResolvedConfig → Text × Text → Type 0
  IsTextWithin c t = length t.1 ≤ c.max_text_field_size

  -- A form within its limits, of which the sizes add up to `total` and the parts to `seen`.
  pub record IsWithin (c : ResolvedConfig) (form : MultipartForm tf decode) (total seen : ℕ)
      : Type 0 where
    pub count : length form.texts + length form.files ≡ seen
    pub few : seen ≤ c.max_fields
    pub few_files : length form.files ≤ c.max_files
    pub each_file : All (IsFileWithin c) form.files
    pub each_text : All (IsTextWithin c) form.texts
    pub sum : total_of (λ t. length t.1) form.texts + total_of (λ p. p.size) form.files ≡ total
    pub fits : total ≤ c.max_body_size

  -- What one part, which is a file if `o` names one, adds to a form.
  pub record Added (c : ResolvedConfig) (form : MultipartForm tf decode) (seen : ℕ) (f : Field)
      (o : Option Text) (out : MultipartForm tf decode × ℕ) : Type 0 where
    pub texts : out.0.texts ≡ form.texts ++ when_text f o
    pub files : map stored out.0.files ≡ map stored form.files ++ when_file f o
    pub within : IsWithin c out.0 out.1 (suc seen)

  pub with_file-IsWithin :
      (c : ResolvedConfig) (form : MultipartForm tf decode) (total seen : ℕ) (f : Field)
      (r : tf.Storage × ℕ × ℕ)
      → suc seen ≤ c.max_fields
      → suc (length form.files) ≤ c.max_files
      → IsWithin c form total seen
      → FileRead tf decode c [] total f.pieces r
      → IsWithin c (with_file tf decode form f r) r.2 (suc seen)
  with_file-IsWithin c form total seen f r few few_files w got = record {
    count = omega (arith, w.count, length-append form.files (_ ∷ []));
    few = few;
    few_files = omega (arith, few_files, length-append form.files (_ ∷ []));
    each_file = All-append (IsFileWithin c) form.files _ w.each_file ((got.small, got.size), tt);
    each_text = w.each_text;
    sum = omega (arith, w.sum, got.counted, total_of-append (λ p. p.size) form.files (_ ∷ []));
    fits = got.fits;
  }

  pub with_text-IsWithin :
      (c : ResolvedConfig) (form : MultipartForm tf decode) (total seen : ℕ) (f : Field) (t : Text)
      → suc seen ≤ c.max_fields
      → IsWithin c form total seen
      → total + length t ≤ c.max_body_size
      → length t ≤ c.max_text_field_size
      → IsWithin c (with_text tf decode form f t) (total + length t) (suc seen)
  with_text-IsWithin c form total seen f t few w fits small = record {
    count = omega (arith, w.count, length-append form.texts ((field_name tf decode f, t) ∷ []));
    few = few;
    few_files = w.few_files;
    each_file = w.each_file;
    each_text = All-append (IsTextWithin c) form.texts _ w.each_text (small, tt);
    sum = omega (
      arith,
      w.sum,
      total_of-append (λ x. length x.1) form.texts ((field_name tf decode f, t) ∷ []),
    );
    fits = fits;
  }
