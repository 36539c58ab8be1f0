-- ===== src/Multipart/Form/Acceptance.antt =====
-- Bodies that are accepted.
use tork_framework.Base.{
  ℕ, suc, ◌+◌, ◌≤◌, ◌<◌, ◌≡◌, refl, sym, ap, ◌∙◌, ◌++◌, Bool, true, false, Option, none, some, List,
  [], ◌∷◌, Text, length, length-append, append-nil, append_assoc, ltb, leb, arith, if◌then◌else◌,
}
use tork_framework.Error.{Result, ok, ◌>>=◌}
use tork_framework.Multipart.Config.{ResolvedConfig, spool_flush_threshold}
use tork_framework.Multipart.Spool.{done, TempFiles, new_spool, spool_flush}
use tork_framework.Multipart.Form.{
  Piece, piece, broken, Field, Parts, closed, unreadable, next_field, gather, MultipartForm,
  flushed, read_file, with_file, with_text, file_field, text_field, add_field, parse_parts,
}
use tork_framework.Multipart.Form.Reading.{data_of}
use tork_framework.Multipart.Form.Parsing.{new_spool-FileRead}

-- No piece is an error.
abbrev pub IsReadable : List Piece → Type 0
IsReadable [] = Unit
IsReadable (piece t ∷ ps) = IsReadable ps
IsReadable (broken message ∷ ps) = ⊥

-- The disk takes all that is written.
pub record NeverFails (tf : TempFiles) : Type 0 where
  pub write : (t : Text) (s : tf.Storage) → (s' : tf.Storage) × (tf.write_all t s ≡ done s')
  pub seek : (s : tf.Storage) → (s' : tf.Storage) × (tf.seek_start s ≡ done s')

le-ltb : (a b : ℕ) → a ≤ b → ltb b a ≡ false
le-ltb a b h = ground arith

lt-leb : (a b : ℕ) → a < b → leb b a ≡ false
lt-leb a b h = ground arith

gather-accepts : (t : Text) (ps : List Piece) → IsReadable ps → gather t ps ≡ ok (t ++ data_of ps)
unfolding gather
gather-accepts t [] r = ap ok (sym (append-nil t))
gather-accepts t (piece u ∷ ps) r =
    gather-accepts (t ++ u) ps r ∙ ap ok (append_assoc t u (data_of ps))
gather-accepts t (broken message ∷ ps) r = elim r [ ]

module _ (tf : TempFiles) (n : NeverFails tf) where
  spool_flush-accepts :
      (s : tf.Storage) (t : Text) (rewind : Bool)
      → (s' : tf.Storage) × (spool_flush tf s t rewind ≡ ok s')
  unfolding spool_flush
  spool_flush-accepts s [] false = (s, refl)
  spool_flush-accepts s [] true = let (v, e) = n.seek s in (v, rw e refl)
  spool_flush-accepts s (c ∷ t) false = let (v, e) = n.write (c ∷ t) s in (v, rw e refl)
  spool_flush-accepts s (c ∷ t) true =
      let (v, e) = n.write (c ∷ t) s in let (u, q) = n.seek v in (u, rw (e, q) refl)

module _ (tf : TempFiles) (decode : Option Text → Text → Text) (n : NeverFails tf) where
  flushed-accepts :
      (s : tf.Storage) (buffer : Text)
      → (sb : tf.Storage × Text) × (flushed tf decode s buffer ≡ ok sb)
  flushed-accepts s buffer = go (leb spool_flush_threshold (length buffer))
    where
      go :
          (b : Bool)
          → (sb : tf.Storage × Text) × ((if b
                then (spool_flush tf s buffer false >>= λ v. ok (v, []))
                else ok (s, buffer))
              ≡ ok sb)
      go true = let (v, e) = spool_flush-accepts tf n s buffer false in ((v, []), rw e refl)
      go false = ((s, buffer), refl)

  read_file-accepts :
      (c : ResolvedConfig) (s : tf.Storage) (buffer : Text) (size total : ℕ) (ps : List Piece)
      → IsReadable ps
      → size + length (data_of ps) ≤ c.max_file_size
      → total + length (data_of ps) ≤ c.max_body_size
      → (out : tf.Storage × ℕ × ℕ) × (read_file tf decode c s buffer size total ps ≡ ok out)
  unfolding read_file
  read_file-accepts c s buffer size total [] r small fits =
      let (v, e) = spool_flush-accepts tf n s buffer true in ((v, size, total), rw e refl)
  read_file-accepts c s buffer size total (broken m ∷ ps) r small fits = elim r [ ]
  read_file-accepts c s buffer size total (piece t ∷ ps) r small fits =
      let (sb, e) = flushed-accepts s (buffer ++ t) in
      let more = length-append t (data_of ps) in
      let (out, q) =
        read_file-accepts c sb.0 sb.1 (size + length t) (total + length t) ps r
          (omega (arith, small, more)) (omega (arith, fits, more)) in
      (
        out,
        rw
            (
              le-ltb (size + length t) c.max_file_size (omega (arith, small, more)),
              le-ltb (total + length t) c.max_body_size (omega (arith, fits, more)),
              e,
            )
            q,
      )

  -- The size of a part, which is a file if `o` names one, and the number of files with it.
  abbrev pub size_of : Field → Option Text → ℕ
  size_of f none = length (decode f.content_type (data_of f.pieces))
  size_of f (some filename) = length (data_of f.pieces)

  abbrev pub files_after : Option Text → ℕ → ℕ
  files_after none nf = nf
  files_after (some filename) nf = suc nf

  abbrev pub FieldFits : ResolvedConfig → ℕ → Field → Option Text → Type 0
  FieldFits c nf f none = size_of f none ≤ c.max_text_field_size
  FieldFits c nf f (some filename) =
      (suc nf ≤ c.max_files) × (size_of f (some filename) ≤ c.max_file_size)

  -- The parts keep every limit, behind `nf` files, `total` bytes and `seen` parts.
  unfoldable pub Fits : ResolvedConfig → (nf total seen : ℕ) → Parts → Type 0
  Fits c nf total seen closed = Unit
  Fits c nf total seen (unreadable message) = ⊥
  Fits c nf total seen (next_field f rest) =
      (suc seen ≤ c.max_fields)
      × IsReadable f.pieces
      × FieldFits c nf f f.file_name
      × (total + size_of f f.file_name ≤ c.max_body_size)
      × Fits c (files_after f.file_name nf) (total + size_of f f.file_name) (suc seen) rest

  -- A part that is taken in.
  abbrev Takes :
      ResolvedConfig
      → MultipartForm tf decode
      → ℕ
      → Field
      → Option Text
      → Result (MultipartForm tf decode × ℕ)
      → Type 0
  Takes c form total f o r =
      (out : MultipartForm tf decode × ℕ) × (r ≡ ok out)
      × (out.1 ≡ total + size_of f o)
      × (length out.0.files ≡ files_after o (length form.files))

  file_field-accepts :
      (c : ResolvedConfig) (form : MultipartForm tf decode) (total : ℕ) (f : Field)
      (filename : Text)
      → IsReadable f.pieces
      → FieldFits c (length form.files) f (some filename)
      → total + size_of f (some filename) ≤ c.max_body_size
      → Takes c form total f (some filename) (file_field tf decode c form total f)
  file_field-accepts c form total f filename r (room, small) fits =
      let (out, e) =
        read_file-accepts c (new_spool tf c) [] 0 total f.pieces r (omega (arith, small)) fits in
      let got = new_spool-FileRead tf decode c total f.pieces out (omega (arith, fits)) e in
      (
        (with_file tf decode form f out, out.2),
        rw (lt-leb (length form.files) c.max_files room, e) refl,
        omega (arith, got.counted, got.size, ap length got.content),
        omega (arith, length-append form.files (_ ∷ [])),
      )

  text_field-accepts :
      (c : ResolvedConfig) (form : MultipartForm tf decode) (total : ℕ) (f : Field)
      → IsReadable f.pieces
      → FieldFits c (length form.files) f none
      → total + size_of f none ≤ c.max_body_size
      → Takes c form total f none (text_field tf decode c form total f)
  text_field-accepts c form total f r small fits =
      let t = decode f.content_type (data_of f.pieces) in
      (
        (with_text tf decode form f t, total + length t),
        rw
            (
              gather-accepts [] f.pieces r,
              le-ltb (total + length t) c.max_body_size fits,
              le-ltb (length t) c.max_text_field_size small,
            )
            refl,
        refl,
        refl,
      )

  add_field-accepts :
      (c : ResolvedConfig) (form : MultipartForm tf decode) (total : ℕ) (f : Field)
      → IsReadable f.pieces
      → FieldFits c (length form.files) f f.file_name
      → total + size_of f f.file_name ≤ c.max_body_size
      → Takes c form total f f.file_name (add_field tf decode c form total f)
  unfolding add_field
  add_field-accepts c form total f r small fits = go f.file_name small fits
    where
      go :
          (o : Option Text)
          → FieldFits c (length form.files) f o
          → total + size_of f o ≤ c.max_body_size
          → Takes c form total f o (elim o as (λ x. Result (MultipartForm tf decode × ℕ)) [
            | some filename ↦ file_field tf decode c form total f
            | none ↦ text_field tf decode c form total f
          ])
      go (some filename) s t = file_field-accepts c form total f filename r s t
      go none s t = text_field-accepts c form total f r s t

  -- If the disk takes all that is written, then a body of which each piece can be read, and whose
  -- parts keep every limit, behind a form and the sizes so far, is parsed to its end.
  pub parse_parts-Fits :
      (c : ResolvedConfig) (form : MultipartForm tf decode) (total seen : ℕ) (parts : Parts)
      → Fits c (length form.files) total seen parts
      → (out : MultipartForm tf decode) × (parse_parts tf decode c form total seen parts ≡ ok out)
  unfolding parse_parts Fits
  parse_parts-Fits c form total seen closed f = (form, refl)
  parse_parts-Fits c form total seen (unreadable m) f = elim f [ ]
  parse_parts-Fits c form total seen (next_field f rest) (few, r, small, fits, later) =
      let (mid, e, sized, filed) = add_field-accepts c form total f r small fits in
      let next : Fits c (length mid.0.files) mid.1 (suc seen) rest = rw (sized, filed) later in
      let (out, q) = parse_parts-Fits c mid.0 mid.1 (suc seen) rest next in
      (out, rw (le-ltb (suc seen) c.max_fields few, e) q)
