-- ===== src/Multipart/Form/Parsing.antt =====
-- The parsed form of a whole body.
use tork_framework.Base.{
  ℕ, suc, ◌+◌, ◌≤◌, ◌≡◌, refl, sym, ap, ◌∙◌, ◌++◌, false, Option, none, some, List, [], ◌∷◌, map,
  Text, length, append-nil, append_assoc, ltb, leb, arith,
}
use tork_framework.Error.{Result, ok, >>=-eq-ok, ok-injective}
use tork_framework.Multipart.Config.{ResolvedConfig}
use tork_framework.Multipart.Spool.{TempFiles, new_spool}
use tork_framework.Multipart.Form.{
  Piece, Field, Parts, closed, unreadable, next_field, gather, MultipartForm, read_file, field_name,
  with_file, with_text, file_field, text_field, add_field, parse_parts, no_form,
}
use tork_framework.Multipart.Form.Reading.{
  data_of, gather-data, guard-ok, ltb-false, FileRead, read_file-FileRead,
}
use tork_framework.Multipart.Form.Limits.{
  map-append, when_text, when_file, texts_sent, files_sent, stored, IsWithin, Added,
  with_file-IsWithin, with_text-IsWithin,
}

leb-false : (a b : ℕ) → leb a b ≡ false → suc b ≤ a
leb-false a b e = ground arith

module _ (tf : TempFiles) (decode : Option Text → Text → Text) where
  FileRead-nil :
      (c : ResolvedConfig) (before : Text) (total : ℕ) (ps : List Piece) (out : tf.Storage × ℕ × ℕ)
      → before ≡ []
      → FileRead tf decode c before total ps out
      → FileRead tf decode c [] total ps out
  FileRead-nil c before total ps out e r = record {
    content = r.content ∙ ap (λ x. x ++ data_of ps) e;
    size = r.size;
    small = r.small;
    fits = r.fits;
    counted = omega (arith, r.counted, ap length e);
  }

  with_file-Added :
      (c : ResolvedConfig) (form : MultipartForm tf decode) (total seen : ℕ) (f : Field)
      (filename : Text) (r : tf.Storage × ℕ × ℕ)
      → suc seen ≤ c.max_fields
      → leb c.max_files (length form.files) ≡ false
      → IsWithin tf decode c form total seen
      → FileRead tf decode c [] total f.pieces r
      → Added tf decode c form seen f (some filename) (with_file tf decode form f r, r.2)
  with_file-Added c form total seen f filename r few room w got = record {
    texts = sym (append-nil form.texts);
    files =
        map-append (stored tf decode) form.files _
        ∙ ap
            (λ t.
              map (stored tf decode) form.files
              ++ (field_name tf decode f, f.file_name, f.content_type, t) ∷ [])
            got.content;
    within = with_file-IsWithin tf decode c form total seen f r few (leb-false _ _ room) w got;
  }

  pub new_spool-FileRead :
      (c : ResolvedConfig) (total : ℕ) (ps : List Piece) (r : tf.Storage × ℕ × ℕ)
      → total ≤ c.max_body_size
      → read_file tf decode c (new_spool tf c) [] 0 total ps ≡ ok r
      → FileRead tf decode c [] total ps r
  new_spool-FileRead c total ps r fits read =
      let fresh = tf.spooled_lem c.memory_threshold c.temp_dir in
      let bare = append-nil (tf.contents (new_spool tf c)) ∙ fresh.1 in
      FileRead-nil c (tf.contents (new_spool tf c) ++ []) total ps r bare (
        read_file-FileRead tf decode c (new_spool tf c) [] 0 total ps r fresh.0
          (ap length (sym bare)) (omega arith) fits read)

  file_field-Added :
      (c : ResolvedConfig) (form : MultipartForm tf decode) (total seen : ℕ) (f : Field)
      (filename : Text) (out : MultipartForm tf decode × ℕ)
      → suc seen ≤ c.max_fields
      → IsWithin tf decode c form total seen
      → file_field tf decode c form total f ≡ ok out
      → Added tf decode c form seen f (some filename) out
  file_field-Added c form total seen f filename out few w e =
      let (room, e1) = guard-ok (leb c.max_files (length form.files)) _ _ out e in
      let (r, read, q) =
        >>=-eq-ok (read_file tf decode c (new_spool tf c) [] 0 total f.pieces) _ e1 in
      let same : (with_file tf decode form f r, r.2) ≡ out = ok-injective q in
      rw (← same) (
        with_file-Added c form total seen f filename r few room w
          (new_spool-FileRead c total f.pieces r w.fits read))

  with_text-Added :
      (c : ResolvedConfig) (form : MultipartForm tf decode) (total seen : ℕ) (f : Field)
      (raw : Text)
      → suc seen ≤ c.max_fields
      → IsWithin tf decode c form total seen
      → raw ≡ data_of f.pieces
      → total + length (decode f.content_type raw) ≤ c.max_body_size
      → length (decode f.content_type raw) ≤ c.max_text_field_size
      → Added tf decode c form seen f none (
        with_text tf decode form f (decode f.content_type raw),
        total + length (decode f.content_type raw),
      )
  with_text-Added c form total seen f raw few w same fits small = record {
    texts = ap (λ t. form.texts ++ (field_name tf decode f, decode f.content_type t) ∷ []) same;
    files = sym (append-nil (map (stored tf decode) form.files));
    within =
        with_text-IsWithin tf decode c form total seen f (decode f.content_type raw) few w fits
          small;
  }

  text_field-Added :
      (c : ResolvedConfig) (form : MultipartForm tf decode) (total seen : ℕ) (f : Field)
      (out : MultipartForm tf decode × ℕ)
      → suc seen ≤ c.max_fields
      → IsWithin tf decode c form total seen
      → text_field tf decode c form total f ≡ ok out
      → Added tf decode c form seen f none out
  text_field-Added c form total seen f out few w e =
      let (raw, read, e1) = >>=-eq-ok (gather [] f.pieces) _ e in
      let t = decode f.content_type raw in
      let (fits, e2) = guard-ok (ltb c.max_body_size (total + length t)) _ _ out e1 in
      let (small, q) = guard-ok (ltb c.max_text_field_size (length t)) _ _ out e2 in
      let same : (with_text tf decode form f t, total + length t) ≡ out = ok-injective q in
      rw (← same) (
        with_text-Added c form total seen f raw few w (gather-data [] raw f.pieces read)
          (ltb-false _ _ fits) (ltb-false _ _ small))

  add_field-Added :
      (c : ResolvedConfig) (form : MultipartForm tf decode) (total seen : ℕ) (f : Field)
      (out : MultipartForm tf decode × ℕ)
      → suc seen ≤ c.max_fields
      → IsWithin tf decode c form total seen
      → add_field tf decode c form total f ≡ ok out
      → Added tf decode c form seen f f.file_name out
  unfolding add_field
  add_field-Added c form total seen f out few w e = go f.file_name e
    where
      go :
          (o : Option Text)
          → (elim o as (λ x. Result (MultipartForm tf decode × ℕ)) [
            | some filename ↦ file_field tf decode c form total f
            | none ↦ text_field tf decode c form total f
          ])
            ≡ ok out
          → Added tf decode c form seen f o out
      go (some filename) x = file_field-Added c form total seen f filename out few w x
      go none x = text_field-Added c form total seen f out few w x

  -- The form of a body: what was sent, within the limits.
  pub record Holds (c : ResolvedConfig) (form : MultipartForm tf decode) (parts : Parts)
      (out : MultipartForm tf decode) : Type 0 where
    pub texts : out.texts ≡ form.texts ++ texts_sent tf decode parts
    pub files :
        map (stored tf decode) out.files
        ≡ map (stored tf decode) form.files ++ files_sent tf decode parts
    pub total : ℕ
    pub seen : ℕ
    pub within : IsWithin tf decode c out total seen

  Holds-next :
      (c : ResolvedConfig) (form : MultipartForm tf decode) (seen : ℕ) (f : Field) (rest : Parts)
      (mid : MultipartForm tf decode × ℕ) (out : MultipartForm tf decode)
      → Added tf decode c form seen f f.file_name mid
      → Holds c mid.0 rest out
      → Holds c form (next_field f rest) out
  unfolding texts_sent files_sent
  Holds-next c form seen f rest mid out a held = record {
    texts =
        held.texts
        ∙ ap (λ x. x ++ texts_sent tf decode rest) a.texts
        ∙ append_assoc form.texts (when_text tf decode f f.file_name) (texts_sent tf decode rest);
    files =
        held.files
        ∙ ap (λ x. x ++ files_sent tf decode rest) a.files
        ∙ append_assoc (map (stored tf decode) form.files) (when_file tf decode f f.file_name)
            (files_sent tf decode rest);
    total = held.total;
    seen = held.seen;
    within = held.within;
  }

  Holds-end :
      (c : ResolvedConfig) (form : MultipartForm tf decode) (total seen : ℕ)
      → IsWithin tf decode c form total seen
      → Holds c form closed form
  unfolding texts_sent files_sent
  Holds-end c form total seen w = record {
    texts = sym (append-nil form.texts);
    files = sym (append-nil (map (stored tf decode) form.files));
    total = total;
    seen = seen;
    within = w;
  }

  parse_parts-Holds :
      (c : ResolvedConfig) (form : MultipartForm tf decode) (total seen : ℕ) (parts : Parts)
      (out : MultipartForm tf decode)
      → IsWithin tf decode c form total seen
      → parse_parts tf decode c form total seen parts ≡ ok out
      → Holds c form parts out
  unfolding parse_parts
  parse_parts-Holds c form total seen closed out w e =
      let same : form ≡ out = ok-injective e in rw (← same) (Holds-end c form total seen w)
  parse_parts-Holds c form total seen (unreadable m) out w e = cc
  parse_parts-Holds c form total seen (next_field f rest) out w e =
      let (few, e1) = guard-ok (ltb c.max_fields (suc seen)) _ _ out e in
      let (mid, added, e2) = >>=-eq-ok (add_field tf decode c form total f) _ e1 in
      let a = add_field-Added c form total seen f mid (ltb-false _ _ few) w added in
      Holds-next c form seen f rest mid out a
        (parse_parts-Holds c mid.0 mid.1 (suc seen) rest out a.within e2)

  -- A form that is parsed holds exactly the texts and the files that the body sent, in order, each
  -- file with all of its bytes in its temporary file, and it is within every limit: the number of
  -- parts and of files, the size of each file and of each text, and the sum of all sizes.
  pub parse_parts-sent :
      (c : ResolvedConfig) (parts : Parts) (form : MultipartForm tf decode)
      → parse_parts tf decode c (no_form tf decode) 0 0 parts ≡ ok form
      → (form.texts ≡ texts_sent tf decode parts)
        × (map (stored tf decode) form.files ≡ files_sent tf decode parts)
        × ((total : ℕ) × (seen : ℕ) × IsWithin tf decode c form total seen)
  parse_parts-sent c parts form e =
      let held =
        parse_parts-Holds c (no_form tf decode) 0 0 parts form
          (record {
            count = refl;
            few = omega arith;
            few_files = omega arith;
            each_file = tt;
            each_text = tt;
            sum = refl;
            fits = omega arith;
          })
          e in
      (held.texts, held.files, (held.total, held.seen, held.within))
