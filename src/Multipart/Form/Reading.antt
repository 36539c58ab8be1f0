-- ===== src/Multipart/Form/Reading.antt =====
-- What is read of one part of a form, through the buffer and the temporary file.
use tork_framework.Base.{
  ℕ, ◌+◌, ◌≤◌, ◌≡◌, refl, sym, ap, ◌∙◌, ◌++◌, Bool, true, false, Option, List, [], ◌∷◌, Text,
  length, length-append, append-nil, append_assoc, ltb, leb, if◌then◌else◌, arith, is_empty,
}
use tork_framework.Error.{Result, ok, err, ◌>>=◌, >>=-eq-ok, ok-injective, Error}
use tork_framework.Multipart.Config.{ResolvedConfig, spool_flush_threshold}
use tork_framework.Multipart.Spool.{
  Io, done, failed, TempFiles, spool_flush, spool_failed, and_done, or_error,
}
use tork_framework.Multipart.Form.{Piece, piece, broken, gather, flushed, read_file}

abbrev pub data_of : List Piece → Text
data_of [] = []
data_of (piece t ∷ ps) = t ++ data_of ps
data_of (broken message ∷ ps) = []

pub gather-data : (t u : Text) (ps : List Piece) → gather t ps ≡ ok u → u ≡ t ++ data_of ps
unfolding gather
gather-data t u [] e = sym (ok-injective e) ∙ sym (append-nil t)
gather-data t u (piece v ∷ ps) e = gather-data (t ++ v) u ps e ∙ append_assoc t v (data_of ps)
gather-data t u (broken message ∷ ps) e = cc

-- A guard that let a result through.
pub guard-ok :
    {A : Type 0} (b : Bool) (x : Error) (r : Result A) (a : A)
    → (if b then err x else r) ≡ ok a
    → (b ≡ false) × (r ≡ ok a)
guard-ok true x r a e = cc
guard-ok false x r a e = (refl, e)

pub ltb-false : (a b : ℕ) → ltb a b ≡ false → b ≤ a
ltb-false a b e = ground arith

done-injective : {A : Type 0} {a b : A} → done a ≡ done b → a ≡ b
done-injective e = cc

or_error-ok : {A : Type 0} (f : Text → Error) (o : Io A) (a : A) → or_error f o ≡ ok a → o ≡ done a
or_error-ok f (done b) a e = cc
or_error-ok f (failed m) a e = cc

and_done-done :
    {A B : Type 0} (o : Io A) (next : A → Io B) (b : B)
    → and_done o next ≡ done b
    → (a : A) × (o ≡ done a) × (next a ≡ done b)
and_done-done (done a) next b e = (a, refl, e)
and_done-done (failed m) next b e = cc

module _ (tf : TempFiles) where
  write-contents :
      (s s' : tf.Storage) (t : Text)
      → tf.AtEnd s
      → (if is_empty t then done s else tf.write_all t s) ≡ done s'
      → tf.AtEnd s' × (tf.contents s' ≡ tf.contents s ++ t)
  write-contents s s' [] a e = rw (← done-injective e) (a, sym (append-nil (tf.contents s)))
  write-contents s s' (c ∷ t) a e = tf.write_all_lem (c ∷ t) s s' a e

  rewind-contents :
      (s s' : tf.Storage) (rewind : Bool)
      → (if rewind then tf.seek_start s else done s) ≡ done s'
      → tf.contents s' ≡ tf.contents s
  rewind-contents s s' true e = tf.seek_start_lem s s' e
  rewind-contents s s' false e = ap tf.contents (sym (done-injective e))

  spool_flush-contents :
      (s s' : tf.Storage) (t : Text) (rewind : Bool)
      → tf.AtEnd s
      → spool_flush tf s t rewind ≡ ok s'
      → tf.contents s' ≡ tf.contents s ++ t
  unfolding spool_flush
  spool_flush-contents s s' t rewind a e =
      let (v, written, rewound) = and_done-done _ _ s' (or_error-ok spool_failed _ s' e) in
      rewind-contents v s' rewind rewound ∙ (write-contents s v t a written).1

  spool_flush-AtEnd :
      (s s' : tf.Storage) (t : Text) → tf.AtEnd s → spool_flush tf s t false ≡ ok s' → tf.AtEnd s'
  unfolding spool_flush
  spool_flush-AtEnd s s' t a e =
      let (v, written, rewound) = and_done-done _ _ s' (or_error-ok spool_failed _ s' e) in
      let same : v ≡ s' = done-injective rewound in rw (← same) (write-contents s v t a written).0

module _ (tf : TempFiles) (decode : Option Text → Text → Text) where
  flushed-contents :
      (s : tf.Storage) (buffer : Text) (sb : tf.Storage × Text)
      → tf.AtEnd s
      → flushed tf decode s buffer ≡ ok sb
      → tf.AtEnd sb.0 × (tf.contents sb.0 ++ sb.1 ≡ tf.contents s ++ buffer)
  flushed-contents s buffer sb a e = go (leb spool_flush_threshold (length buffer)) e
    where
      go :
          (b : Bool)
          → (if b then (spool_flush tf s buffer false >>= λ v. ok (v, [])) else ok (s, buffer))
            ≡ ok sb
          → tf.AtEnd sb.0 × (tf.contents sb.0 ++ sb.1 ≡ tf.contents s ++ buffer)
      go true x =
          let (v, out, q) = >>=-eq-ok _ (λ v. ok (v, [])) x in
          rw (← ok-injective q) (
            spool_flush-AtEnd tf s v buffer a out,
            append-nil (tf.contents v) ∙ spool_flush-contents tf s v buffer false a out,
          )
      go false x = rw (← ok-injective x) (a, refl)

  -- What is read of a file.
  pub record FileRead (c : ResolvedConfig) (before : Text) (total : ℕ) (ps : List Piece)
      (out : tf.Storage × ℕ × ℕ) : Type 0 where
    pub content : tf.contents out.0 ≡ before ++ data_of ps
    pub size : out.1 ≡ length (tf.contents out.0)
    pub small : out.1 ≤ c.max_file_size
    pub fits : out.2 ≤ c.max_body_size
    pub counted : out.2 + length before ≡ total + out.1

  FileRead-piece :
      (c : ResolvedConfig) (before mid t : Text) (total : ℕ) (ps : List Piece)
      (out : tf.Storage × ℕ × ℕ)
      → mid ≡ before ++ t
      → FileRead c mid (total + length t) ps out
      → FileRead c before total (piece t ∷ ps) out
  FileRead-piece c before mid t total ps out same r = record {
    content = r.content ∙ ap (λ x. x ++ data_of ps) same ∙ append_assoc before t (data_of ps);
    size = r.size;
    small = r.small;
    fits = r.fits;
    counted = omega (arith, r.counted, ap length same, length-append before t);
  }

  FileRead-end :
      (c : ResolvedConfig) (s : tf.Storage) (buffer : Text) (size total : ℕ)
      (out : tf.Storage × ℕ × ℕ)
      → tf.AtEnd s
      → size ≡ length (tf.contents s ++ buffer)
      → size ≤ c.max_file_size
      → total ≤ c.max_body_size
      → (spool_flush tf s buffer true >>= λ v. ok (v, size, total)) ≡ ok out
      → FileRead c (tf.contents s ++ buffer) total [] out
  FileRead-end c s buffer size total out a same small fits e =
      let (v, written, q) = >>=-eq-ok (spool_flush tf s buffer true) (λ v. ok (v, size, total)) e in
      let held = spool_flush-contents tf s v buffer true a written in
      rw (← ok-injective q) (record {
        content = held ∙ sym (append-nil (tf.contents s ++ buffer));
        size = same ∙ ap length (sym held);
        small = small;
        fits = fits;
        counted = omega (arith, same);
      })

  pub read_file-FileRead :
      (c : ResolvedConfig) (s : tf.Storage) (buffer : Text) (size total : ℕ) (ps : List Piece)
      (out : tf.Storage × ℕ × ℕ)
      → tf.AtEnd s
      → size ≡ length (tf.contents s ++ buffer)
      → size ≤ c.max_file_size
      → total ≤ c.max_body_size
      → read_file tf decode c s buffer size total ps ≡ ok out
      → FileRead c (tf.contents s ++ buffer) total ps out
  unfolding read_file
  read_file-FileRead c s buffer size total [] out a same small fits e =
      FileRead-end c s buffer size total out a same small fits e
  read_file-FileRead c s buffer size total (broken m ∷ ps) out a same small fits e = cc
  read_file-FileRead c s buffer size total (piece t ∷ ps) out a same small fits e =
      let (under, e1) = guard-ok (ltb c.max_file_size (size + length t)) _ _ out e in
      let (within, e2) = guard-ok (ltb c.max_body_size (total + length t)) _ _ out e1 in
      let (sb, kept_out, e3) = >>=-eq-ok (flushed tf decode s (buffer ++ t)) _ e2 in
      let (a', kept) = flushed-contents s (buffer ++ t) sb a kept_out in
      let whole : tf.contents sb.0 ++ sb.1 ≡ (tf.contents s ++ buffer) ++ t =
        kept ∙ sym (append_assoc (tf.contents s) buffer t) in
      let counted : size + length t ≡ length (tf.contents sb.0 ++ sb.1) =
        ap (λ n. n + length t) same
        ∙ sym (length-append (tf.contents s ++ buffer) t)
        ∙ ap length (sym whole) in
      FileRead-piece c (tf.contents s ++ buffer) (tf.contents sb.0 ++ sb.1) t total ps out whole (
        read_file-FileRead c sb.0 sb.1 (size + length t) (total + length t) ps out a' counted
          (ltb-false _ _ under) (ltb-false _ _ within) e3)
