-- ===== src/Multipart/Form/Taking/Values.antt =====
-- What is taken out of a form, and what stays in it.
use tork_framework.Base.{
  ◌≡◌, refl, sym, ap, ◌∙◌, inl, inr, Bool, true, false, not, Option, none, some, List, [], ◌∷◌, map,
  Text, keep, Bool-cases,
}
use tork_framework.Error.{Result, ok, err, >>=-eq-ok, ok-injective}
use tork_framework.Multipart.Spool.{TempFiles}
use tork_framework.Multipart.Form.{MultipartForm}
use tork_framework.Multipart.Form.Taking.{
  remove_all, is_text_named, parsed, take_values, parse_each, is_file_named, take_form_values,
  file_part_into_upload, take_upload_file_list, invalid_value,
}

remove_all-keep {ℓ} :
    {A : Type ℓ} (p : A → Bool) (xs : List A)
    → remove_all p xs ≡ (keep p xs, keep (λ x. not (p x)) xs)
unfolding remove_all
remove_all-keep p [] = refl
remove_all-keep p (x ∷ xs) = elim (Bool-cases (p x)) [
  | inl found ↦ rw (found, remove_all-keep p xs) refl
  | inr other ↦ rw (other, remove_all-keep p xs) refl
]

module _ {A : Type 0} (p : A → Bool) (x : A) (xs : List A) where
  keep_yes : p x ≡ true → keep p (x ∷ xs) ≡ x ∷ keep p xs
  keep_yes e = rw e refl

  keep_no : p x ≡ false → keep p (x ∷ xs) ≡ keep p xs
  keep_no e = rw e refl

abbrev pub others : Text → List (Text × Text) → List (Text × Text)
others name ts = keep (λ t. not (is_text_named name t)) ts

module _ {A : Type 0} (parse : Text → Option A) (name : Text) where
  parsed-ok : (t : Text) (a : A) → parsed parse name t ≡ ok a → parse t ≡ some a
  parsed-ok t a e = go (parse t) e
    where
      go :
          (o : Option A)
          → (elim o as (λ x. Result A) [ none ↦ err (invalid_value name) | some b ↦ ok b ]) ≡ ok a
          → o ≡ some a
      go none x = cc
      go (some b) x = cc

  take_values-keep :
      (ts : List (Text × Text)) (values : List A)
      → parse_each parse name (keep (is_text_named name) ts) ≡ ok values
      → take_values parse name ts ≡ (others name ts, ok values)
  unfolding take_values parse_each
  take_values-keep [] values e = ap (λ r. ([], r)) e
  take_values-keep (t ∷ ts) values e = elim (Bool-cases (is_text_named name t)) [
    | inl named ↦
        let (a, pa, e1) =
          >>=-eq-ok (parsed parse name t.1) _
            (ap (parse_each parse name) (sym (keep_yes (is_text_named name) t ts named)) ∙ e) in
        let (vs, pv, q) = >>=-eq-ok (parse_each parse name (keep (is_text_named name) ts)) _ e1 in
        rw (named, parsed-ok t.1 a pa, take_values-keep ts vs pv)
          (ap (λ v. (others name ts, ok v)) (ok-injective q))
    | inr other ↦
        let rest =
          take_values-keep ts values
            (ap (parse_each parse name) (sym (keep_no (is_text_named name) t ts other)) ∙ e) in
        rw (other, rest) refl
  ]

module _ (tf : TempFiles) (decode : Option Text → Text → Text) where
  -- If all the texts of a name can be parsed, then taking them gives their values in order, and
  -- exactly the texts of other names stay in the form, in order, with all of its files.
  pub take_form_values-keep :
      {A : Type 0} (parse : Text → Option A) (name : Text) (form : MultipartForm tf decode)
      (values : List A)
      → parse_each parse name (keep (is_text_named name) form.texts) ≡ ok values
      → take_form_values tf decode parse name form
        ≡ (record form { texts = others name form.texts }, ok values)
  unfolding take_form_values
  take_form_values-keep parse name form values e =
      ap (λ r. (record form { texts = r.0 }, r.1)) (take_values-keep parse name form.texts values e)

  -- Taking the files of a name takes exactly these, in order.
  pub take_upload_file_list-keep :
      (name : Text) (form : MultipartForm tf decode)
      → take_upload_file_list tf decode name form ≡ (
        record form { files = keep (λ f. not (is_file_named tf decode name f)) form.files },
        map (file_part_into_upload tf decode) (keep (is_file_named tf decode name) form.files),
      )
  unfolding take_upload_file_list
  take_upload_file_list-keep name form =
      ap (λ r. (record form { files = r.1 }, map (file_part_into_upload tf decode) r.0))
        (remove_all-keep (is_file_named tf decode name) form.files)
