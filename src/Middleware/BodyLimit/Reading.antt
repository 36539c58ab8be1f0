-- ===== src/Middleware/BodyLimit/Reading.antt =====
-- What is read of a body, and what the handlers behind the limit get.
use tork_framework.Base.{
  ℕ, ◌+◌, ◌≤◌, ◌≡◌, refl, ◌⊎◌, inl, inr, ◌++◌, List, [], ◌∷◌, Text, arith, leb, ltb, if◌then◌else◌,
  length, length-append, append_assoc, append-nil, Bool-cases,
}
use tork_framework.Error.{Error, Result, ok, err}
use tork_framework.Middleware.Http.{Http, Request, Handler, Frame, chunk, trailers, failure}
use tork_framework.Middleware.BodyLimit.{
  too_large, read_body_with_limit, is_over, declared, buffered, handle_body_limit,
}

-- The data of all frames.
abbrev pub data_of : List Frame → Text
data_of [] = []
data_of (chunk t ∷ fs) = t ++ data_of fs
data_of (trailers ∷ fs) = data_of fs
data_of (failure e ∷ fs) = data_of fs

abbrev pub IsWhole : List Frame → Type 0
IsWhole [] = Unit
IsWhole (chunk t ∷ fs) = IsWhole fs
IsWhole (trailers ∷ fs) = IsWhole fs
IsWhole (failure e ∷ fs) = ⊥

read-data :
    (limit : ℕ) (fs : List Frame) (seen : ℕ) (buffer : Text)
    → IsWhole fs
    → seen ≤ limit
    → read_body_with_limit limit seen buffer fs ≡ (
        if leb (seen + length (data_of fs)) limit then ok (buffer ++ data_of fs) else err too_large)
unfolding read_body_with_limit
read-data limit [] seen buffer whole fits = ground (arith, append-nil buffer)
read-data limit (trailers ∷ fs) seen buffer whole fits = read-data limit fs seen buffer whole fits
read-data limit (failure e ∷ fs) seen buffer whole fits = elim whole [ ]
read-data limit (chunk t ∷ fs) seen buffer whole fits =
    elim (Bool-cases (ltb limit (seen + length t))) [
      | inl over ↦ ground (arith, length-append t (data_of fs))
      | inr under ↦ ground (
        arith,
        length-append t (data_of fs),
        append_assoc buffer t (data_of fs),
        read-data limit fs (seen + length t) (buffer ++ t) whole,
      )
    ]

-- A body whose frames can all be read is read whole if it fits the limit, and refused with 413
-- otherwise.
pub read_body_with_limit-data :
    (limit : ℕ) (fs : List Frame)
    → IsWhole fs
    → read_body_with_limit limit 0 [] fs
      ≡ (if leb (length (data_of fs)) limit then ok (data_of fs) else err too_large)
read_body_with_limit-data limit fs whole =
    ground (arith, read-data limit fs 0 [] whole (omega arith))

read-bounded :
    (limit : ℕ) (fs : List Frame) (seen : ℕ) (buffer t : Text)
    → seen ≡ length buffer
    → seen ≤ limit
    → read_body_with_limit limit seen buffer fs ≡ ok t
    → length t ≤ limit
unfolding read_body_with_limit
read-bounded limit [] seen buffer t counted fits e = ground arith
read-bounded limit (trailers ∷ fs) seen buffer t counted fits e =
    read-bounded limit fs seen buffer t counted fits e
read-bounded limit (failure f ∷ fs) seen buffer t counted fits e = cc
read-bounded limit (chunk d ∷ fs) seen buffer t counted fits e =
    ground (arith, length-append buffer d, read-bounded limit fs (seen + length d) (buffer ++ d) t)

module _ (h : Http) {S : Type 0} where
  -- Whatever the request declares and however its body comes in, the handlers behind are run on a
  -- body of one chunk within the limit, or they are not run and the answer is an error.
  pub handle_body_limit-bounded :
      (limit : ℕ) (next : Handler h S) (r : Request h) (s : S)
      → ((e : Error) × (handle_body_limit h limit next r s ≡ (s, err e)))
        ⊎ ((t : Text) × (length t ≤ limit)
            × (handle_body_limit h limit next r s ≡ next (record r { frames = chunk t ∷ [] }) s))
  unfolding handle_body_limit
  handle_body_limit-bounded limit next r s = elim (Bool-cases (is_over h limit (declared h r))) [
    | inl over ↦ inl (too_large, rw over refl)
    | inr under ↦ rw under (go (read_body_with_limit limit 0 [] r.frames) refl)
  ]
    where
      go :
          (x : Result Text)
          → read_body_with_limit limit 0 [] r.frames ≡ x
          → ((e : Error) × (buffered h next r s (read_body_with_limit limit 0 [] r.frames)
                ≡ (s, err e)))
            ⊎ ((t : Text) × (length t ≤ limit)
                × (buffered h next r s (read_body_with_limit limit 0 [] r.frames)
                    ≡ next (record r { frames = chunk t ∷ [] }) s))
      go (err e) q = inl (e, rw q refl)
      go (ok t) q = inr (t, read-bounded limit r.frames 0 [] t refl (omega arith) q, rw q refl)
