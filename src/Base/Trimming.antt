-- ===== src/Base/Trimming.antt =====
-- Laws of the two trims, at one byte.
use Prim.Native.Nat.{ℕ}
use mathlib.Core.Path.{◌≡◌, refl, ap, ◌∙◌}
use mathlib.Core.Bool.{false}
use mathlib.Core.List.{[], ◌∷◌, ◌++◌}
use native.Mathlib.Omega.{arith}
use tork_framework.Base.Tests.{◌==◌, if◌then◌else◌}
use tork_framework.Base.Strings.{Text, trim_start, trim_end, trim_cons, ends_with, text_eq}

module _ (b : ℕ) where
  -- What stands before a trimmed text is trimmed too, if nothing of the text is left.
  abbrev pub trim_before : Text → Text → Text
  trim_before s [] = trim_end b s
  trim_before s (d ∷ r) = s ++ d ∷ r

  trim_cons-append : (c : ℕ) (s r : Text) (d : ℕ) → trim_cons b c (s ++ d ∷ r) ≡ c ∷ (s ++ d ∷ r)
  trim_cons-append c [] r d = refl
  trim_cons-append c (x ∷ s) r d = refl

  before-cons :
      (c : ℕ) (s rest : Text) → trim_cons b c (trim_before s rest) ≡ trim_before (c ∷ s) rest
  unfolding trim_end
  before-cons c s [] = refl
  before-cons c s (d ∷ r) = trim_cons-append c s r d

  pub trim_end-append : (s t : Text) → trim_end b (s ++ t) ≡ trim_before s (trim_end b t)
  unfolding trim_end
  trim_end-append [] t = nothing (trim_end b t)
    where
      nothing : (r : Text) → r ≡ trim_before [] r
      nothing [] = refl
      nothing (d ∷ r) = refl
  trim_end-append (c ∷ s) t =
      ap (trim_cons b c) (trim_end-append s t) ∙ before-cons c s (trim_end b t)

  trim_end-trim_cons :
      (c : ℕ) (r : Text) → trim_end b r ≡ r → trim_end b (trim_cons b c r) ≡ trim_cons b c r
  unfolding trim_end
  trim_end-trim_cons c [] h = ground arith
  trim_end-trim_cons c (d ∷ r) h = rw h refl

  pub trim_end_idem : (s : Text) → trim_end b (trim_end b s) ≡ trim_end b s
  unfolding trim_end
  trim_end_idem [] = refl
  trim_end_idem (c ∷ s) = trim_end-trim_cons c (trim_end b s) (trim_end_idem s)

  pub trim_start_idem : (s : Text) → trim_start b (trim_start b s) ≡ trim_start b s
  unfolding trim_start
  trim_start_idem [] = refl
  trim_start_idem (c ∷ s) = ground (arith, trim_start_idem s)

  trim_start-trim_cons :
      (c : ℕ) (r s : Text)
      → trim_start b r ≡ s
      → trim_start b (trim_cons b c r) ≡ (if c == b then s else trim_cons b c r)
  unfolding trim_start
  trim_start-trim_cons c [] s h = ground arith
  trim_start-trim_cons c (d ∷ r) s h = ground arith

  pub trim_start-trim_end : (s : Text) → trim_start b (trim_end b s) ≡ trim_end b (trim_start b s)
  unfolding trim_start trim_end
  trim_start-trim_end [] = refl
  trim_start-trim_end (c ∷ s) =
      trim_start-trim_cons c (trim_end b s) (trim_end b (trim_start b s)) (trim_start-trim_end s)
      ∙ ground arith

  abbrev pub start_before : Text → Text → Text
  start_before [] t = trim_start b t
  start_before (d ∷ r) t = (d ∷ r) ++ t

  pub trim_start-append : (s t : Text) → trim_start b (s ++ t) ≡ start_before (trim_start b s) t
  unfolding trim_start
  trim_start-append [] t = refl
  trim_start-append (c ∷ s) t = ground (arith, trim_start-append s t)

  -- A text that the trim leaves alone does not end in the byte.
  pub trimmed-ends_with : (s : Text) → trim_end b s ≡ s → ends_with (b ∷ []) s ≡ false
  unfolding trim_end ends_with text_eq
  trimmed-ends_with [] h = refl
  trimmed-ends_with (c ∷ []) h = ground arith
  trimmed-ends_with (c ∷ d ∷ s) h = ground (arith, trimmed-ends_with (d ∷ s))
