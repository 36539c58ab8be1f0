-- ===== src/Base/Splitting.antt =====
-- Laws of `split` and `join` at one byte, and texts that lack a byte.
use Prim.Native.Nat.{ℕ}
use mathlib.Core.Path.{◌≡◌, refl}
use mathlib.Core.Bool.{Bool, false}
use mathlib.Core.List.{List, [], ◌∷◌, ◌++◌}
use native.Mathlib.Omega.{arith}
use mathlib.Core.Logic.{inl, inr}
use tork_framework.Base.Tests.{◌==◌, Bool-cases}
use tork_framework.Base.Lists.{All, keep}
use tork_framework.Base.Strings.{Text, contains_byte, split_on, join_with, cons_piece}

abbrev pub HasNo : ℕ → Text → Type 0
HasNo b t = contains_byte b t ≡ false

pub HasNo-append : (b : ℕ) (s t : Text) → HasNo b s → HasNo b t → HasNo b (s ++ t)
unfolding contains_byte
HasNo-append b [] t h k = k
HasNo-append b (c ∷ s) t h k = ground (arith, HasNo-append b s t)

pub HasNo-keep : (b : ℕ) (p : ℕ → Bool) (t : Text) → p b ≡ false → HasNo b (keep p t)
unfolding contains_byte
HasNo-keep b p [] h = refl
HasNo-keep b p (c ∷ t) h = ground (arith, HasNo-keep b p t h)

cons_piece-HasNo :
    (b c : ℕ) (ps : List Text)
    → (c == b) ≡ false
    → All (HasNo b) ps
    → All (HasNo b) (cons_piece c ps)
unfolding contains_byte
cons_piece-HasNo b c [] n h = (ground arith, tt)
cons_piece-HasNo b c (p ∷ ps) n h = (ground arith, h.1)

-- No piece holds the separator.
pub split_on-HasNo : (b : ℕ) (s : Text) → All (HasNo b) (split_on b s)
unfolding split_on contains_byte
split_on-HasNo b [] = (refl, tt)
split_on-HasNo b (c ∷ s) = ground (arith, split_on-HasNo b s, cons_piece-HasNo b c (split_on b s))

-- A piece holds no byte that the text lacks.
pub split_on-keeps_HasNo : (a b : ℕ) (s : Text) → HasNo a s → All (HasNo a) (split_on b s)
unfolding split_on contains_byte
split_on-keeps_HasNo a b [] h = (refl, tt)
split_on-keeps_HasNo a b (c ∷ s) h =
    ground (arith, split_on-keeps_HasNo a b s, cons_piece-HasNo a c (split_on b s))

join_with-cons_piece :
    (sep : Text) (c : ℕ) (p : Text) (ps : List Text)
    → join_with sep (cons_piece c (p ∷ ps)) ≡ c ∷ join_with sep (p ∷ ps)
unfolding join_with
join_with-cons_piece sep c p [] = refl
join_with-cons_piece sep c p (q ∷ ps) = refl

-- A split text has a first piece.
pub split_on-cons : (b : ℕ) (s : Text) → (p : Text) × (ps : List Text) × (split_on b s ≡ p ∷ ps)
unfolding split_on
split_on-cons b [] = ([], [], refl)
split_on-cons b (c ∷ s) =
    let (p, ps, e) = split_on-cons b s in
    elim (Bool-cases (c == b)) [
      | inl same ↦ ([], split_on b s, rw same refl)
      | inr other ↦ (c ∷ p, ps, rw (other, e) refl)
    ]

join_with-nil :
    (sep : Text) (b : ℕ) (s : Text)
    → join_with sep ([] ∷ split_on b s) ≡ sep ++ join_with sep (split_on b s)
unfolding join_with
join_with-nil sep b s = let (p, ps, e) = split_on-cons b s in rw e refl

-- Joining the pieces with the separator gives the text back.
pub join_with-split_on : (b : ℕ) (s : Text) → join_with (b ∷ []) (split_on b s) ≡ s
unfolding split_on join_with
join_with-split_on b [] = refl
join_with-split_on b (c ∷ s) =
    let (p, ps, e) = split_on-cons b s in
    elim (Bool-cases (c == b)) [
      | inl same ↦ ground (arith, join_with-nil (b ∷ []) b s, join_with-split_on b s)
      | inr other ↦ ground (arith, e, join_with-cons_piece (b ∷ []) c p ps, join_with-split_on b s)
    ]

-- A piece in front of a separator is the first piece.
pub split_on-append : (b : ℕ) (p s : Text) → HasNo b p → split_on b (p ++ b ∷ s) ≡ p ∷ split_on b s
unfolding split_on contains_byte
split_on-append b [] s h = ground arith
split_on-append b (c ∷ p) s h = ground (arith, split_on-append b p s)
