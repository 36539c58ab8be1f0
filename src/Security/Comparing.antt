-- ===== src/Security/Comparing.antt =====
-- crates/tork-core/src/security.rs: the comparison of secrets against equality.
use tork_framework.Base.{
  ℕ, zero, suc, ◌/◌, ◌^◌, ◌<◌, ◌≡◌, ◌↔◌, refl, arith, true, [], ◌∷◌, Text, length, All,
}
use tork_framework.Security.{bit_or, bit_xor, difference, constant_time_eq}

abbrev pub IsByte : ℕ → Type 0
IsByte b = b < 256

bit_or-zero : (w x y : ℕ) → x < 2 ^ w → y < 2 ^ w → bit_or w x y ≡ 0 → (x ≡ 0) × (y ≡ 0)
unfolding bit_or
bit_or-zero zero x y hx hy e = (omega arith, omega arith)
bit_or-zero (suc w) x y hx hy e =
    let (a, b) = bit_or-zero w (x / 2) (y / 2) (omega arith) (omega arith) (omega arith) in
    (omega arith, omega arith)

bit_or_zeros : (w : ℕ) → bit_or w 0 0 ≡ 0
unfolding bit_or
bit_or_zeros zero = refl
bit_or_zeros (suc w) = rw (bit_or_zeros w) refl

bit_or-bounded : (w x y : ℕ) → bit_or w x y < 2 ^ w
unfolding bit_or
bit_or-bounded zero x y = omega arith
bit_or-bounded (suc w) x y = let b = bit_or-bounded w (x / 2) (y / 2) in omega arith

bit_xor-bounded : (w x y : ℕ) → bit_xor w x y < 2 ^ w
unfolding bit_xor
bit_xor-bounded zero x y = omega arith
bit_xor-bounded (suc w) x y = let b = bit_xor-bounded w (x / 2) (y / 2) in omega arith

bit_xor-zero : (w x y : ℕ) → x < 2 ^ w → y < 2 ^ w → bit_xor w x y ≡ 0 → x ≡ y
unfolding bit_xor
bit_xor-zero zero x y hx hy e = omega arith
bit_xor-zero (suc w) x y hx hy e =
    let a = bit_xor-zero w (x / 2) (y / 2) (omega arith) (omega arith) (omega arith) in omega arith

bit_xor_self : (w x : ℕ) → bit_xor w x x ≡ 0
unfolding bit_xor
bit_xor_self zero x = refl
bit_xor_self (suc w) x = let a = bit_xor_self w (x / 2) in omega arith

difference-zero :
    (d : ℕ) (a b : Text)
    → IsByte d
    → All IsByte a
    → All IsByte b
    → length a ≡ length b
    → difference d a b ≡ 0
    → (d ≡ 0) × (a ≡ b)
unfolding difference
difference-zero d [] [] hd ha hb l e = (e, refl)
difference-zero d [] (y ∷ b) hd ha hb l e = ground arith
difference-zero d (x ∷ a) [] hd ha hb l e = ground arith
difference-zero d (x ∷ a) (y ∷ b) hd ha hb l e =
    let (joined, rest) =
      difference-zero (bit_or 8 d (bit_xor 8 x y)) a b (bit_or-bounded 8 d (bit_xor 8 x y)) ha.1
        hb.1 (omega arith) e in
    let (old, new) = bit_or-zero 8 d (bit_xor 8 x y) hd (bit_xor-bounded 8 x y) joined in
    (old, rw (bit_xor-zero 8 x y ha.0 hb.0 new, rest) refl)

difference_self : (a : Text) → difference 0 a a ≡ 0
unfolding difference
difference_self [] = refl
difference_self (x ∷ a) = rw (bit_xor_self 8 x, bit_or_zeros 8) (difference_self a)

-- Two texts of bytes are told equal exactly if they are equal.
pub constant_time_eq_iff :
    (a b : Text) → All IsByte a → All IsByte b → (constant_time_eq a b ≡ true) ↔ (a ≡ b)
unfolding constant_time_eq
constant_time_eq_iff a b ha hb = (
  λ e. (difference-zero 0 a b (omega arith) ha hb (ground arith) (ground arith)).1,
  λ e. rw (e, difference_self b) (ground arith),
)
