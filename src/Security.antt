-- ===== src/Security.antt =====
-- crates/tork-core/src/security.rs: the comparison of secrets. A byte is a number below 256, and
-- `|` and `^` work on its eight bits.
pub mod Comparing
use tork_framework.Base.{
  ℕ, zero, suc, ◌+◌, ◌*◌, ◌/◌, ◌%◌, Bool, false, ◌==◌, not, List, [], ◌∷◌, Text, max, length,
  if◌then◌else◌,
}

-- On the lowest `w` bits.
unfoldable pub bit_or : (w : ℕ) → ℕ → ℕ → ℕ
bit_or zero x y = 0
bit_or (suc w) x y = max (x % 2) (y % 2) + 2 * bit_or w (x / 2) (y / 2)

unfoldable pub bit_xor : (w : ℕ) → ℕ → ℕ → ℕ
bit_xor zero x y = 0
bit_xor (suc w) x y = (x % 2 + y % 2) % 2 + 2 * bit_xor w (x / 2) (y / 2)

-- The loop over the pairs of bytes, from the difference found so far.
unfoldable pub difference : (diff : ℕ) → Text → Text → ℕ
difference diff [] b = diff
difference diff (x ∷ a) [] = diff
difference diff (x ∷ a) (y ∷ b) = difference (bit_or 8 diff (bit_xor 8 x y)) a b

unfoldable pub constant_time_eq : Text → Text → Bool
constant_time_eq a b = if not (length a == length b) then false else difference 0 a b == 0
