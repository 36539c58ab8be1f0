-- ===== src/Base/Strings.antt =====
-- Text as the list of its bytes (Rust's `str` is UTF-8), and the operations of `str` and `String`
-- that the program calls.
use Prim.Native.Nat.{ℕ, zero, suc, ◌≤◌, ◌<◌, ◌+◌, ◌*◌, ◌-◌, ◌/◌, ◌%◌}
use Prim.Native.Char.{code}
use Prim.Native.String.{String}
use mathlib.Core.Path.{◌≡◌, refl}
use mathlib.Core.Logic.{◌↔◌, ◌≢◌}
use mathlib.Core.Bool.{Bool, true, false, ◌&&◌}
use mathlib.Core.List.{List, [], ◌∷◌, ◌++◌, map}
use native.Mathlib.Omega.{arith}
use tork_framework.Base.Lists.{All, All-append}
use tork_framework.Base.Tests.{◌==◌, leb, ltb, if◌then◌else◌}

abbrev pub Text : Type 0
Text = List ℕ

-- The bytes of an ASCII literal. `String` has its own `[]` and `∷`.
abbrev pub bytes : String → Text
bytes String.[] = []
bytes (String.◌∷◌ c s) = code c ∷ bytes s

unfoldable pub text_eq : Text → Text → Bool
text_eq [] [] = true
text_eq (x ∷ xs) (y ∷ ys) = x == y && text_eq xs ys
text_eq _ _ = false

pub text_eq_sound : (a b : Text) → text_eq a b ≡ true → a ≡ b
unfolding text_eq
text_eq_sound [] [] h = refl
text_eq_sound (x ∷ xs) (y ∷ ys) h = ground (arith, text_eq_sound xs ys)
text_eq_sound [] (y ∷ ys) h = cc
text_eq_sound (x ∷ xs) [] h = cc

pub text_eq_refl : (a : Text) → text_eq a a ≡ true
unfolding text_eq
text_eq_refl [] = refl
text_eq_refl (x ∷ xs) = ground (arith, text_eq_refl xs)

pub text_eq_iff : (a b : Text) → (text_eq a b ≡ true) ↔ (a ≡ b)
text_eq_iff a b = (text_eq_sound a b, λ e. rw e (text_eq_refl b))

pub text_ne : (a b : Text) → text_eq a b ≡ false → a ≢ b
text_ne a b h e = ground (arith, text_eq_iff a b)

unfoldable pub starts_with : Text → Text → Bool
starts_with [] s = true
starts_with (p ∷ ps) [] = false
starts_with (p ∷ ps) (c ∷ s) = p == c && starts_with ps s

-- `ends_with suffix s`: `s` itself, or one of its tails, is `suffix`.
unfoldable pub ends_with : Text → Text → Bool
ends_with suffix [] = text_eq suffix []
ends_with suffix (c ∷ s) = if text_eq suffix (c ∷ s) then true else ends_with suffix s

unfoldable pub contains_byte : ℕ → Text → Bool
contains_byte b [] = false
contains_byte b (c ∷ s) = if c == b then true else contains_byte b s

-- `trim_start_matches` of one byte.
unfoldable pub trim_start : ℕ → Text → Text
trim_start b [] = []
trim_start b (c ∷ s) = if c == b then trim_start b s else c ∷ s

-- A byte before a trimmed rest: it goes too, if nothing is left behind it and it is `b`.
abbrev pub trim_cons : ℕ → ℕ → Text → Text
trim_cons b c [] = if c == b then [] else c ∷ []
trim_cons b c (d ∷ r) = c ∷ d ∷ r

-- `trim_end_matches` of one byte.
unfoldable pub trim_end : ℕ → Text → Text
trim_end b [] = []
trim_end b (c ∷ s) = trim_cons b c (trim_end b s)

-- A byte in front of the first piece.
abbrev pub cons_piece : ℕ → List Text → List Text
cons_piece c [] = (c ∷ []) ∷ []
cons_piece c (p ∷ ps) = (c ∷ p) ∷ ps

-- `split` at one byte: always one piece more than there are separators.
unfoldable pub split_on : ℕ → Text → List Text
split_on b [] = [] ∷ []
split_on b (c ∷ s) = let r = split_on b s in if c == b then [] ∷ r else cons_piece c r

unfoldable pub join_with : Text → List Text → Text
join_with sep [] = []
join_with sep (p ∷ []) = p
join_with sep (p ∷ q ∷ ps) = p ++ (sep ++ join_with sep (q ∷ ps))

abbrev pub lower_byte : ℕ → ℕ
lower_byte c = if leb b'A' c && leb c b'Z' then c + 32 else c

-- `to_ascii_lowercase`.
unfoldable pub lower : Text → Text
lower s = map lower_byte s

-- `to_string` of an unsigned number: fuel for as many digits as the number can have.
digits_of : ℕ → ℕ → Text
digits_of zero n = []
digits_of (suc f) n =
    let more = digits_of f (n / 10) ++ (n % 10 + 48) ∷ [] in
    if ltb n 10 then (n + 48) ∷ [] else more

unfoldable pub decimal : ℕ → Text
unfolding digits_of
decimal n = digits_of (suc n) n

abbrev pub IsDigit : ℕ → Type 0
IsDigit c = (48 ≤ c) × (c < 58)

digits_of-IsDigit : (f n : ℕ) → All IsDigit (digits_of f n)
unfolding digits_of
digits_of-IsDigit zero n = tt
digits_of-IsDigit (suc f) n = ground (
  arith,
  All-append IsDigit (digits_of f (n / 10)) ((48 + n % 10) ∷ []) (digits_of-IsDigit f (n / 10)),
)

pub decimal-IsDigit : (n : ℕ) → All IsDigit (decimal n)
unfolding decimal
decimal-IsDigit n = digits_of-IsDigit (suc n) n

-- The number that decimal digits add to one.
unfoldable pub number_of : ℕ → Text → ℕ
number_of n [] = n
number_of n (c ∷ s) = number_of (n * 10 + (c - 48)) s

number_of-snoc :
    (n : ℕ) (s : Text) (c : ℕ) → number_of n (s ++ c ∷ []) ≡ number_of n s * 10 + (c - 48)
unfolding number_of
number_of-snoc n [] c = refl
number_of-snoc n (d ∷ s) c = number_of-snoc (n * 10 + (d - 48)) s c

number_of-digits_of : (f n : ℕ) → n < f → number_of 0 (digits_of f n) ≡ n
unfolding number_of digits_of
number_of-digits_of zero n h = omega arith
number_of-digits_of (suc f) n h =
    ground
      (arith, number_of-snoc 0 (digits_of f (n / 10)) (n % 10 + 48), number_of-digits_of f (n / 10))

pub number_of-decimal : (n : ℕ) → number_of 0 (decimal n) ≡ n
unfolding decimal
number_of-decimal n = number_of-digits_of (suc n) n (omega arith)

append_nonempty : (s : Text) (c : ℕ) → s ++ c ∷ [] ≢ []
append_nonempty [] c = λ e. cc
append_nonempty (d ∷ s) c = λ e. cc

pub decimal_nonempty : (n : ℕ) → decimal n ≢ []
unfolding decimal digits_of
decimal_nonempty n = ground (arith, append_nonempty (digits_of n (n / 10)) (n % 10 + 48))
