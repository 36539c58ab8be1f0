-- ===== src/Macros/Values/Reading.antt =====
-- crates/tork-macros/src/common.rs: what is read of a number with a unit.
use tork_framework.Base.{
  ℕ, ◌≡◌, refl, sym, ap, ◌∙◌, ◌≢◌, ◌≤◌, ◌<◌, ◌+◌, ◌*◌, ◌-◌, ◌%◌, ◌++◌, append-nil, arith, Bool,
  false, Option, none, some, [], ◌∷◌, Text, ltb, if◌then◌else◌, lookup, lower, text_eq,
  text_eq_sound, All, IsDigit, decimal, decimal-IsDigit, number_of, number_of-decimal,
  decimal_nonempty,
}
use tork_framework.Middleware.BodyLimit.{parse_usize, digits_value}
use tork_framework.Macros.Values.{
  is_whitespace, trim, trim_left, trim_right, strip_suffix, Units, size_units, duration_units,
  strip_unit, behind, unit_or, scaled, scaled_unit, parse_lower, value, overflow, multiplied,
  parse_size, parse_duration_ms,
}

digit-is_whitespace : (c : ℕ) → IsDigit c → is_whitespace c ≡ false
digit-is_whitespace c h = ground arith

trim_right-digits : (d : Text) → All IsDigit d → trim_right d ≡ d
unfolding trim_right
trim_right-digits [] h = refl
trim_right-digits (c ∷ d) h = ground (arith, trim_right-digits d, digit-is_whitespace c)

trim_left-digits : (d : Text) → All IsDigit d → trim_left d ≡ d
unfolding trim_left
trim_left-digits [] h = refl
trim_left-digits (c ∷ d) h = rw (digit-is_whitespace c h.0) refl

trim-digits : (d : Text) → All IsDigit d → trim d ≡ d
trim-digits d h = ap trim_left (trim_right-digits d h) ∙ trim_left-digits d h

digits_value-number_of :
    (n : ℕ) (d : Text)
    → All IsDigit d
    → number_of n d < 18_446_744_073_709_551_616
    → digits_value n d ≡ some (number_of n d)
unfolding digits_value number_of
digits_value-number_of n [] h small = ground arith
digits_value-number_of n (c ∷ d) h small =
    ground (arith, digits_value-number_of (n * 10 + (c - 48)) d)

parse_usize-digits : (d : Text) → All IsDigit d → d ≢ [] → parse_usize d ≡ digits_value 0 d
unfolding parse_usize
parse_usize-digits [] h some_digit = elim (some_digit refl) [ ]
parse_usize-digits (c ∷ d) h some_digit = ground arith

parse_usize-decimal : (n : ℕ) → n < 18_446_744_073_709_551_616 → parse_usize (decimal n) ≡ some n
parse_usize-decimal n small =
    parse_usize-digits (decimal n) (decimal-IsDigit n) (decimal_nonempty n)
    ∙ digits_value-number_of 0 (decimal n) (decimal-IsDigit n) (rw (number_of-decimal n) small)
    ∙ ap some (number_of-decimal n)

-- A text before what a suffix leaves.
abbrev pub before : Text → Option Text → Option Text
before d none = none
before d (some s) = some (d ++ s)

before_nil : (o : Option Text) → o ≡ before [] o
before_nil none = refl
before_nil (some s) = refl

behind-before : (c : ℕ) (d : Text) (o : Option Text) → behind c (before d o) ≡ before (c ∷ d) o
behind-before c d none = refl
behind-before c d (some s) = refl

strip_suffix-digits :
    (d s x : Text) (a : ℕ)
    → All IsDigit d
    → 58 ≤ a
    → strip_suffix (a ∷ x) (d ++ s) ≡ before d (strip_suffix (a ∷ x) s)
unfolding strip_suffix text_eq
strip_suffix-digits [] s x a h letter = before_nil (strip_suffix (a ∷ x) s)
strip_suffix-digits (c ∷ d) s x a h letter =
    ground (arith, strip_suffix-digits d s x a, behind-before c d (strip_suffix (a ∷ x) s))

-- A unit begins with a letter.
abbrev pub IsUnit : Text → Type 0
IsUnit [] = ⊥
IsUnit (a ∷ x) = 58 ≤ a

abbrev pub AreUnits : Units → Type 0
AreUnits [] = Unit
AreUnits ((x, m) ∷ us) = IsUnit x × AreUnits us

abbrev pub before_unit : Text → Option (Text × ℕ) → Option (Text × ℕ)
before_unit d none = none
before_unit d (some (s, m)) = some (d ++ s, m)

unit_or-before :
    (m : ℕ) (d : Text) (o : Option Text) (later : Option (Text × ℕ))
    → unit_or m (before d o) (before_unit d later) ≡ before_unit d (unit_or m o later)
unit_or-before m d none later = refl
unit_or-before m d (some s) later = refl

strip_unit-digits :
    (us : Units) (d s : Text)
    → AreUnits us
    → All IsDigit d
    → strip_unit us (d ++ s) ≡ before_unit d (strip_unit us s)
unfolding strip_unit
strip_unit-digits [] d s units h = refl
strip_unit-digits (([], m) ∷ us) d s units h = elim units.0 [ ]
strip_unit-digits ((a ∷ x, m) ∷ us) d s units h =
    ap (λ o. unit_or m o (strip_unit us (d ++ s))) (strip_suffix-digits d s x a h units.0)
    ∙ ap (unit_or m (before d (strip_suffix (a ∷ x) s))) (strip_unit-digits us d s units.1 h)
    ∙ unit_or-before m d (strip_suffix (a ∷ x) s) (strip_unit us s)

-- Each unit by itself is read as nothing with its multiplier.
abbrev pub IsReadBy : Units → Units → Type 0
IsReadBy all [] = Unit
IsReadBy all ((x, m) ∷ us) = (strip_unit all x ≡ some ([], m)) × IsReadBy all us

lookup-IsReadBy :
    (all us : Units) (suffix : Text) (m : ℕ)
    → IsReadBy all us
    → lookup suffix us ≡ some m
    → strip_unit all suffix ≡ some ([], m)
unfolding lookup
lookup-IsReadBy all [] suffix m h found = cc
lookup-IsReadBy all ((x, k) ∷ us) suffix m h found =
    ground (arith, text_eq_sound x suffix, lookup-IsReadBy all us suffix m)

module _ (us : Units) (plain : ℕ) (checks : Bool) (n : ℕ) (units : AreUnits us)
    (small : n < 18_446_744_073_709_551_616) where
  parse_lower-unit :
      (suffix : Text) (m : ℕ)
      → strip_unit us suffix ≡ some ([], m)
      → parse_lower us plain checks (decimal n ++ suffix) ≡ multiplied checks n m
  parse_lower-unit suffix m e =
      ap (scaled_unit plain checks (decimal n ++ suffix)) (
        strip_unit-digits us (decimal n) suffix units (decimal-IsDigit n)
        ∙ ap (before_unit (decimal n)) e)
      ∙ ap (λ t. scaled checks m (parse_usize (trim t))) (append-nil (decimal n))
      ∙ ap (λ t. scaled checks m (parse_usize t)) (trim-digits (decimal n) (decimal-IsDigit n))
      ∙ ap (scaled checks m) (parse_usize-decimal n small)

  parse_lower-plain :
      strip_unit us [] ≡ none
      → parse_lower us plain checks (decimal n ++ []) ≡ multiplied checks n plain
  parse_lower-plain e =
      ap (scaled_unit plain checks (decimal n ++ [])) (
        strip_unit-digits us (decimal n) [] units (decimal-IsDigit n)
        ∙ ap (before_unit (decimal n)) e)
      ∙ ap (λ t. scaled checks plain (parse_usize t)) (append-nil (decimal n))
      ∙ ap (scaled checks plain) (parse_usize-decimal n small)

  -- The missing unit, or one of the units.
  parse_lower-lookup :
      (suffix : Text) (m : ℕ)
      → strip_unit us [] ≡ none
      → IsReadBy us us
      → lookup suffix (([], plain) ∷ us) ≡ some m
      → parse_lower us plain checks (decimal n ++ suffix) ≡ multiplied checks n m
  unfolding lookup text_eq
  parse_lower-lookup [] m no_unit read found = rw (sym (some-inj found)) (parse_lower-plain no_unit)
    where
      some-inj : some plain ≡ some m → plain ≡ m
      some-inj q = cc
  parse_lower-lookup (c ∷ s) m no_unit read found =
      parse_lower-unit (c ∷ s) m (lookup-IsReadBy us us (c ∷ s) m read found)

-- A size that is written in decimal, in either case and with any space around it, is the number
-- times the multiplier of its unit, or of bytes if it has none, where this has at most 64 bits;
-- where it has more, the multiplication panics in a build with checks, and without them the size is
-- what is left of it in 64 bits.
pub parse_size-written :
    (checks : Bool) (text suffix : Text) (n m : ℕ)
    → n < 18_446_744_073_709_551_616
    → lookup suffix (([], 1) ∷ size_units) ≡ some m
    → lower (trim text) ≡ decimal n ++ suffix
    → parse_size checks text ≡ (
        if ltb (n * m) 18_446_744_073_709_551_616
        then value (n * m)
        else if checks
        then overflow
        else value (n * m % 18_446_744_073_709_551_616))
unfolding parse_size strip_unit strip_suffix text_eq
parse_size-written checks text suffix n m small found written =
    ap (parse_lower size_units 1 checks) written
    ∙ parse_lower-lookup size_units 1 checks n
        (
          omega arith,
          (
            omega arith,
            (omega arith, (omega arith, (omega arith, (omega arith, (omega arith, tt))))),
          ),
        )
        small suffix m refl (refl, (refl, (refl, (refl, (refl, (refl, (refl, tt))))))) found

-- The same of a duration, which is in seconds if it has no unit.
pub parse_duration_ms-written :
    (checks : Bool) (text suffix : Text) (n m : ℕ)
    → n < 18_446_744_073_709_551_616
    → lookup suffix (([], 1000) ∷ duration_units) ≡ some m
    → lower (trim text) ≡ decimal n ++ suffix
    → parse_duration_ms checks text ≡ (
        if ltb (n * m) 18_446_744_073_709_551_616
        then value (n * m)
        else if checks
        then overflow
        else value (n * m % 18_446_744_073_709_551_616))
unfolding parse_duration_ms strip_unit strip_suffix text_eq
parse_duration_ms-written checks text suffix n m small found written =
    ap (parse_lower duration_units 1000 checks) written
    ∙ parse_lower-lookup duration_units 1000 checks n
        (omega arith, (omega arith, (omega arith, (omega arith, tt)))) small suffix m refl
        (refl, (refl, (refl, (refl, tt)))) found
