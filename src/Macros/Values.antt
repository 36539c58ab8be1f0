-- ===== src/Macros/Values.antt =====
-- crates/tork-macros/src/common.rs: the sizes and durations that attributes of the macros give, such
-- as "64KB" and "2m". A literal is the list of its characters. `usize` and `u64` have 64 bits.
pub mod Reading
use tork_framework.Base.{
  ℕ, ◌*◌, ◌%◌, Bool, ◌&&◌, ◌||◌, Option, none, some, List, [], ◌∷◌, Text, bytes, ◌==◌, ltb, leb,
  if◌then◌else◌, is_empty, text_eq, lower,
}
use tork_framework.Middleware.BodyLimit.{parse_usize}

-- `char::is_whitespace`.
abbrev pub is_whitespace : ℕ → Bool
is_whitespace c =
    (leb 9 c && leb c 13)
    || c == 32
    || c == 133
    || c == 160
    || c == 5760
    || (leb 8192 c && leb c 8202)
    || c == 8232
    || c == 8233
    || c == 8239
    || c == 8287
    || c == 12288

unfoldable pub trim_left : Text → Text
trim_left [] = []
trim_left (c ∷ s) = let rest = trim_left s in if is_whitespace c then rest else c ∷ s

unfoldable pub trim_right : Text → Text
trim_right [] = []
trim_right (c ∷ s) =
    let rest = trim_right s in if is_empty rest && is_whitespace c then [] else c ∷ rest

abbrev pub trim : Text → Text
trim s = trim_left (trim_right s)

-- A character before what a suffix leaves.
abbrev pub behind : ℕ → Option Text → Option Text
behind c none = none
behind c (some s) = some (c ∷ s)

unfoldable pub strip_suffix : Text → Text → Option Text
strip_suffix suffix [] = if is_empty suffix then some [] else none
strip_suffix suffix (c ∷ s) =
    let rest = strip_suffix suffix s in if text_eq (c ∷ s) suffix then some [] else behind c rest

-- Units with their multipliers.
abbrev pub Units : Type 0
Units = List (Text × ℕ)

abbrev pub size_units : Units
size_units =
    (bytes "mib", 1_048_576)
    ∷ (bytes "kib", 1024)
    ∷ (bytes "mb", 1_048_576)
    ∷ (bytes "kb", 1024)
    ∷ (bytes "m", 1_048_576)
    ∷ (bytes "k", 1024)
    ∷ (bytes "b", 1)
    ∷ []

abbrev pub duration_units : Units
duration_units =
    (bytes "ms", 1) ∷ (bytes "s", 1000) ∷ (bytes "m", 60_000) ∷ (bytes "h", 3_600_000) ∷ []

abbrev pub unit_or : (multiplier : ℕ) → Option Text → Option (Text × ℕ) → Option (Text × ℕ)
unit_or m none later = later
unit_or m (some number) later = some (number, m)

-- The first unit that ends the text: what stands before it, and its multiplier.
unfoldable pub strip_unit : Units → Text → Option (Text × ℕ)
strip_unit [] s = none
strip_unit ((suffix, m) ∷ us) s =
    let later = strip_unit us s in unit_or m (strip_suffix suffix s) later

-- A value, an error at the literal, or the panic of a checked multiplication.
pub data Parsed : Type 0 where
  value : ℕ → Parsed
  invalid overflow : Parsed

-- Builds differ in whether arithmetic is checked; where it is not, it wraps around.
abbrev pub multiplied : (checks : Bool) → (number multiplier : ℕ) → Parsed
multiplied checks n m =
    if ltb (n * m) 18_446_744_073_709_551_616
    then value (n * m)
    else if checks
    then overflow
    else value (n * m % 18_446_744_073_709_551_616)

abbrev pub scaled : (checks : Bool) → (multiplier : ℕ) → Option ℕ → Parsed
scaled checks m none = invalid
scaled checks m (some n) = multiplied checks n m

-- What is left of the text, with the multiplier of its unit; without a unit, all of it with `plain`.
abbrev pub scaled_unit : (plain : ℕ) → (checks : Bool) → Text → Option (Text × ℕ) → Parsed
scaled_unit plain checks s none = scaled checks plain (parse_usize s)
scaled_unit plain checks s (some (number, m)) = scaled checks m (parse_usize (trim number))

abbrev pub parse_lower : Units → (plain : ℕ) → (checks : Bool) → Text → Parsed
parse_lower us plain checks s = scaled_unit plain checks s (strip_unit us s)

abbrev pub parse_units : Units → (plain : ℕ) → (checks : Bool) → Text → Parsed
parse_units us plain checks text = parse_lower us plain checks (lower (trim text))

unfoldable pub parse_size : (checks : Bool) → Text → Parsed
parse_size = parse_units size_units 1

unfoldable pub parse_duration_ms : (checks : Bool) → Text → Parsed
parse_duration_ms = parse_units duration_units 1000
