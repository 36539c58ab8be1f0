-- ===== src/Macros/Tests.antt =====
-- Tests of the values of the macros, and their theorem at a concrete input.
use tork_framework.Base.{◌≡◌, refl, arith, true, false, bytes, lower, text_eq, lookup, decimal}
use tork_framework.Middleware.BodyLimit.{parse_usize, digits_value}
use tork_framework.Macros.Values.{
  parse_size, parse_duration_ms, value, invalid, strip_unit, strip_suffix, trim_left, trim_right,
}
use tork_framework.Macros.Values.Reading.{parse_size-written}

-- A duration in minutes, and a size that is not one.
duration_test : parse_duration_ms true (bytes "2m") ≡ value 120_000
unfolding parse_duration_ms strip_unit strip_suffix lower trim_left trim_right text_eq parse_usize
    digits_value
duration_test = refl

no_size_test : parse_size true (bytes "wat") ≡ invalid
unfolding parse_size strip_unit strip_suffix lower trim_left trim_right text_eq parse_usize
    digits_value
no_size_test = refl

-- Without checks, 2^44 + 1 mebibytes are one.
parse_size-written_example : parse_size false (bytes " 17592186044417MiB") ≡ value 1_048_576
unfolding lower trim_left trim_right lookup text_eq decimal
parse_size-written_example =
    parse_size-written false (bytes " 17592186044417MiB") (bytes "mib") 17_592_186_044_417 1_048_576
      (omega arith) refl refl
