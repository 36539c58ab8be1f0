-- ===== src/Extract/Tests.antt =====
-- Tests of the body extractors, and their theorems at concrete inputs.
use tork_framework.Base.{
  ◌↔◌, true, false, some, Text, lookup, text_eq, All, arith, ◌≡◌, refl, ◌++◌, List, [], ◌∷◌, bytes,
  leb, if◌then◌else◌,
}
use tork_framework.Error.{ok, err}
use tork_framework.Middleware.Http.{Frame, chunk, trailers}
use tork_framework.Extract.Body.{
  ensure_json_depth_within_limit, scan, scan_byte, max_json_nesting, too_deep, CappedBody,
  poll_capped,
}
use tork_framework.Extract.Nesting.{
  Json, scalar, array, object, last, member, field, plain, escape, print, depth, IsJson,
  ensure-print,
}
use tork_framework.Extract.Capping.{sent}
use tork_framework.Instances.{pairs}
use tork_framework.Security.{constant_time_eq, difference, bit_or, bit_xor}
use tork_framework.Security.Comparing.{IsByte}
use tork_framework.Middleware.Hosts.{strip_prefix}
use tork_framework.Extract.Bearer.{resolve, token, bearer_prefix}
use tork_framework.Extract.Bearer.Checking.{token-resolve}

-- {"a\"[":[1]}
abbrev document : Json
document = object (
    field [] (plain b'a' ∷ escape b'"' ∷ plain b'[' ∷ []) (bytes ":")
      (array (member [] (scalar (bytes "1")) (last []))) (last []))

document_tests :
    (print document []
      ≡ bytes "{" ++ b'"' ∷ bytes "a" ++ b'\\' ∷ b'"' ∷ bytes "[" ++ b'"' ∷ bytes ":[1]}")
    × (depth document ≡ 2)
    × (ensure_json_depth_within_limit (print document []) ≡ ok tt)
unfolding print depth ensure_json_depth_within_limit scan scan_byte
document_tests = (refl, refl, refl)

ensure-print_example :
    ensure_json_depth_within_limit (print document [])
    ≡ (if leb (depth document) max_json_nesting then ok tt else err too_deep)
unfolding IsJson
ensure-print_example =
    ensure-print document (tt, (refl, refl, (refl, refl, tt)), (refl, tt), (tt, (refl, tt), tt), tt)

abbrev download : List Frame
download = chunk (bytes "abc") ∷ trailers ∷ chunk (bytes "de") ∷ chunk (bytes "f") ∷ []

abbrev four : CappedBody
four = record { emitted = 0; limit = 4 }

sent_test : sent download four ≡ 3
unfolding sent poll_capped
sent_test = refl

comparison_tests :
    (constant_time_eq (bytes "abc") (bytes "abc") ≡ true)
    × (constant_time_eq (bytes "abc") (bytes "bbc") ≡ false)
    × (constant_time_eq (bytes "ab") (bytes "abc") ≡ false)
unfolding constant_time_eq difference bit_or bit_xor
comparison_tests = (refl, refl, refl)

abbrev signed_in : List (Text × Text)
signed_in = (bytes "authorization", bytes "Bearer s3") ∷ []

signed_in-accepted : resolve pairs signed_in ≡ ok (bytes "Bearer s3")
unfolding resolve lookup text_eq strip_prefix
signed_in-accepted = refl

secret-bytes : All IsByte (bytes "s3")
secret-bytes = omega arith

header-bytes : All IsByte (bytes "Bearer s3")
header-bytes = omega arith

token-resolve_example :
    (t : Text) × (lookup (bytes "authorization") signed_in ≡ some (bytes "Bearer s3"))
    × (token pairs (bytes "Bearer s3") ≡ some t)
    × ((constant_time_eq t (bytes "s3") ≡ true) ↔ (bytes "Bearer s3" ≡ bearer_prefix ++ bytes "s3"))
token-resolve_example =
    token-resolve pairs signed_in (bytes "Bearer s3") (bytes "Bearer s3") (bytes "s3")
      signed_in-accepted refl header-bytes secret-bytes
