-- ===== src/Extract/Body.antt =====
-- crates/tork-core/src/extract/body.rs: the cap on a body that is read, and the guard on the depth of
-- a JSON text; crates/tork-core/src/body.rs: the cap on a body that is sent. The parser of serde_json
-- is a parameter.
use tork_framework.Base.{
  ℕ, ◌+◌, ◌-◌, ◌++◌, Bool, true, false, ◌||◌, Option, none, some, List, [], ◌∷◌, Text, bytes, ltb,
  ◌==◌, if◌then◌else◌, length, min, unwrap_or, decimal,
}
use tork_framework.Error.{Error, Result, ok, err, ◌>>=◌, bad_request_error, unprocessable_error}
use tork_framework.Middleware.Http.{Frame, chunk, trailers, failure}
use tork_framework.Middleware.BodyLimit.{frame_error}

abbrev pub max_json_nesting : ℕ
max_json_nesting = 128

-- The loop's three variables.
pub record Scan : Type 0 where
  pub depth : ℕ
  pub in_string : Bool
  pub escaped : Bool

abbrev pub outside : ℕ → Scan
outside d = record { depth = d; in_string = false; escaped = false }

abbrev pub too_deep : Error
too_deep = bad_request_error (bytes "request body is too deeply nested")

abbrev pub string_byte : ℕ → Scan → Scan
string_byte c st =
    if st.escaped
    then record st { escaped = false }
    else if c == b'\\'
    then record st { escaped = true }
    else if c == b'"'
    then record st { in_string = false }
    else st

abbrev pub opened : Scan → Option Scan
opened st =
    if ltb max_json_nesting (st.depth + 1) then none else some (record st { depth = st.depth + 1 })

-- One round of the loop; `none` is the early return.
unfoldable pub scan_byte : ℕ → Scan → Option Scan
scan_byte c st =
    if st.in_string
    then some (string_byte c st)
    else if c == b'"'
    then some (record st { in_string = true })
    else if c == b'{' || c == b'['
    then opened st
    else if c == b'}' || c == b']'
    then some (record st { depth = st.depth - 1 })
    else some st

unfoldable pub scan : Text → Scan → Result (Unit {0})
scan [] st = ok tt
scan (c ∷ s) st = elim (scan_byte c st) [ none ↦ err too_deep | some next ↦ scan s next ]

unfoldable pub ensure_json_depth_within_limit : Text → Result (Unit {0})
ensure_json_depth_within_limit s = scan s (outside 0)

abbrev pub max_body_bytes : ℕ
max_body_bytes = 2_097_152

-- The cap that the app is configured with.
abbrev pub configured_body_limit : Option ℕ → ℕ
configured_body_limit o = unwrap_or o max_body_bytes

unfoldable pub read_body_capped_with : ℕ → Text → List Frame → Result Text
read_body_capped_with limit buffer [] = ok buffer
read_body_capped_with limit buffer (failure e ∷ fs) = err (frame_error e)
read_body_capped_with limit buffer (trailers ∷ fs) = read_body_capped_with limit buffer fs
read_body_capped_with limit buffer (chunk t ∷ fs) =
    let rest = read_body_capped_with limit (buffer ++ t) fs in
    if ltb limit (length buffer + length t)
    then err (bad_request_error (bytes "request body is too large"))
    else rest

module _ {ℓ} {A : Type ℓ} where
  abbrev pub valid_json : Option A → Result A
  valid_json none = err (unprocessable_error (bytes "request body is not valid JSON"))
  valid_json (some a) = ok a

  -- `Json::from_request`
  unfoldable pub json_from_request : (Text → Option A) → Option ℕ → Result (List Frame) → Result A
  json_from_request from_slice configured taken = taken >>= λ body.
      read_body_capped_with (configured_body_limit configured) [] body >>= λ t.
      ensure_json_depth_within_limit t >>= λ _. valid_json (from_slice t)

-- `CappedBody`: what it has emitted, and its limit.
pub record CappedBody : Type 0 where
  pub emitted : ℕ
  pub limit : ℕ

-- What a poll hands on: a frame, or the error of a body over its limit.
pub data Emission : Type 0 where
  passed : Frame → Emission
  exceeded : Text → Emission

abbrev pub limit_message : ℕ → Text
limit_message limit = bytes "response body exceeded the " ++ (decimal limit ++ bytes "-byte limit")

-- `saturating_add` on u64.
abbrev pub saturating_add : ℕ → ℕ → ℕ
saturating_add a b = min (a + b) 18_446_744_073_709_551_615

-- A poll in which the inner body yields a frame.
unfoldable pub poll_capped : Frame → CappedBody → CappedBody × Emission
poll_capped (chunk t) b =
    let total = saturating_add b.emitted (length t) in
    (
      record b { emitted = total },
      if ltb b.limit total then exceeded (limit_message b.limit) else passed (chunk t),
    )
poll_capped trailers b = (b, passed trailers)
poll_capped (failure e) b = (b, passed (failure e))
