-- ===== src/Middleware/BodyLimit.antt =====
-- crates/tork-core/src/middleware/body_limit.rs: the declared and the read size of a body. Sizes
-- are below 2^64, and sums of them do not overflow.
pub mod Reading
use tork_framework.Base.{
  ℕ, suc, ◌+◌, ◌-◌, ◌*◌, ◌++◌, Bool, true, false, ◌&&◌, Option, none, some, List, [], ◌∷◌, Text,
  bytes, and_then, leb, ltb, ◌==◌, if◌then◌else◌, length,
}
use tork_framework.Error.{Error, Result, ok, err, bad_request_error, payload_too_large_error}
use tork_framework.Middleware.Http.{
  Http, Request, Response, Handler, Frame, chunk, trailers, failure,
}

-- `BodyLimit` holds its limit in bytes.
abbrev pub BodyLimit : Type 0
BodyLimit = ℕ

abbrev pub kb : ℕ → BodyLimit
kb limit = limit * 1024

abbrev pub mb : ℕ → BodyLimit
mb limit = limit * 1_048_576

-- `parse::<usize>`: a plus sign or none, and digits of a number below 2^64.
unfoldable pub digits_value : ℕ → Text → Option ℕ
digits_value n [] = if ltb n 18_446_744_073_709_551_616 then some n else none
digits_value n (c ∷ s) =
    let rest = digits_value (n * 10 + (c - 48)) s in if leb b'0' c && leb c b'9' then rest else none

abbrev pub unsigned : Text → Option ℕ
unsigned [] = none
unsigned (c ∷ s) = digits_value 0 (c ∷ s)

unfoldable pub parse_usize : Text → Option ℕ
parse_usize [] = none
parse_usize (c ∷ s) = if c == b'+' then unsigned s else unsigned (c ∷ s)

abbrev pub too_large : Error
too_large = payload_too_large_error (bytes "request body too large")

abbrev pub frame_error : Option Error → Error
frame_error (some e) = e
frame_error none = bad_request_error (bytes "request body could not be read")

unfoldable pub read_body_with_limit : (limit seen : ℕ) (buffer : Text) → List Frame → Result Text
read_body_with_limit limit seen buffer [] = ok buffer
read_body_with_limit limit seen buffer (failure e ∷ fs) = err (frame_error e)
read_body_with_limit limit seen buffer (trailers ∷ fs) = read_body_with_limit limit seen buffer fs
read_body_with_limit limit seen buffer (chunk t ∷ fs) =
    let rest = read_body_with_limit limit (seen + length t) (buffer ++ t) fs in
    if ltb limit (seen + length t) then err too_large else rest

module _ (h : Http) where
  abbrev pub declared : Request h → Option ℕ
  declared r =
      and_then (h.get (bytes "content-length") r.headers) λ v. and_then (h.to_str v) parse_usize

  abbrev pub is_over : ℕ → Option ℕ → Bool
  is_over limit none = false
  is_over limit (some n) = ltb limit n

  -- The request with its body buffered.
  abbrev pub buffered :
      {S : Type 0} → Handler h S → Request h → S → Result Text → S × Result (Response h)
  buffered next r s (err e) = (s, err e)
  buffered next r s (ok t) = next (record r { frames = chunk t ∷ [] }) s

  unfoldable pub handle_body_limit : {S : Type 0} → BodyLimit → Handler h S → Handler h S
  handle_body_limit limit next r s =
      if is_over limit (declared r)
      then (s, err too_large)
      else buffered next r s (read_body_with_limit limit 0 [] r.frames)
