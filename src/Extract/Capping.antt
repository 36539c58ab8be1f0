-- ===== src/Extract/Capping.antt =====
-- What a capped body hands on, and what a capped read returns.
use tork_framework.Base.{
  ℕ, ◌+◌, ◌≤◌, ◌<◌, ◌≡◌, ◌++◌, List, [], ◌∷◌, Text, bytes, arith, leb, ltb, if◌then◌else◌, length,
  length-append, append_assoc, append-nil, Bool-cases, inl, inr, min,
}
use tork_framework.Error.{ok, err, bad_request_error}
use tork_framework.Middleware.Http.{Frame, chunk, trailers, failure}
use tork_framework.Middleware.BodyLimit.Reading.{data_of, IsWhole}
use tork_framework.Extract.Body.{
  read_body_capped_with, CappedBody, Emission, passed, exceeded, poll_capped, saturating_add,
}

-- The bytes that are handed on while frames come in.
abbrev pub size_of : Emission → ℕ
size_of (passed (chunk t)) = length t
size_of (passed trailers) = 0
size_of (passed (failure e)) = 0
size_of (exceeded m) = 0

unfoldable pub sent : List Frame → CappedBody → ℕ
sent [] b = 0
sent (f ∷ fs) b = let r = poll_capped f b in size_of r.1 + sent fs r.0

sent-le :
    (fs : List Frame) (b : CappedBody)
    → b.limit < 18_446_744_073_709_551_615
    → sent fs b + min b.emitted b.limit ≤ b.limit
unfolding sent poll_capped
sent-le [] b small = ground arith
sent-le (trailers ∷ fs) b small = ground (arith, sent-le fs b small)
sent-le (failure e ∷ fs) b small = ground (arith, sent-le fs b small)
sent-le (chunk t ∷ fs) b small =
    ground (arith, sent-le fs (record b { emitted = saturating_add b.emitted (length t) }) small)

-- A capped body hands on no more bytes than its limit, however often it is polled after it failed,
-- for a limit below the largest u64.
pub sent-bounded :
    (fs : List Frame) (b : CappedBody) → b.limit < 18_446_744_073_709_551_615 → sent fs b ≤ b.limit
sent-bounded fs b small = omega (arith, sent-le fs b small)

capped-data :
    (limit : ℕ) (fs : List Frame) (buffer : Text)
    → IsWhole fs
    → length buffer ≤ limit
    → read_body_capped_with limit buffer fs ≡ (
        if leb (length buffer + length (data_of fs)) limit
        then ok (buffer ++ data_of fs)
        else err (bad_request_error (bytes "request body is too large")))
unfolding read_body_capped_with
capped-data limit [] buffer whole fits = ground (arith, append-nil buffer)
capped-data limit (trailers ∷ fs) buffer whole fits = capped-data limit fs buffer whole fits
capped-data limit (failure e ∷ fs) buffer whole fits = elim whole [ ]
capped-data limit (chunk t ∷ fs) buffer whole fits =
    elim (Bool-cases (ltb limit (length buffer + length t))) [
      | inl over ↦ ground (arith, length-append t (data_of fs))
      | inr under ↦ ground (
        arith,
        length-append t (data_of fs),
        length-append buffer t,
        append_assoc buffer t (data_of fs),
        capped-data limit fs (buffer ++ t) whole,
      )
    ]

-- A body whose frames can all be read is read whole if it fits the cap, and refused with 400
-- otherwise.
pub read_body_capped_with-data :
    (limit : ℕ) (fs : List Frame)
    → IsWhole fs
    → read_body_capped_with limit [] fs ≡ (
        if leb (length (data_of fs)) limit
        then ok (data_of fs)
        else err (bad_request_error (bytes "request body is too large")))
read_body_capped_with-data limit fs whole =
    ground (arith, capped-data limit fs [] whole (omega arith))
