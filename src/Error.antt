-- ===== src/Error.antt =====
-- crates/tork-core/src/error.rs: the error type, its kinds and its rendering as an HTTP response.
-- A status code is the number that it stands for. What the `http` crate decides about a number is
-- the parameter `StatusApi`. A boxed cause is its type's id with its text.
pub mod Status
pub mod Recovery
pub mod Redaction
mod Tests
use tork_framework.Base.{
  ℕ, ◌≡◌, refl, ◌&&◌, Bool, true, false, Option, none, some, List, [], Text, bytes, text_eq, ◌==◌,
  leb, ltb, if◌then◌else◌, unwrap_or,
}

pub data ErrorKind : Type 0 where
  bad_request unauthorized forbidden not_found method_not_allowed conflict : ErrorKind
  payload_too_large unprocessable too_many_requests internal : ErrorKind
  service_unavailable gateway_timeout : ErrorKind

unfoldable pub status : ErrorKind → ℕ
status bad_request = 400
status unauthorized = 401
status forbidden = 403
status not_found = 404
status method_not_allowed = 405
status conflict = 409
status payload_too_large = 413
status unprocessable = 422
status too_many_requests = 429
status internal = 500
status service_unavailable = 503
status gateway_timeout = 504

unfoldable pub kind_code : ErrorKind → Text
kind_code bad_request = bytes "BAD_REQUEST"
kind_code unauthorized = bytes "UNAUTHORIZED"
kind_code forbidden = bytes "FORBIDDEN"
kind_code not_found = bytes "NOT_FOUND"
kind_code method_not_allowed = bytes "METHOD_NOT_ALLOWED"
kind_code conflict = bytes "CONFLICT"
kind_code payload_too_large = bytes "PAYLOAD_TOO_LARGE"
kind_code unprocessable = bytes "UNPROCESSABLE_ENTITY"
kind_code too_many_requests = bytes "TOO_MANY_REQUESTS"
kind_code internal = bytes "INTERNAL_SERVER_ERROR"
kind_code service_unavailable = bytes "SERVICE_UNAVAILABLE"
kind_code gateway_timeout = bytes "GATEWAY_TIMEOUT"

unfoldable pub from_status : ℕ → Option ErrorKind
from_status n =
    if n == 400
    then some bad_request
    else if n == 401
    then some unauthorized
    else if n == 403
    then some forbidden
    else if n == 404
    then some not_found
    else if n == 405
    then some method_not_allowed
    else if n == 409
    then some conflict
    else if n == 413
    then some payload_too_large
    else if n == 422
    then some unprocessable
    else if n == 429
    then some too_many_requests
    else if n == 500
    then some internal
    else if n == 503
    then some service_unavailable
    else if n == 504
    then some gateway_timeout
    else none

pub record ErrorDetail : Type 0 where
  pub field : Text
  pub issue : Text
  pub message : Text

-- A boxed error: the id of its concrete type, and what it displays.
pub record Cause : Type 0 where
  pub type_id : ℕ
  pub text : Text

pub record Error : Type 0 where
  pub kind : ErrorKind
  pub explicit : Option ℕ
  pub code_override : Option Text
  pub message : Text
  pub source : Option Cause
  pub source_type : Option ℕ
  pub details : List ErrorDetail

-- `crate::error::Result`.
pub data Result {ℓ} (A : Type ℓ) : Type ℓ where
  ok : A → Result A
  err : Error → Result A

infixl 5 ◌>>=◌
-- The operator `?`.
abbrev pub ◌>>=◌ {ℓ κ} : {A : Type ℓ} {B : Type κ} → Result A → (A → Result B) → Result B
err refused >>= next = err refused
ok value >>= next = next value

module _ {ℓ κ} {A : Type ℓ} {B : Type κ} where
  -- If the whole succeeds, then so do both of its parts.
  pub >>=-eq-ok :
      (r : Result A) (next : A → Result B) {answer : B}
      → (r >>= next) ≡ ok answer
      → (value : A) × (r ≡ ok value) × (next value ≡ ok answer)
  >>=-eq-ok (err refused) next done = cc
  >>=-eq-ok (ok value) next done = (value, refl, done)

pub ok-injective {ℓ} : {A : Type ℓ} {a b : A} → ok a ≡ ok b → a ≡ b
ok-injective e = cc

-- `Error::new`.
abbrev pub error : ErrorKind → Text → Error
error k m = record {
  kind = k;
  explicit = none;
  code_override = none;
  message = m;
  source = none;
  source_type = none;
  details = [];
}

-- The named constructors.
abbrev pub bad_request_error : Text → Error
bad_request_error = error bad_request

abbrev pub unprocessable_error : Text → Error
unprocessable_error = error unprocessable

abbrev pub payload_too_large_error : Text → Error
payload_too_large_error = error payload_too_large

abbrev pub internal_error : Text → Error
internal_error = error internal

abbrev pub unauthorized_error : Text → Error
unauthorized_error = error unauthorized

abbrev pub not_found_error : Text → Error
not_found_error = error not_found

abbrev pub unavailable_error : Text → Error
unavailable_error = error service_unavailable

-- What the `http` crate documents of `StatusCode`: `from_u16` takes 100 to 999, and a server error
-- is a code from 500 to 599.
pub record StatusApi : Type 0 where
  pub from_u16 : ℕ → Option ℕ
  pub is_server_error : ℕ → Bool
  pub canonical_reason : ℕ → Option Text
  pub from_u16_lem : (n : ℕ) → from_u16 n ≡ (if leb 100 n && ltb n 1000 then some n else none)
  pub is_server_error_lem : (n : ℕ) → is_server_error n ≡ (leb 500 n && ltb n 600)

abbrev pub with_code : Text → Error → Error
with_code c e = record e { code_override = some c }

abbrev pub with_source : Cause → Error → Error
with_source c e = record e { source = some c; source_type = some c.type_id }

abbrev pub with_details : List ErrorDetail → Error → Error
with_details ds e = record e { details = ds }

pub code : Error → Text
code e = unwrap_or e.code_override (kind_code e.kind)

abbrev pub validation_error_code : Text
validation_error_code = bytes "VALIDATION_ERROR"

unfoldable pub is_validation : Error → Bool
unfolding code
is_validation e = text_eq (code e) validation_error_code

-- The slot of the downcast: the cause, if its type is the one asked for.
downcast : ℕ → Cause → Option Cause
downcast t c = if c.type_id == t then some c else none

-- `take_source::<E>` at the type with id `t`: the error after it, and the cause if it was taken.
pub take_source : ℕ → Error → Error × Option Cause
unfolding downcast
take_source t e = elim e.source_type [
  | none ↦ (e, none)
  | some u ↦ elim (u == t) [
    | false ↦ (e, none)
    | true ↦ elim e.source [
      | none ↦ (e, none)
      | some c ↦ elim (downcast t c) [
        | some d ↦ (record e { source = none; source_type = none }, some d)
        | none ↦ (record e { source = some c; source_type = some t }, none)
      ]
    ]
  ]
]

-- The fields of `ErrorBody`, before serde writes them; the trace id and the time are inputs.
pub record ErrorBody : Type 0 where
  pub status : ℕ
  pub code : Text
  pub title : Text
  pub message : Text
  pub details : List ErrorDetail
  pub trace_id : Text
  pub timestamp : Text

abbrev pub internal_error_message : Text
internal_error_message = bytes "Internal server error"

module _ (h : StatusApi) where
  -- `Error::http`.
  pub http : ℕ → Text → Error
  http n m =
      let s = unwrap_or (h.from_u16 n) 500 in
      let other = if h.is_server_error s then internal else bad_request in
      record (error (unwrap_or (from_status s) other) m) { explicit = some s }

  abbrev pub response_status : Error → ℕ
  response_status e = unwrap_or e.explicit (status e.kind)

  -- The body that `into_response` serializes; its status is also the response's.
  pub error_body : Error → Text → Text → ErrorBody
  unfolding code
  error_body e trace_id timestamp =
      let s = response_status e in
      record {
        status = s;
        code = code e;
        title = unwrap_or (h.canonical_reason s) (bytes "Error");
        message = if h.is_server_error s then internal_error_message else e.message;
        details = if h.is_server_error s then [] else e.details;
        trace_id = trace_id;
        timestamp = timestamp;
      }
