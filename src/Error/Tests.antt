-- ===== src/Error/Tests.antt =====
-- Tests, and the theorems on errors at concrete inputs.
use tork_framework.Base.{◌≡◌, refl, Text, bytes}
use tork_framework.Instances.{codes}
use tork_framework.Error.{
  Error, Cause, internal, not_found, bad_request, status, from_status, http, response_status, error,
  error_body, with_source, code, kind_code,
}
use tork_framework.Error.Redaction.{redacted}

abbrev teapot : Text
teapot = bytes "I'm a teapot"

abbrev io_error : Cause
io_error = record { type_id = 7; text = bytes "disk full" }

abbrev failed : Error
failed = with_source io_error (error internal (bytes "could not write /var/data"))

abbrev other_failed : Error
other_failed = error internal (bytes "password of db is hunter2")

http_tests :
    ((http codes 418 teapot).kind ≡ bad_request)
    × (response_status codes (http codes 99 teapot) ≡ 500)
    × ((http codes 404 teapot).kind ≡ not_found)
unfolding http from_status status
http_tests = (refl, refl, refl)

redacted_example :
    error_body codes failed (bytes "req-1") (bytes "now")
    ≡ error_body codes other_failed (bytes "req-1") (bytes "now")
unfolding code kind_code status
redacted_example = redacted codes (bytes "req-1") (bytes "now") failed other_failed refl refl refl
