-- ===== src/Error/Redaction.antt =====
-- What a client reads of a server error.
use tork_framework.Base.{◌≡◌, true, false, Text, arith}
use tork_framework.Error.{Error, StatusApi, response_status, error_body, code}

module _ (h : StatusApi) (trace_id timestamp : Text) where
  -- Two errors of one server-error status and one code render to the same body, whatever their
  -- messages, details and causes are.
  pub redacted :
      (e f : Error)
      → response_status h e ≡ response_status h f
      → code e ≡ code f
      → h.is_server_error (response_status h e) ≡ true
      → error_body h e trace_id timestamp ≡ error_body h f trace_id timestamp
  unfolding error_body
  redacted e f s c server = ground arith

  -- For any other status the message and the details are the error's own.
  pub client_error_shown :
      (e : Error)
      → h.is_server_error (response_status h e) ≡ false
      → ((error_body h e trace_id timestamp).message ≡ e.message)
        × ((error_body h e trace_id timestamp).details ≡ e.details)
  unfolding error_body
  client_error_shown e client = ground arith
