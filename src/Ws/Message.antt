-- ===== src/Ws/Message.antt =====
-- crates/tork-core/src/ws.rs: messages, close codes and errors. A message of the crate tungstenite is
-- the parameter type of `Tungstenite` for close codes, with its own cases beside.
pub mod RoundTrip
use tork_framework.Base.{
  ℕ, ◌≡◌, ◌++◌, Bool, true, false, Option, none, some, List, Text, bytes, ◌==◌, if◌then◌else◌,
}
use tork_framework.Error.{Error, error, bad_request_error, payload_too_large_error, with_code}
use tork_framework.Error

pub data WsCloseCode : Type 0 where
  normal_closure going_away protocol_error unsupported_data policy_violation : WsCloseCode
  message_too_big internal_error : WsCloseCode
  other : ℕ → WsCloseCode

unfoldable pub as_u16 : WsCloseCode → ℕ
as_u16 normal_closure = 1000
as_u16 going_away = 1001
as_u16 protocol_error = 1002
as_u16 unsupported_data = 1003
as_u16 policy_violation = 1008
as_u16 message_too_big = 1009
as_u16 internal_error = 1011
as_u16 (other code) = code

unfoldable pub from_u16 : ℕ → WsCloseCode
from_u16 code =
    if code == 1000
    then normal_closure
    else if code == 1001
    then going_away
    else if code == 1002
    then protocol_error
    else if code == 1003
    then unsupported_data
    else if code == 1008
    then policy_violation
    else if code == 1009
    then message_too_big
    else if code == 1011
    then internal_error
    else other code

pub record WsClose : Type 0 where
  pub code : WsCloseCode
  pub reason : Text

pub data WsMessage : Type 0 where
  text binary ping pong : Text → WsMessage
  close : Option WsClose → WsMessage

pub record WsError : Type 0 where
  pub code : WsCloseCode
  pub message : Text

-- `From<WsError> for Error`
abbrev pub rejection : WsCloseCode → Text → Error
rejection policy_violation message = error Error.forbidden message
rejection message_too_big message = payload_too_large_error message
rejection code message = bad_request_error message

abbrev pub into_error : WsError → Error
into_error e = with_code (bytes "WS_REJECTED") (rejection e.code e.message)

-- tungstenite's close codes, between which and numbers it converts without a loss.
pub record Tungstenite : Type 1 where
  pub CloseCode : Type 0
  pub from : ℕ → CloseCode
  pub into : CloseCode → ℕ
  pub into-from : (n : ℕ) → into (from n) ≡ n

module _ (tg : Tungstenite) where
  pub record CloseFrame : Type 0 where
    pub code : tg.CloseCode
    pub reason : Text

  -- tungstenite's messages, with the raw frame.
  pub data TgMessage : Type 0 where
    tg_text tg_binary tg_ping tg_pong tg_frame : Text → TgMessage
    tg_close : Option CloseFrame → TgMessage

  abbrev pub close_frame : Option WsClose → Option CloseFrame
  close_frame none = none
  close_frame (some c) = some (record { code = tg.from (as_u16 c.code); reason = c.reason })

  abbrev pub into_tungstenite : WsMessage → TgMessage
  into_tungstenite (text t) = tg_text t
  into_tungstenite (binary t) = tg_binary t
  into_tungstenite (ping t) = tg_ping t
  into_tungstenite (pong t) = tg_pong t
  into_tungstenite (close c) = tg_close (close_frame c)

  abbrev pub close_of : Option CloseFrame → Option WsClose
  close_of none = none
  close_of (some f) = some (record { code = from_u16 (tg.into f.code); reason = f.reason })

  abbrev pub from_tungstenite : TgMessage → Option WsMessage
  from_tungstenite (tg_text t) = some (text t)
  from_tungstenite (tg_binary t) = some (binary t)
  from_tungstenite (tg_ping t) = some (ping t)
  from_tungstenite (tg_pong t) = some (pong t)
  from_tungstenite (tg_close f) = some (close (close_of f))
  from_tungstenite (tg_frame t) = none

abbrev pub connection_error : Text → Error
connection_error message =
    with_code (bytes "WS_CONNECTION_ERROR")
      (Error.internal_error (bytes "websocket connection error: " ++ message))
