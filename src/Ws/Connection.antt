-- ===== src/Ws/Connection.antt =====
-- crates/tork-core/src/ws.rs: `WebSocket` and `WebSocketConn`. What the socket and the signal of the
-- shutdown give is a script of rounds of the loop in `recv`; what is sent and which hooks are told is
-- a log. How long a connection was open is left out. A hook is a number.
pub mod Hooks
pub mod Receiving
use tork_framework.Base.{
  ℕ, ◌++◌, Bool, true, false, ◌||◌, Option, none, some, List, [], ◌∷◌, map, Text, bytes, is_empty,
  if◌then◌else◌, and_then, unwrap_or,
}
use tork_framework.Error.{
  Result, ok, err, ◌>>=◌, Error, ErrorKind, error, too_many_requests, internal_error,
  bad_request_error, unprocessable_error,
}
use tork_framework.Ws.Config.{
  WebSocketConfig, new_config, effective_config, default_handshake_timeout,
}
use tork_framework.Ws.Limiter.{Counts, try_acquire}
use tork_framework.Ws.Message.{
  WsCloseCode, WsClose, WsMessage, text, binary, ping, pong, close, Tungstenite, TgMessage,
  tg_close, into_tungstenite, from_tungstenite, connection_error,
}

-- The permit that `from_request_context` takes, if the route or the application sets a limit, the
-- application has a limiter, and the address of the client is known.
abbrev pub too_many_connections : Error
too_many_connections =
    error too_many_requests (bytes "too many WebSocket connections from this client")

abbrev pub permit_of : Text → Counts × Bool → Counts × Result (Option Text)
permit_of ip (m, true) = (m, ok (some ip))
permit_of ip (m, false) = (m, err too_many_connections)

unfoldable pub acquire_permit :
    Option ℕ → Option ℕ → Option Text → Counts → Counts × Result (Option Text)
acquire_permit (some cap) (some limit) (some ip) m = permit_of ip (try_acquire limit ip m)
acquire_permit cap limiter peer m = (m, ok none)

module _ (tg : Tungstenite) where
  pub data Effect : Type 0 where
    sent : TgMessage tg → Effect
    told : ℕ → Option WsCloseCode → Effect

  -- `hooks` are those for a disconnect, as long as the application holds them.
  pub record WebSocketConn : Type 0 where
    pub hooks : Option (List ℕ)
    pub close_code : Option WsCloseCode
    pub hooks_fired : Bool
    pub log : List Effect

  abbrev pub accepted : Option (List ℕ) → WebSocketConn
  accepted hooks = record { hooks = hooks; close_code = none; hooks_fired = false; log = [] }

  abbrev pub tell : WebSocketConn → List ℕ → List Effect
  tell c hooks = map (λ i. told i c.close_code) hooks

  abbrev pub fire : WebSocketConn → Option (List ℕ) → WebSocketConn
  fire c none = record c { hooks_fired = true }
  fire c (some hooks) =
      if c.hooks_fired || is_empty hooks
      then c
      else record c { hooks_fired = true; log = c.log ++ tell c hooks }

  unfoldable pub fire_disconnect_hooks : WebSocketConn → WebSocketConn
  fire_disconnect_hooks c = fire c c.hooks

  -- A send, and the outcome that the socket has for it.
  abbrev pub with_sent : TgMessage tg → WebSocketConn → WebSocketConn
  with_sent m c = record c { log = c.log ++ sent m ∷ [] }

  abbrev pub outcome_of : Option Text → Result (Unit {0})
  outcome_of none = ok tt
  outcome_of (some message) = err (connection_error message)

  unfoldable pub send : WsMessage → Option Text → WebSocketConn → WebSocketConn × Result (Unit {0})
  send m o c = (with_sent (into_tungstenite tg m) c, outcome_of o)

  -- The close frame for 1001, which tungstenite names itself.
  abbrev pub going_away_frame : TgMessage tg
  going_away_frame =
      tg_close (some (record { code = tg.from 1001; reason = bytes "server shutting down" }))

  abbrev pub leave : WebSocketConn → WebSocketConn
  leave c = fire_disconnect_hooks (with_sent going_away_frame c)

  pub data FrameStep : Type 0 where
    message : TgMessage tg → FrameStep
    failure : Text → FrameStep
    idle ended : FrameStep

  pub data RecvStep : Type 0 where
    shutdown : RecvStep
    frame : FrameStep → RecvStep

  -- One round: whether the shutdown has begun when the round starts, and what comes first otherwise.
  pub record Round : Type 0 where
    pub is_down : Bool
    pub step : RecvStep

  abbrev pub code_of : Option WsClose → Option WsCloseCode → Option WsCloseCode
  code_of none code = code
  code_of (some c) code = some c.code

  abbrev pub noted : WsMessage → WebSocketConn → WebSocketConn
  noted (close o) c = fire_disconnect_hooks (record c { close_code = code_of o c.close_code })
  noted m c = c

  -- What a round answers; `none` where the loop goes on.
  abbrev pub Answer : Type 0
  Answer = Option (Result (Option WsMessage))

  abbrev pub received : Option WsMessage → WebSocketConn → WebSocketConn × Answer
  received none c = (c, none)
  received (some m) c = (noted m c, some (ok (some m)))

  abbrev pub on_step : RecvStep → WebSocketConn → WebSocketConn × Answer
  on_step shutdown c = (leave c, some (ok none))
  on_step (frame idle) c = (fire_disconnect_hooks c, some (ok none))
  on_step (frame ended) c = (fire_disconnect_hooks c, some (ok none))
  on_step (frame (failure e)) c = (c, some (err (connection_error e)))
  on_step (frame (message m)) c = received (from_tungstenite tg m) c

  unfoldable pub on_round : Round → WebSocketConn → WebSocketConn × Answer
  on_round r c = if r.is_down then (leave c, some (ok none)) else on_step r.step c

  abbrev pub or_next :
      List Round
      → (WebSocketConn → WebSocketConn × List Round × Answer)
      → WebSocketConn × Answer
      → WebSocketConn × List Round × Answer
  or_next rs again (c, none) = again c
  or_next rs again (c, some a) = (c, rs, some a)

  -- The loop, with the rounds that are left; it waits where the script ends.
  unfoldable pub recv : List Round → WebSocketConn → WebSocketConn × List Round × Answer
  recv [] c = (c, [], none)
  recv (r ∷ rs) c = or_next rs (recv rs) (on_round r c)

  -- The loops around `recv`, which pick an answer from a message, or go on.
  module _ {A : Type 0} (pick : WsMessage → Option (Result (Option A))) where
    abbrev pub picked :
        (WebSocketConn → WebSocketConn × Option (Result (Option A)))
        → WebSocketConn
        → Option (Result (Option A))
        → WebSocketConn × Option (Result (Option A))
    picked again c none = again c
    picked again c (some a) = (c, some a)

    abbrev pub after_round :
        (WebSocketConn → WebSocketConn × Option (Result (Option A)))
        → WebSocketConn × Answer
        → WebSocketConn × Option (Result (Option A))
    after_round again (c, none) = again c
    after_round again (c, some (err e)) = (c, some (err e))
    after_round again (c, some (ok none)) = (c, some (ok none))
    after_round again (c, some (ok (some m))) = picked again c (pick m)

    unfoldable pub receive : List Round → WebSocketConn → WebSocketConn × Option (Result (Option A))
    receive [] c = (c, none)
    receive (r ∷ rs) c = after_round (receive rs) (on_round r c)

  abbrev pub pick_text : WsMessage → Option (Result (Option Text))
  pick_text (text t) = some (ok (some t))
  pick_text (close c) = some (ok none)
  pick_text m = none

  abbrev pub receive_text :
      List Round → WebSocketConn → WebSocketConn × Option (Result (Option Text))
  receive_text = receive pick_text

  -- `serde_json` and `validate` are parameters.
  module _ {A : Type 0} (from_json : Text → Result A) where
    abbrev pub pick_json : WsMessage → Option (Result (Option A))
    pick_json (text t) = some (from_json t >>= λ a. ok (some a))
    pick_json (binary t) = some (from_json t >>= λ a. ok (some a))
    pick_json (close c) = some (ok none)
    pick_json m = none

    abbrev pub receive_json :
        List Round → WebSocketConn → WebSocketConn × Option (Result (Option A))
    receive_json = receive pick_json

  abbrev pub closing : WsCloseCode → Text → WsMessage
  closing code reason = close (some (record { code = code; reason = reason }))

  -- A close, with what the socket says to the message, and to the end of the stream.
  abbrev pub ended_with :
      Option Text → WebSocketConn × Result (Unit {0}) → WebSocketConn × Result (Unit {0})
  ended_with o (c, r) = (c, r >>= λ _. outcome_of o)

  unfoldable pub close_with :
      WsCloseCode
      → Text
      → Option Text
      → Option Text
      → WebSocketConn
      → WebSocketConn × Result (Unit {0})
  close_with code reason o o' c =
      ended_with o' (send (closing code reason) o (record c { close_code = some code }))

  -- The drop, which tells the hooks on a task of its own, if there is a runtime.
  abbrev pub dropped : Bool → WebSocketConn → Option (List ℕ) → WebSocketConn
  dropped runtime c none = c
  dropped runtime c (some hooks) =
      if c.hooks_fired || is_empty hooks
      then c
      else if runtime
      then record c { log = c.log ++ tell c hooks }
      else c

  unfoldable pub drop : Bool → WebSocketConn → WebSocketConn
  drop runtime c = dropped runtime c c.hooks
