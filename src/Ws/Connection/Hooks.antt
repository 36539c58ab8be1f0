-- ===== src/Ws/Connection/Hooks.antt =====
-- How often the disconnect hooks of a connection are told.
use tork_framework.Base.{ℕ, ◌≡◌, ◌⊎◌, Bool, true, false, Option, some, List, [], ◌∷◌, map, Text}
use tork_framework.Ws.Message.{WsCloseCode, WsMessage, Tungstenite}
use tork_framework.Ws.Connection.{Effect, sent, told, WebSocketConn, send, Round, recv, close_with}

module _ (tg : Tungstenite) where
  -- What the hooks were told, in order.
  abbrev pub told_in : List (Effect tg) → List (ℕ × Option WsCloseCode)
  told_in [] = []
  told_in (sent m ∷ es) = told_in es
  told_in (told i code ∷ es) = (i, code) ∷ told_in es

  abbrev pub each_told : List ℕ → Option WsCloseCode → List (ℕ × Option WsCloseCode)
  each_told hooks code = map (λ i. (i, code)) hooks

  -- Not told yet, or told once, with one code.
  abbrev pub IsOnce : List ℕ → Bool → List (ℕ × Option WsCloseCode) → Type 0
  IsOnce hooks fired ts =
      ((fired ≡ false) × (ts ≡ []))
      ⊎ ((fired ≡ true) × ((code : Option WsCloseCode) × (ts ≡ each_told hooks code)))

  record IsTold (hooks : List ℕ) (c : WebSocketConn tg) : Type 0 where
    alive : c.hooks ≡ some hooks
    once : IsOnce hooks c.hooks_fired (told_in c.log)

  -- What a handler does with a connection, in any order.
  pub data Uses : WebSocketConn tg → WebSocketConn tg → Type 0 where
    opened : (c : WebSocketConn tg) → Uses c c
    receives : (c d : WebSocketConn tg) (rs : List (Round tg)) → Uses c d → Uses c (recv tg rs d).0
    sends :
        (c d : WebSocketConn tg) (m : WsMessage) (o : Option Text)
        → Uses c d
        → Uses c (send tg m o d).0
    closes :
        (c d : WebSocketConn tg) (code : WsCloseCode) (reason : Text) (o o' : Option Text)
        → Uses c d
        → Uses c (close_with tg code reason o o' d).0
