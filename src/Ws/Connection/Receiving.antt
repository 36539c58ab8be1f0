-- ===== src/Ws/Connection/Receiving.antt =====
-- The loops around `recv`.
use tork_framework.Base.{◌≡◌, refl, Option, none, some, List, [], ◌∷◌}
use tork_framework.Error.{Result, ok, err}
use tork_framework.Ws.Message.{WsMessage, Tungstenite}
use tork_framework.Ws.Connection.{
  WebSocketConn, Round, Answer, on_round, or_next, recv, picked, after_round, receive,
}

module _ (tg : Tungstenite) {A : Type 0} (pick : WsMessage → Option (Result (Option A))) where
  -- One call of `recv`, and what the loop does with its answer.
  abbrev pub after_recv :
      WebSocketConn tg × List (Round tg) × Answer tg → WebSocketConn tg × Option (Result (Option A))
  after_recv (c, rs, none) = (c, none)
  after_recv (c, rs, some (err e)) = (c, some (err e))
  after_recv (c, rs, some (ok none)) = (c, some (ok none))
  after_recv (c, rs, some (ok (some m))) = picked tg pick (receive tg pick rs) c (pick m)

  after_round-recv :
      (rs : List (Round tg)) (out : WebSocketConn tg × Answer tg)
      → ((c : WebSocketConn tg) → receive tg pick rs c ≡ after_recv (recv tg rs c))
      → after_round tg pick (receive tg pick rs) out ≡ after_recv (or_next tg rs (recv tg rs) out)
  after_round-recv rs (c, none) same = same c
  after_round-recv rs (c, some (err e)) same = refl
  after_round-recv rs (c, some (ok none)) same = refl
  after_round-recv rs (c, some (ok (some m))) same = refl

  -- unrolled
  pub receive-recv :
      (rs : List (Round tg)) (c : WebSocketConn tg)
      → receive tg pick rs c ≡ after_recv (recv tg rs c)
  unfolding receive recv
  receive-recv [] c = refl
  receive-recv (r ∷ rs) c = after_round-recv rs (on_round tg r c) (receive-recv rs)
