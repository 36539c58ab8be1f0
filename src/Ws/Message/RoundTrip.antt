-- ===== src/Ws/Message/RoundTrip.antt =====
-- Messages on their way through tungstenite.
use tork_framework.Base.{ℕ, ◌≡◌, refl, ap, none, some, arith}
use tork_framework.Ws.Message.{
  as_u16, from_u16, WsMessage, text, binary, ping, pong, close, Tungstenite, into_tungstenite,
  from_tungstenite,
}

-- Every number is read back from its close code.
pub as_u16-from_u16 : (n : ℕ) → as_u16 (from_u16 n) ≡ n
unfolding as_u16 from_u16
as_u16-from_u16 n = ground arith

-- A message whose close code, if it has one, is the named one of its number.
abbrev pub named : WsMessage → WsMessage
named (close (some c)) = close (some (record c { code = from_u16 (as_u16 c.code) }))
named m = m

module _ (tg : Tungstenite) where
  -- A message that is turned into one of tungstenite is read back as it was, except that a close
  -- code given by its number is then the named one for it, if there is one.
  pub from_tungstenite-into_tungstenite :
      (m : WsMessage) → from_tungstenite tg (into_tungstenite tg m) ≡ some (named m)
  from_tungstenite-into_tungstenite (text t) = refl
  from_tungstenite-into_tungstenite (binary t) = refl
  from_tungstenite-into_tungstenite (ping t) = refl
  from_tungstenite-into_tungstenite (pong t) = refl
  from_tungstenite-into_tungstenite (close none) = refl
  from_tungstenite-into_tungstenite (close (some c)) =
      ap (λ n. some (close (some (record c { code = from_u16 n })))) (tg.into-from (as_u16 c.code))
