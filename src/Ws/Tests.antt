-- ===== src/Ws/Tests.antt =====
-- Tests of WebSockets, and their theorems at concrete inputs. A close code of tungstenite is its
-- number.
use tork_framework.Base.{
  ℕ, ◌≡◌, refl, true, false, none, some, List, [], ◌∷◌, Text, bytes, lookup, insert, text_eq, lower,
  starts_with, if◌then◌else◌,
}
use tork_framework.Instances.{pairs}
use tork_framework.Error.{ok}
use tork_framework.Middleware.Http.{Request, https_scheme}
use tork_framework.Ws.Message.{
  WsMessage, text, ping, close, normal_closure, Tungstenite, into_tungstenite,
}
use tork_framework.Ws.Config.{new_config, effective_config, merge}
use tork_framework.Ws.Handshake.{
  Uris, ParsedOrigin, parse_origin, expected_same_origin, header, contains_text, validate_origin,
  switching, ws_handshake,
}
use tork_framework.Ws.Handshake.Origins.{ws_handshake-same_origin}
use tork_framework.Ws.Limiter.{try_acquire, drop_permit, remove}
use tork_framework.Ws.Limiter.Counting.{IsExact, Reach, fresh, asked, Reach-IsExact}
use tork_framework.Ws.Connection.{
  WebSocketConn, accepted, Round, frame, message, recv, receive, on_round, pick_text, close_with,
  fire_disconnect_hooks,
}

abbrev numbers : Tungstenite
numbers = record { CloseCode = ℕ; from = λ n. n; into = λ n. n; into-from = λ n. refl }

abbrev from_stream : WsMessage → Round numbers
from_stream m = record { is_down = false; step = frame (message (into_tungstenite numbers m)) }

abbrev script : List (Round numbers)
script =
    from_stream (ping (bytes "?")) ∷ from_stream (text (bytes "hi")) ∷ from_stream (close none) ∷ []

abbrev conn : WebSocketConn numbers
conn = accepted numbers (some (4 ∷ 5 ∷ []))

receive_test : (receive numbers (pick_text numbers) script conn).1 ≡ some (ok (some (bytes "hi")))
unfolding receive on_round fire_disconnect_hooks
receive_test = refl

abbrev used : WebSocketConn numbers
used = (close_with numbers normal_closure (bytes "bye") none none (recv numbers script conn).0).0

abbrev client : Text
client = bytes "10.0.0.9"

limiter_tests :
    (try_acquire 1 client [] ≡ ((client, 1) ∷ [], true))
    × (try_acquire 1 client ((client, 1) ∷ []) ≡ ((client, 1) ∷ [], false))
    × (drop_permit client ((client, 1) ∷ []) ≡ some [])
unfolding try_acquire drop_permit lookup insert remove text_eq
limiter_tests = (refl, refl, refl)

one_open : Reach 1 ((client, 1) ∷ []) (client ∷ [])
unfolding try_acquire lookup insert text_eq
one_open = asked client [] [] fresh

Reach-IsExact_example : IsExact 1 ((client, 1) ∷ []) (client ∷ [])
Reach-IsExact_example = Reach-IsExact 1 ((client, 1) ∷ []) (client ∷ []) one_open

abbrev site : Text
site = bytes "https://Shop.example"

-- Enough of `Uri` and `Authority` for one site.
abbrev one_site : Uris
one_site = record {
  parse_uri = λ s.
      if text_eq s site
      then some (some (bytes "https"), some (record { host = bytes "Shop.example"; port = none }))
      else none;
  parse_authority = λ s. some (record { host = s; port = none });
  derive_accept_key = λ k. k;
}

abbrev upgrade : Request pairs
upgrade = record {
  method = bytes "GET";
  uri_scheme = none;
  path_and_query = some (bytes "/chat");
  headers =
      (bytes "origin", site)
      ∷ (bytes "host", bytes "shop.example")
      ∷ (bytes "upgrade", bytes "WebSocket")
      ∷ (bytes "connection", bytes "keep-alive, Upgrade")
      ∷ (bytes "sec-websocket-version", bytes "13")
      ∷ (bytes "sec-websocket-key", bytes "dGhlIHNhbXBsZSBub25jZQ==")
      ∷ [];
  peer = none;
  scheme = some https_scheme;
  frames = [];
}

handshake_tests :
    (header one_site pairs (bytes "origin") upgrade ≡ some site)
    × ((effective_config none new_config).origin_policy ≡ none)
    × (ws_handshake one_site pairs upgrade none new_config
        ≡ ok (switching one_site pairs (bytes "dGhlIHNhbXBsZSBub25jZQ==")))
unfolding ws_handshake validate_origin parse_origin expected_same_origin contains_text lookup
    text_eq lower starts_with merge insert
handshake_tests = (refl, refl, refl)

ws_handshake-same_origin_example :
    (a : ParsedOrigin) × (parse_origin one_site site ≡ some a)
    × (expected_same_origin one_site pairs upgrade ≡ some a)
ws_handshake-same_origin_example =
    ws_handshake-same_origin one_site pairs upgrade none new_config site
      (switching one_site pairs (bytes "dGhlIHNhbXBsZSBub25jZQ==")) handshake_tests.0
      handshake_tests.1 handshake_tests.2
