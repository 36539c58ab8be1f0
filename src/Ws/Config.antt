-- ===== src/Ws/Config.antt =====
-- crates/tork-core/src/ws.rs: `WebSocketConfig`. Durations are nanoseconds.
use tork_framework.Base.{ℕ, ◌*◌, ◌++◌, Option, none, some, List, [], ◌∷◌, Text, or_else, unwrap_or}

abbrev pub default_handshake_timeout : ℕ
default_handshake_timeout = 10_000_000_000

abbrev pub default_max_message_size : ℕ
default_max_message_size = 1024 * 1024

abbrev pub default_max_frame_size : ℕ
default_max_frame_size = 1024 * 1024

pub data WsOriginPolicy : Type 0 where
  any_origin : WsOriginPolicy
  allowlist : List Text → WsOriginPolicy

pub record WebSocketConfig : Type 0 where
  pub max_message_size : Option ℕ
  pub max_frame_size : Option ℕ
  pub idle_timeout : Option ℕ
  pub handshake_timeout : Option ℕ
  pub max_connections_per_ip : Option ℕ
  pub origin_policy : Option WsOriginPolicy

abbrev pub new_config : WebSocketConfig
new_config = record {
  max_message_size = none;
  max_frame_size = none;
  idle_timeout = none;
  handshake_timeout = none;
  max_connections_per_ip = none;
  origin_policy = none;
}

abbrev pub set_max_message_size : ℕ → WebSocketConfig → WebSocketConfig
set_max_message_size n c = record c { max_message_size = some n }

abbrev pub set_max_message_size_kb : ℕ → WebSocketConfig → WebSocketConfig
set_max_message_size_kb kb c = set_max_message_size (kb * 1024) c

abbrev pub set_max_frame_size : ℕ → WebSocketConfig → WebSocketConfig
set_max_frame_size n c = record c { max_frame_size = some n }

abbrev pub set_max_frame_size_kb : ℕ → WebSocketConfig → WebSocketConfig
set_max_frame_size_kb kb c = set_max_frame_size (kb * 1024) c

abbrev pub set_idle_timeout : ℕ → WebSocketConfig → WebSocketConfig
set_idle_timeout t c = record c { idle_timeout = some t }

abbrev pub set_idle_timeout_secs : ℕ → WebSocketConfig → WebSocketConfig
set_idle_timeout_secs secs c = set_idle_timeout (secs * 1_000_000_000) c

abbrev pub set_handshake_timeout : ℕ → WebSocketConfig → WebSocketConfig
set_handshake_timeout t c = record c { handshake_timeout = some t }

abbrev pub set_max_connections_per_ip : ℕ → WebSocketConfig → WebSocketConfig
set_max_connections_per_ip n c = record c { max_connections_per_ip = some n }

abbrev pub with_origin : Text → Option WsOriginPolicy → WsOriginPolicy
with_origin origin (some (allowlist allowed)) = allowlist (allowed ++ origin ∷ [])
with_origin origin policy = allowlist (origin ∷ [])

abbrev pub allow_origin : Text → WebSocketConfig → WebSocketConfig
allow_origin origin c = record c { origin_policy = some (with_origin origin c.origin_policy) }

abbrev pub allow_any_origin : WebSocketConfig → WebSocketConfig
allow_any_origin c = record c { origin_policy = some any_origin }

-- A route's configuration over that of the application.
unfoldable pub merge : WebSocketConfig → WebSocketConfig → WebSocketConfig
merge c base = record {
  max_message_size = or_else c.max_message_size base.max_message_size;
  max_frame_size = or_else c.max_frame_size base.max_frame_size;
  idle_timeout = or_else c.idle_timeout base.idle_timeout;
  handshake_timeout = or_else c.handshake_timeout base.handshake_timeout;
  max_connections_per_ip = or_else c.max_connections_per_ip base.max_connections_per_ip;
  origin_policy = or_else c.origin_policy base.origin_policy;
}

-- `to_tungstenite`: the limits of a message and of a frame.
abbrev pub tungstenite_limits : WebSocketConfig → ℕ × ℕ
tungstenite_limits c = (
  unwrap_or c.max_message_size default_max_message_size,
  unwrap_or c.max_frame_size default_max_frame_size,
)

-- `effective_config`, over the default of the application, if it has one.
abbrev pub effective_config : Option WebSocketConfig → WebSocketConfig → WebSocketConfig
effective_config app_default route = merge route (unwrap_or app_default new_config)
