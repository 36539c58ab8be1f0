-- ===== src/Server/Config.antt =====
-- crates/tork-core/src/server.rs: `Http1Config`, `Http2Config` and `configure_builder`. The builder of
-- the crate hyper is what was set on it; all that was not set is hyper's default. Numbers are below
-- 2^32, and durations are nanoseconds.
use tork_framework.Base.{ℕ, ◌++◌, Bool, Option, none, some, List, [], ◌∷◌}

pub record Http2Config : Type 0 where
  pub max_concurrent_streams : Option ℕ
  pub keep_alive_interval : Option ℕ
  pub keep_alive_timeout : Option ℕ
  pub initial_stream_window_size : Option ℕ
  pub initial_connection_window_size : Option ℕ
  pub max_frame_size : Option ℕ
  pub max_header_list_size : Option ℕ

abbrev pub new_http2 : Http2Config
new_http2 = record {
  max_concurrent_streams = none;
  keep_alive_interval = none;
  keep_alive_timeout = none;
  initial_stream_window_size = none;
  initial_connection_window_size = none;
  max_frame_size = none;
  max_header_list_size = none;
}

abbrev pub set_max_concurrent_streams : ℕ → Http2Config → Http2Config
set_max_concurrent_streams n c = record c { max_concurrent_streams = some n }

abbrev pub set_keep_alive_interval : ℕ → Http2Config → Http2Config
set_keep_alive_interval t c = record c { keep_alive_interval = some t }

abbrev pub set_keep_alive_timeout : ℕ → Http2Config → Http2Config
set_keep_alive_timeout t c = record c { keep_alive_timeout = some t }

abbrev pub set_initial_stream_window_size : ℕ → Http2Config → Http2Config
set_initial_stream_window_size n c = record c { initial_stream_window_size = some n }

abbrev pub set_initial_connection_window_size : ℕ → Http2Config → Http2Config
set_initial_connection_window_size n c = record c { initial_connection_window_size = some n }

abbrev pub set_http2_frame_size : ℕ → Http2Config → Http2Config
set_http2_frame_size n c = record c { max_frame_size = some n }

abbrev pub set_max_header_list_size : ℕ → Http2Config → Http2Config
set_max_header_list_size n c = record c { max_header_list_size = some n }

pub record Http1Config : Type 0 where
  pub keep_alive : Option Bool
  pub max_headers : Option ℕ

abbrev pub new_http1 : Http1Config
new_http1 = record { keep_alive = none; max_headers = none }

abbrev pub set_keep_alive : Bool → Http1Config → Http1Config
set_keep_alive enabled c = record c { keep_alive = some enabled }

abbrev pub set_max_headers : ℕ → Http1Config → Http1Config
set_max_headers n c = record c { max_headers = some n }

-- A setting of hyper's builder, for each of its two protocols.
pub data BuilderCall : Type 0 where
  http1_timer http2_timer : BuilderCall
  http1_header_read_timeout http1_max_headers : ℕ → BuilderCall
  http1_keep_alive : Bool → BuilderCall
  http2_max_concurrent_streams http2_keep_alive_interval http2_keep_alive_timeout : ℕ → BuilderCall
  http2_initial_stream_window_size http2_initial_connection_window_size : ℕ → BuilderCall
  http2_max_frame_size http2_max_header_list_size : ℕ → BuilderCall

-- The call for a value that is set.
abbrev pub call_some {ℓ} : {A : Type ℓ} → (A → BuilderCall) → Option A → List BuilderCall
call_some call none = []
call_some call (some a) = call a ∷ []

abbrev pub http1_calls : Option Http1Config → List BuilderCall
http1_calls none = []
http1_calls (some c) =
    call_some http1_keep_alive c.keep_alive ++ call_some http1_max_headers c.max_headers

abbrev pub http2_calls : Option Http2Config → List BuilderCall
http2_calls none = []
http2_calls (some c) =
    call_some http2_max_concurrent_streams c.max_concurrent_streams
    ++ call_some http2_keep_alive_interval c.keep_alive_interval
    ++ call_some http2_keep_alive_timeout c.keep_alive_timeout
    ++ call_some http2_initial_stream_window_size c.initial_stream_window_size
    ++ call_some http2_initial_connection_window_size c.initial_connection_window_size
    ++ call_some http2_max_frame_size c.max_frame_size
    ++ call_some http2_max_header_list_size c.max_header_list_size

-- The calls that are made on the builder, in order.
unfoldable pub configure_builder :
    (header_read_timeout : Option ℕ) → Option Http1Config → Option Http2Config → List BuilderCall
configure_builder timeout h1 h2 =
    http1_timer ∷ call_some http1_header_read_timeout timeout
    ++ http1_calls h1
    ++ http2_timer ∷ http2_calls h2
