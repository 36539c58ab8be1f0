-- ===== src/Server/Connections.antt =====
-- crates/tork-core/src/server.rs: the accept loop, the connections it serves, the guard against idle
-- ones, and the drain at shutdown. The accept loop runs over the script of what it selects, and a
-- poll of a stream is what the inner stream answers. Moments are nanoseconds. Without the feature
-- `tls`.
pub mod Idle
use tork_framework.Base.{
  ℕ, ◌+◌, ◌++◌, Bool, true, false, Option, none, some, List, [], ◌∷◌, Text, leb, ◌==◌,
  if◌then◌else◌,
}
use tork_framework.Middleware.Http.{Http, Request}
use tork_framework.Server.Config.{Http1Config, Http2Config, BuilderCall, configure_builder}

-- `IdleTimeoutStream`: its deadline is when its timer is done.
pub record IdleStream : Type 0 where
  pub idle : ℕ
  pub deadline : ℕ

abbrev pub new_idle_stream : (now idle : ℕ) → IdleStream
new_idle_stream now idle = record { idle = idle; deadline = now + idle }

abbrev pub touch : (now : ℕ) → IdleStream → IdleStream
touch now s = record s { deadline = now + s.idle }

abbrev pub idle_expired : (now : ℕ) → IdleStream → Bool
idle_expired now s = leb s.deadline now

-- What a poll answers: a number of bytes, nothing yet, or an error.
pub data Polled : Type 0 where
  ready : ℕ → Polled
  pending failed timed_out : Polled

-- A read of nothing is the end of the stream.
abbrev pub after_read : (now : ℕ) → Polled → IdleStream → IdleStream × Polled
after_read now (ready n) s = (if n == 0 then s else touch now s, ready n)
after_read now other s = (s, other)

unfoldable pub poll_read : (now : ℕ) → Polled → IdleStream → IdleStream × Polled
poll_read now inner s = if idle_expired now s then (s, timed_out) else after_read now inner s

unfoldable pub poll_write : (now : ℕ) → Polled → IdleStream → IdleStream × Polled
poll_write now (ready n) s = (touch now s, ready n)
poll_write now other s = (s, other)

-- A connection that is served: its stream by number, with its guard.
pub record Connection : Type 0 where
  pub stream : ℕ
  pub peer : Option Text
  pub guard : Option IdleStream

pub data Selected : Type 0 where
  accepted : (now stream : ℕ) → Option Text → Selected
  accept_failed shutdown : Selected

abbrev pub guarded_stream : (now : ℕ) → Option ℕ → Option IdleStream
guarded_stream now none = none
guarded_stream now (some idle) = some (new_idle_stream now idle)

unfoldable pub accept_plain : (idle_timeout : Option ℕ) → List Selected → List Connection
accept_plain idle [] = []
accept_plain idle (accepted now stream peer ∷ es) =
    record { stream = stream; peer = peer; guard = guarded_stream now idle } ∷ accept_plain idle es
accept_plain idle (accept_failed ∷ es) = accept_plain idle es
accept_plain idle (shutdown ∷ es) = []

-- What the server does, from its configuration to the end of the drain.
pub data ServerStep : Type 0 where
  configured : List BuilderCall → ServerStep
  serving : Connection → ServerStep
  ws_shutdown_begun drained drain_timed_out : ServerStep

abbrev pub served : List Connection → List ServerStep
served [] = []
served (c ∷ cs) = serving c ∷ served cs

abbrev pub drain_with_timeout : (in_time : Bool) → ServerStep
drain_with_timeout in_time = if in_time then drained else drain_timed_out

abbrev pub run_with_shutdown :
    (header_read_timeout : Option ℕ)
    → Option Http1Config
    → Option Http2Config
    → (idle_timeout : Option ℕ) → List Selected
    → (in_time : Bool) → List ServerStep
run_with_shutdown header h1 h2 idle es in_time =
    configured (configure_builder header h1 h2) ∷ served (accept_plain idle es)
    ++ ws_shutdown_begun ∷ drain_with_timeout in_time ∷ []

-- `TorkService::call`: the request with the connection's peer, if it has one.
abbrev pub call : (h : Http) → Connection → Request h → Request h
call h c r = elim c.peer [ none ↦ r | some peer ↦ record r { peer = some peer } ]
