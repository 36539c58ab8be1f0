-- ===== src/Sse/Body.antt =====
-- crates/tork-core/src/sse.rs: the configuration, the connection cap, and the body's polling. The
-- source stream is the script of what its polls answer; an end of the script is `Pending`. Whether
-- the client timeout has passed and whether a heartbeat is due are arguments of a poll.
use tork_framework.Base.{
  ℕ, suc, ◌-◌, ◌++◌, Bool, true, false, ◌&&◌, Option, none, some, List, [], ◌∷◌, Text, bytes, ltb,
  length, if◌then◌else◌, ◌==◌, is_some,
}
use tork_framework.Error.{Error, Result, ok, err, unavailable_error}
use tork_framework.Sse.Event.{RawEvent, encode_event}

pub record SseConfig : Type 0 where
  pub default_event : Option Text
  pub heartbeat : Option ℕ
  pub no_cache : Bool
  pub disable_proxy_buffering : Bool
  pub max_event_size : Option ℕ
  pub client_timeout : Option ℕ
  pub done_event : Option Text

-- What a poll of the source answers.
pub data Outcome : Type 0 where
  item : RawEvent → Outcome
  failed : Error → Outcome
  ended idle : Outcome

pub record Sse : Type 0 where
  pub events : List Outcome
  pub config : SseConfig

-- The defaults: a heartbeat each 15 seconds, and events of 256 KiB at most.
abbrev pub default_config : SseConfig
default_config = record {
  default_event = none;
  heartbeat = some 15_000_000_000;
  no_cache = true;
  disable_proxy_buffering = true;
  max_event_size = some 262_144;
  client_timeout = none;
  done_event = none;
}

-- `from_events`, and the builder's setters.
abbrev pub from_events : List Outcome → Sse
from_events es = record { events = es; config = default_config }

abbrev pub set_default_event : Text → Sse → Sse
set_default_event t s = record s { config = record s.config { default_event = some t } }

abbrev pub set_heartbeat : ℕ → Sse → Sse
set_heartbeat every s = record s { config = record s.config { heartbeat = some every } }

abbrev pub no_heartbeat : Sse → Sse
no_heartbeat s = record s { config = record s.config { heartbeat = none } }

abbrev pub set_no_cache : Bool → Sse → Sse
set_no_cache on s = record s { config = record s.config { no_cache = on } }

abbrev pub set_proxy_buffering : Bool → Sse → Sse
set_proxy_buffering on s = record s { config = record s.config { disable_proxy_buffering = on } }

abbrev pub set_max_event_size : ℕ → Sse → Sse
set_max_event_size n s = record s { config = record s.config { max_event_size = some n } }

abbrev pub set_client_timeout : ℕ → Sse → Sse
set_client_timeout after s = record s { config = record s.config { client_timeout = some after } }

abbrev pub set_done_event : Text → Sse → Sse
set_done_event t s = record s { config = record s.config { done_event = some t } }

-- The headers of the response.
abbrev pub response_headers : SseConfig → List (Text × Text)
response_headers c =
    (bytes "content-type", bytes "text/event-stream")
    ∷ ((if c.no_cache then (bytes "cache-control", bytes "no-cache") ∷ [] else [])
        ++ (if c.disable_proxy_buffering then (bytes "x-accel-buffering", bytes "no") ∷ [] else []))

pub record SseBody : Type 0 where
  pub events : List Outcome
  pub default_event : Option Text
  pub max_event_size : Option ℕ
  pub heartbeat : Bool
  pub timeout : Bool
  pub done : Option Text
  pub finished : Bool
  pub permit : Bool

-- The answer of `poll_frame`: a frame with its bytes, the end of the stream, or `Pending`.
pub data Poll : Type 0 where
  frame : Text → Poll
  end_of_stream pending : Poll

abbrev pub heartbeat_bytes : Text
heartbeat_bytes = bytes ": ping" ++ 10 ∷ 10 ∷ []

abbrev pub last_frame : Option Text → Poll
last_frame none = end_of_stream
last_frame (some t) = frame t

-- `finish`: the done event is taken, as the last frame.
abbrev pub finish : SseBody → SseBody × Poll
finish b = (record b { finished = true; done = none }, last_frame b.done)

abbrev pub is_oversized : Option ℕ → Text → Bool
is_oversized none t = false
is_oversized (some max) t = ltb max (length t)

-- The source is idle: a heartbeat, if one is due.
abbrev pub idle_poll : Bool → SseBody → SseBody × Poll
idle_poll tick b = (b, if b.heartbeat && tick then frame heartbeat_bytes else pending)

-- The loop over what is ready; an event over the limit is skipped.
unfoldable pub drain : Bool → List Outcome → SseBody → SseBody × Poll
drain tick [] b = idle_poll tick (record b { events = [] })
drain tick (idle ∷ es) b = idle_poll tick (record b { events = es })
drain tick (ended ∷ es) b = finish (record b { events = es })
drain tick (failed e ∷ es) b = finish (record b { events = es })
drain tick (item e ∷ es) b =
    let rest = drain tick es b in
    let t = encode_event e b.default_event in
    if is_oversized b.max_event_size t then rest else (record b { events = es }, frame t)

unfoldable pub poll_frame : (expired tick : Bool) → SseBody → SseBody × Poll
poll_frame expired tick b =
    if b.finished
    then (b, end_of_stream)
    else if b.timeout && expired
    then finish b
    else drain tick b.events b

-- `into_response_with_permit`: the body of the response.
abbrev pub done_frame : Option Text → Option Text → Option Text
done_frame none default_event = none
done_frame (some marker) default_event = some (
    encode_event
      (record { data_text = some marker; name = none; id = none; retry = none; remark = none })
      default_event)

abbrev pub new_body : Bool → Sse → SseBody
new_body permit s = record {
  events = s.events;
  default_event = s.config.default_event;
  max_event_size = s.config.max_event_size;
  heartbeat = is_some s.config.heartbeat;
  timeout = is_some s.config.client_timeout;
  done = done_frame s.config.done_event s.config.default_event;
  finished = false;
  permit = permit;
}

-- The semaphore's free permits, if the app has a limiter.
abbrev pub Limiter : Type 0
Limiter = Option ℕ

-- `__sse_into_response`: a stream takes a permit, or is refused.
unfoldable pub into_response : Limiter → Sse → Limiter × Result SseBody
into_response none s = (none, ok (new_body false s))
into_response (some free) s =
    if free == 0
    then (
      some 0,
      err (unavailable_error (bytes "the server is at its Server-Sent Events connection limit")),
    )
    else (some (free - 1), ok (new_body true s))

-- The drop of a body gives its permit back.
unfoldable pub drop_body : SseBody → Limiter → Limiter
drop_body b none = none
drop_body b (some free) = some (if b.permit then suc free else free)
