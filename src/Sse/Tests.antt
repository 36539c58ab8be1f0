-- ===== src/Sse/Tests.antt =====
-- Tests of Server-Sent Events, and their theorems at concrete inputs.
use tork_framework.Base.{
  ◌≡◌, refl, ◌++◌, true, false, none, some, [], ◌∷◌, bytes, arith, contains_byte, decimal, split_on,
  text_eq, join_with,
}
use tork_framework.Sse.Event.{RawEvent, encode_event, field_lines}
use tork_framework.Sse.Wire.{Client, read, unified, take_lines, take_line, take_field, field}
use tork_framework.Sse.Messages.{encoded, meanings, read-encoded}
use tork_framework.Sse.Body.{Sse, ended, default_config, new_body}
use tork_framework.Sse.Draining.{frames, frames-source, fitting, final, source}

sse_model : Unit {0}
unfolding encode_event field_lines decimal split_on join_with contains_byte text_eq unified
    take_lines take_line take_field field read
sse_model = tt

abbrev nobody : Client
nobody = record { kind = []; content = []; last_id = []; wait = none; messages = [] }

-- A name with a line end in it.
abbrev tick : RawEvent
tick = record {
  data_text = some (bytes "a" ++ 10 ∷ bytes "b");
  name = some (bytes "up" ++ 10 ∷ bytes "id: 9");
  id = some (bytes "7");
  retry = some 250;
  remark = none;
}

abbrev quiet : RawEvent
quiet = record {
  data_text = none;
  name = none;
  id = none;
  retry = none;
  remark = some (bytes "data: x");
}

-- A lone CR ends a line for the client, and not for the encoding.
abbrev broken : RawEvent
broken = record {
  data_text = some (bytes "a" ++ 13 ∷ bytes "data: b");
  name = none;
  id = none;
  retry = none;
  remark = none;
}

encode_tests :
    (encode_event tick none
      ≡ bytes "event: upid: 9"
        ++ 10 ∷ bytes "id: 7"
        ++ 10 ∷ bytes "retry: 250"
        ++ 10 ∷ bytes "data: a"
        ++ 10 ∷ bytes "data: b"
        ++ 10 ∷ 10 ∷ [])
    × ((read (encode_event tick none) nobody).messages
        ≡ (record {
          kind = bytes "upid: 9";
          content = bytes "a" ++ 10 ∷ bytes "b";
          last_id = bytes "7";
        })
          ∷ [])
    × ((read (encode_event broken none) nobody).messages
        ≡ (record { kind = []; content = bytes "a" ++ 10 ∷ bytes "b"; last_id = [] }) ∷ [])
unfolding sse_model
encode_tests = (refl, refl, refl)

read-encoded_example :
    read (encoded (some (bytes "news")) (tick ∷ quiet ∷ tick ∷ [])) nobody
    ≡ meanings (some (bytes "news")) (tick ∷ quiet ∷ tick ∷ []) nobody
unfolding contains_byte
read-encoded_example =
    read-encoded (some (bytes "news")) (tick ∷ quiet ∷ tick ∷ []) nobody (refl, refl)
      ((refl, refl), ((refl, refl), ((refl, refl), tt)))

abbrev stream : Sse
stream = record {
  events = source (tick ∷ quiet ∷ []) ended;
  config = record default_config { max_event_size = some 20; done_event = some (bytes "[DONE]") };
}

frames-source_example :
    frames 4 (new_body false stream)
    ≡ (fitting none (some 20) (tick ∷ quiet ∷ []) ++ final (new_body false stream).done, true)
frames-source_example =
    frames-source ended tt 3 (tick ∷ quiet ∷ []) (new_body false stream) (omega arith) refl
