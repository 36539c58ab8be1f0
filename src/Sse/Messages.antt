-- ===== src/Sse/Messages.antt =====
-- A stream of encoded events, read by a client: one message for each event that has data.
use tork_framework.Base.{
  ℕ, ◌≡◌, refl, sym, ap, append-nil, ◌∙◌, ◌++◌, Bool, true, false, Option, none, some, List, [],
  ◌∷◌, Text, bytes, contains_byte, decimal, decimal-IsDigit, split_on, join_with, or_else,
  unwrap_or, All, arith,
}
use tork_framework.Base.Splitting.{
  HasNo, HasNo-append, HasNo-keep, split_on-keeps_HasNo, split_on-cons, join_with-split_on,
}
use tork_framework.Sse.Event.{
  RawEvent, encode_event, field_lines, text_field, line_field, mapped, is_kept,
}
use tork_framework.Sse.Wire.{Message, Client, read, dispatch, take_lines}
use tork_framework.Sse.Delivery.{
  feed, unified_eq_self, digits-HasNo, Does-encode_event, clean, pieces,
}

-- No CR in the data or the comment; names and ids may hold anything.
abbrev pub HasNoCr : RawEvent → Type 0
HasNoCr e = HasNo 13 (unwrap_or e.data_text []) × HasNo 13 (unwrap_or e.remark [])

-- What an event means: its data as it is, its name or the default name without line ends, and its id
-- without line ends and NUL, or the id before it.
abbrev pub sent : Text → Text → Option Text → List Message
sent kind id none = []
sent kind id (some t) = (record { kind = kind; content = t; last_id = id }) ∷ []

abbrev pub meaning : Option Text → RawEvent → Client → Client
meaning d e c =
    let id = unwrap_or (clean true e.id) c.last_id in
    record {
      kind = [];
      content = [];
      last_id = id;
      wait = or_else (mapped decimal e.retry) c.wait;
      messages = c.messages ++ sent (unwrap_or (clean false (or_else e.name d)) []) id e.data_text;
    }

abbrev pub meanings : Option Text → List RawEvent → Client → Client
meanings d [] c = c
meanings d (e ∷ es) c = meanings d es (meaning d e c)

-- Between two events.
abbrev pub IsReady : Client → Type 0
IsReady c = (c.kind ≡ []) × (c.content ≡ [])

abbrev pub encoded : Option Text → List RawEvent → Text
encoded d [] = []
encoded d (e ∷ es) = encode_event e d ++ encoded d es

text_field-HasNo :
    (label : Text) (o : Option Text)
    → HasNo 13 label
    → HasNo 13 (unwrap_or o [])
    → HasNo 13 (text_field label o)
unfolding contains_byte field_lines
text_field-HasNo label none n h = refl
text_field-HasNo label (some t) n h = go (split_on 10 t) (split_on-keeps_HasNo 13 10 t h)
  where
    go : (ls : List Text) → All (HasNo 13) ls → HasNo 13 (field_lines label ls)
    go [] h = refl
    go (l ∷ ls) h =
        HasNo-append 13 label _ n (HasNo-append 13 l (10 ∷ field_lines label ls) h.0 (go ls h.1))

line_field-HasNo :
    (label : Text) (o : Option Text)
    → HasNo 13 label
    → HasNo 13 (unwrap_or o [])
    → HasNo 13 (line_field label o)
unfolding contains_byte
line_field-HasNo label none n h = refl
line_field-HasNo label (some t) n h = HasNo-append 13 label _ n (HasNo-append 13 t (10 ∷ []) h refl)

clean-HasNo : (strip_nul : Bool) (o : Option Text) → HasNo 13 (unwrap_or (clean strip_nul o) [])
unfolding contains_byte
clean-HasNo strip_nul none = refl
clean-HasNo strip_nul (some t) = HasNo-keep 13 (is_kept strip_nul) t refl

retry-HasNo : (o : Option ℕ) → HasNo 13 (unwrap_or (mapped decimal o) [])
unfolding contains_byte
retry-HasNo none = refl
retry-HasNo (some n) = digits-HasNo 13 (decimal n) (omega arith) (decimal-IsDigit n)

encode_event-HasNo : (e : RawEvent) (d : Option Text) → HasNoCr e → HasNo 13 (encode_event e d)
unfolding encode_event contains_byte
encode_event-HasNo e d (data_clean, remark_clean) =
    let name = clean false (or_else e.name d) in
    let data_part = text_field (bytes "data: ") e.data_text in
    let retry_part = line_field (bytes "retry: ") (mapped decimal e.retry) in
    let id_part = line_field (bytes "id: ") (clean true e.id) in
    let name_part = line_field (bytes "event: ") name in
    let data_no =
      HasNo-append 13 data_part (10 ∷ [])
        (text_field-HasNo (bytes "data: ") e.data_text refl data_clean) refl in
    let retry_no =
      HasNo-append 13 retry_part (data_part ++ 10 ∷ [])
        (line_field-HasNo (bytes "retry: ") (mapped decimal e.retry) refl (retry-HasNo e.retry))
        data_no in
    let id_no =
      HasNo-append 13 id_part (retry_part ++ (data_part ++ 10 ∷ []))
        (line_field-HasNo (bytes "id: ") (clean true e.id) refl (clean-HasNo true e.id)) retry_no in
    HasNo-append 13 (text_field (bytes ": ") e.remark)
      (name_part ++ (id_part ++ (retry_part ++ (data_part ++ 10 ∷ []))))
      (text_field-HasNo (bytes ": ") e.remark refl remark_clean)
      (HasNo-append 13 name_part (id_part ++ (retry_part ++ (data_part ++ 10 ∷ [])))
        (line_field-HasNo (bytes "event: ") name refl (clean-HasNo false (or_else e.name d))) id_no)

encoded-HasNo : (d : Option Text) (es : List RawEvent) → All HasNoCr es → HasNo 13 (encoded d es)
unfolding contains_byte
encoded-HasNo d [] h = refl
encoded-HasNo d (e ∷ es) h =
    HasNo-append 13 (encode_event e d) (encoded d es) (encode_event-HasNo e d h.0)
      (encoded-HasNo d es h.1)

-- The dispatch of what an event left.
dispatch-meaning :
    (k id : Text) (w : Option Text) (ms : List Message) (o : Option Text)
    → dispatch (record { kind = k; content = pieces o; last_id = id; wait = w; messages = ms })
      ≡ record { kind = []; content = []; last_id = id; wait = w; messages = ms ++ sent k id o }
dispatch-meaning k id w ms none = rw (append-nil ms) refl
dispatch-meaning k id w ms (some t) =
    let (p, ps, e) = split_on-cons 10 t in
    let whole : join_with (10 ∷ []) (p ∷ ps) ≡ t =
      ap (join_with (10 ∷ [])) (sym e) ∙ join_with-split_on 10 t in
    rw (e, whole) refl

feed-encode_event :
    (e : RawEvent) (d : Option Text) (s : Text) (c : Client)
    → IsReady c
    → feed (encode_event e d ++ s) c ≡ feed s (meaning d e c)
feed-encode_event e d s c (no_kind, no_content) =
    Does-encode_event e d s c
    ∙ ap (feed s) (
        rw (no_kind, no_content)
          (dispatch-meaning (unwrap_or (clean false (or_else e.name d)) [])
            (unwrap_or (clean true e.id) c.last_id) (or_else (mapped decimal e.retry) c.wait)
            c.messages e.data_text))

feed-encoded :
    (d : Option Text) (es : List RawEvent) (c : Client)
    → IsReady c
    → feed (encoded d es) c ≡ meanings d es c
unfolding feed split_on take_lines
feed-encoded d [] c ready = refl
feed-encoded d (e ∷ es) c ready =
    feed-encode_event e d (encoded d es) c ready ∙ feed-encoded d es (meaning d e c) (refl, refl)

-- A client that is between two events, and reads a stream of encoded events, gets exactly one
-- message for each event that has data, with that data, the event's name or the default one without
-- line ends, and the last id without line ends and NUL, and nothing else, whatever the names and
-- ids hold. The data and the comments hold no CR.
pub read-encoded :
    (d : Option Text) (es : List RawEvent) (c : Client)
    → IsReady c
    → All HasNoCr es
    → read (encoded d es) c ≡ meanings d es c
unfolding read feed
read-encoded d es c ready no_cr =
    ap (λ s. feed s c) (unified_eq_self (encoded d es) (encoded-HasNo d es no_cr))
    ∙ feed-encoded d es c ready
