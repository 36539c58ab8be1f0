-- ===== src/Sse/Draining.antt =====
-- The polls of a body, until its stream ends.
use tork_framework.Base.{
  ℕ, zero, suc, ◌+◌, ◌<◌, ◌≡◌, refl, ap, ◌∙◌, ◌++◌, Bool, true, false, Option, none, some, List, [],
  ◌∷◌, Text, length, arith, if◌then◌else◌, Bool-cases, inl, inr,
}
use tork_framework.Error.{ok}
use tork_framework.Sse.Event.{RawEvent, encode_event}
use tork_framework.Sse.Body.{
  SseBody, Sse, Outcome, item, failed, ended, idle, Poll, frame, end_of_stream, pending, last_frame,
  finish, is_oversized, drain, poll_frame, into_response, drop_body,
}

-- The frames up to the end of the stream, and whether it ended; a pending poll is tried again.
abbrev pub next_frames : Poll → List Text × Bool → List Text × Bool
next_frames (frame t) r = (t ∷ r.0, r.1)
next_frames pending r = r
next_frames end_of_stream r = ([], true)

unfoldable pub frames : ℕ → SseBody → List Text × Bool
frames zero b = ([], false)
frames (suc n) b = let r = poll_frame false false b in next_frames r.1 (frames n r.0)

abbrev pub fitting : Option Text → Option ℕ → List RawEvent → List Text
fitting d max [] = []
fitting d max (e ∷ es) =
    let rest = fitting d max es in
    let t = encode_event e d in if is_oversized max t then rest else t ∷ rest

abbrev pub final : Option Text → List Text
final none = []
final (some t) = t ∷ []

-- A source that yields the events and then ends or fails.
abbrev pub source : List RawEvent → Outcome → List Outcome
source [] last = last ∷ []
source (e ∷ es) last = item e ∷ source es last

abbrev pub IsLast : Outcome → Type 0
IsLast ended = Unit
IsLast (failed e) = Unit
IsLast (item e) = ⊥
IsLast idle = ⊥

frames-finished : (n : ℕ) (b : SseBody) → b.finished ≡ true → frames (suc n) b ≡ ([], true)
unfolding frames poll_frame
frames-finished n b f = rw f refl

poll_frame-live :
    (tick : Bool) (b : SseBody)
    → b.finished ≡ false
    → poll_frame false tick b ≡ drain tick b.events b
unfolding poll_frame
poll_frame-live tick b live = elim (Bool-cases b.timeout) [
  | inl set ↦ rw (live, set) refl
  | inr unset ↦ rw (live, unset) refl
]

drain-last :
    (last : Outcome) (b : SseBody)
    → IsLast last
    → drain false (last ∷ []) b ≡ finish (record b { events = [] })
unfolding drain
drain-last ended b h = refl
drain-last (failed e) b h = refl
drain-last (item e) b h = elim h [ ]
drain-last idle b h = elim h [ ]

frames-finish :
    (n : ℕ) (b : SseBody)
    → next_frames (finish b).1 (frames (suc n) (finish b).0) ≡ (final b.done, true)
frames-finish n b = go b.done
  where
    go :
        (o : Option Text)
        → next_frames (last_frame o) (frames (suc n) (finish b).0) ≡ (final o, true)
    go none = refl
    go (some t) = ap (λ r. (t ∷ r.0, r.1)) (frames-finished n (finish b).0 refl)

module _ (last : Outcome) (is_last : IsLast last) where
  drained :
      (n : ℕ) (es : List RawEvent) (b : SseBody)
      → ((es' : List RawEvent)
          → length es' < length es
          → frames (suc n) (record b { events = source es' last })
            ≡ (fitting b.default_event b.max_event_size es' ++ final b.done, true))
      → next_frames
          (drain false (source es last) b).1
          (frames (suc n) (drain false (source es last) b).0)
        ≡ (fitting b.default_event b.max_event_size es ++ final b.done, true)
  unfolding drain
  drained n [] b again =
      ap (λ r. next_frames r.1 (frames (suc n) r.0)) (drain-last last b is_last)
      ∙ frames-finish n (record b { events = [] })
  drained n (e ∷ es) b again =
      elim (Bool-cases (is_oversized b.max_event_size (encode_event e b.default_event))) [
        | inl over ↦ rw over (drained n es b (λ es' less. again es' (omega arith)))
        | inr fits ↦
            rw fits (ap (λ r. (encode_event e b.default_event ∷ r.0, r.1)) (again es (omega arith)))
      ]

  -- With enough polls, a live body over a source that yields events and then ends or fails sends
  -- exactly the encodings that fit the size limit, in order, then the done event, and then its
  -- stream ends, if the client timeout does not pass and no heartbeat is due. Enough are two polls
  -- more than there are events.
  pub frames-source :
      (n : ℕ) (es : List RawEvent) (b : SseBody)
      → length es < n
      → b.finished ≡ false
      → frames (suc n) (record b { events = source es last })
        ≡ (fitting b.default_event b.max_event_size es ++ final b.done, true)
  unfolding frames
  frames-source zero es b enough live = elim enough [ ]
  frames-source (suc n) es b enough live =
      let b' = record b { events = source es last } in
      ap (λ r. next_frames r.1 (frames (suc n) r.0)) (poll_frame-live false b' live)
      ∙ drained n es b' (λ es' less. frames-source n es' b (omega arith) live)

-- The free permits and those that bodies hold.
abbrev pub held : List SseBody → ℕ
held [] = 0
held (b ∷ bs) = (if b.permit then 1 else 0) + held bs

-- A stream that is opened takes a permit: the free permits and those that the open bodies hold add
-- up to what they did before. Its drop gives the permit back.
pub into_response_permits :
    (free : ℕ) (s : Sse) (bs : List SseBody) (b : SseBody) (after : ℕ)
    → into_response (some free) s ≡ (some after, ok b)
    → (after + held (b ∷ bs) ≡ free + held bs) × (drop_body b (some after) ≡ some free)
unfolding into_response drop_body
into_response_permits zero s bs b after e = cc
into_response_permits (suc free) s bs b after e = ground arith
