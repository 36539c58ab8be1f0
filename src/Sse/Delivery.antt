-- ===== src/Sse/Delivery.antt =====
-- What a client gets from an encoded event: one message with the event's own data.
use tork_framework.Base.{
  IsDigit, decimal-IsDigit, ◌<◌, ℕ, ◌≡◌, refl, sym, ap, ◌∙◌, ◌++◌, Bool, true, false, Option, none,
  some, List, [], ◌∷◌, Text, bytes, text_eq, contains_byte, decimal, split_on, or_else, unwrap_or,
  All, arith, append_assoc, append-nil,
}
use tork_framework.Base.Splitting.{
  HasNo, HasNo-append, HasNo-keep, split_on-HasNo, split_on-cons, split_on-append,
}
use tork_framework.Sse.Event.{
  RawEvent, encode_event, field_lines, text_field, line_field, mapped, single_line, is_kept,
}
use tork_framework.Sse.Wire.{
  Client, unified, field, take_field, take_line, take_lines, dispatch, all_digits,
}

pub unified_eq_self : (s : Text) → HasNo 13 s → unified s ≡ s
unfolding unified contains_byte
unified_eq_self [] h = refl
unified_eq_self (c ∷ s) h = ground (arith, unified_eq_self s)

-- Reading a text with no CR.
unfoldable pub feed : Text → Client → Client
feed s c = take_lines (split_on 10 s) c

feed-line : (l s : Text) (c : Client) → HasNo 10 l → feed (l ++ 10 ∷ s) c ≡ feed s (take_line l c)
unfolding feed take_lines
feed-line l s c h = let (p, ps, e) = split_on-cons 10 s in rw (split_on-append 10 l s h, e) refl

-- The lines of one field, taken in turn.
take_all : Text → List Text → Client → Client
take_all label [] c = c
take_all label (l ∷ ls) c = take_all label ls (take_line (label ++ l) c)

feed-field_lines :
    (label : Text) (ls : List Text) (s : Text) (c : Client)
    → HasNo 10 label
    → All (HasNo 10) ls
    → feed (field_lines label ls ++ s) c ≡ feed s (take_all label ls c)
unfolding field_lines take_all
feed-field_lines label [] s c n h = refl
feed-field_lines label (l ∷ ls) s c n h =
    ap (λ t. feed t c)
      (append_assoc label (l ++ 10 ∷ field_lines label ls) s
        ∙ ap (λ t. label ++ t) (append_assoc l (10 ∷ field_lines label ls) s)
        ∙ sym (append_assoc label l (10 ∷ (field_lines label ls ++ s))))
    ∙ feed-line (label ++ l) (field_lines label ls ++ s) c (HasNo-append 10 label l n h.0)
    ∙ feed-field_lines label ls s (take_line (label ++ l) c) n h.1

-- What each field does to a client.
take_line-data :
    (l : Text) (c : Client)
    → take_line (bytes "data: " ++ l) c ≡ record c { content = c.content ++ l ∷ [] }
unfolding take_line field take_field text_eq
take_line-data l c = refl

take_line-comment : (l : Text) (c : Client) → take_line (bytes ": " ++ l) c ≡ c
unfolding take_line field take_field text_eq
take_line-comment l c = refl

take_line-event :
    (l : Text) (c : Client) → take_line (bytes "event: " ++ l) c ≡ record c { kind = l }
unfolding take_line field take_field text_eq
take_line-event l c = refl

take_line-id :
    (l : Text) (c : Client) → HasNo 0 l → take_line (bytes "id: " ++ l) c ≡ record c { last_id = l }
unfolding take_line field take_field text_eq
take_line-id l c h = rw h

take_line-retry :
    (l : Text) (c : Client)
    → all_digits l ≡ true
    → take_line (bytes "retry: " ++ l) c ≡ record c { wait = some l }
unfolding take_line field take_field text_eq
take_line-retry l c h = rw h

take_all-comment : (ls : List Text) (c : Client) → take_all (bytes ": ") ls c ≡ c
unfolding take_all
take_all-comment [] c = refl
take_all-comment (l ∷ ls) c = rw (take_line-comment l c) (take_all-comment ls c)

take_all-data :
    (ls : List Text) (c : Client)
    → take_all (bytes "data: ") ls c ≡ record c { content = c.content ++ ls }
unfolding take_all
take_all-data [] c = ap (λ x. record c { content = x }) (sym (append-nil c.content))
take_all-data (l ∷ ls) c = rw (take_line-data l c) (
    take_all-data ls (record c { content = c.content ++ l ∷ [] })
    ∙ ap (λ x. record c { content = x }) (append_assoc c.content (l ∷ []) ls))

all_digits-decimal : (s : Text) → All IsDigit s → all_digits s ≡ true
unfolding contains_byte
all_digits-decimal [] h = refl
all_digits-decimal (c ∷ s) h = ground (arith, all_digits-decimal s h.1)

pub digits-HasNo : (b : ℕ) (s : Text) → b < 48 → All IsDigit s → HasNo b s
unfolding contains_byte
digits-HasNo b [] low h = refl
digits-HasNo b (c ∷ s) low h = ground (arith, digits-HasNo b s low h.1)

-- A text that, read first, changes the client by a function.
abbrev pub Does : Text → (Client → Client) → Type 0
Does x f = (s : Text) (c : Client) → feed (x ++ s) c ≡ feed s (f c)

Does-append :
    (x y : Text) (f g : Client → Client) → Does x f → Does y g → Does (x ++ y) (λ c. g (f c))
Does-append x y f g p q s c = ap (λ t. feed t c) (append_assoc x y s) ∙ p (y ++ s) c ∙ q s (f c)

Does-line :
    (label t : Text) (f : Client → Client)
    → HasNo 10 label
    → HasNo 10 t
    → ((c : Client) → take_line (label ++ t) c ≡ f c)
    → Does (label ++ (t ++ 10 ∷ [])) f
Does-line label t f n h e s c =
    ap (λ x. feed x c)
      (append_assoc label (t ++ 10 ∷ []) s
        ∙ ap (λ x. label ++ x) (append_assoc t (10 ∷ []) s)
        ∙ sym (append_assoc label t (10 ∷ s)))
    ∙ feed-line (label ++ t) s c (HasNo-append 10 label t n h)
    ∙ ap (feed s) (e c)

Does-comment : (o : Option Text) → Does (text_field (bytes ": ") o) (λ c. c)
unfolding contains_byte
Does-comment none s c = refl
Does-comment (some t) s c =
    feed-field_lines (bytes ": ") (split_on 10 t) s c refl (split_on-HasNo 10 t)
    ∙ ap (feed s) (take_all-comment (split_on 10 t) c)

abbrev pub pieces : Option Text → List Text
pieces none = []
pieces (some t) = split_on 10 t

Does-data :
    (o : Option Text)
    → Does (text_field (bytes "data: ") o) (λ c. record c { content = c.content ++ pieces o })
unfolding contains_byte
Does-data none s c = ap (λ x. feed s (record c { content = x })) (sym (append-nil c.content))
Does-data (some t) s c =
    feed-field_lines (bytes "data: ") (split_on 10 t) s c refl (split_on-HasNo 10 t)
    ∙ ap (feed s) (take_all-data (split_on 10 t) c)

abbrev pub clean : Bool → Option Text → Option Text
clean strip_nul o = mapped (λ t. single_line t strip_nul) o

Does-event :
    (o : Option Text)
    → Does
        (line_field (bytes "event: ") (clean false o))
        (λ c. record c { kind = unwrap_or (clean false o) c.kind })
unfolding contains_byte
Does-event none = λ s c. refl
Does-event (some t) =
    Does-line (bytes "event: ") (single_line t false) _ refl (HasNo-keep 10 (is_kept false) t refl)
      (take_line-event (single_line t false))

Does-id :
    (o : Option Text)
    → Does
        (line_field (bytes "id: ") (clean true o))
        (λ c. record c { last_id = unwrap_or (clean true o) c.last_id })
unfolding contains_byte
Does-id none = λ s c. refl
Does-id (some t) =
    Does-line (bytes "id: ") (single_line t true) _ refl (HasNo-keep 10 (is_kept true) t refl)
      (λ c. take_line-id (single_line t true) c (HasNo-keep 0 (is_kept true) t refl))

Does-retry :
    (o : Option ℕ)
    → Does
        (line_field (bytes "retry: ") (mapped decimal o))
        (λ c. record c { wait = or_else (mapped decimal o) c.wait })
unfolding contains_byte
Does-retry none = λ s c. refl
Does-retry (some n) =
    Does-line (bytes "retry: ") (decimal n) _ refl
      (digits-HasNo 10 (decimal n) (omega arith) (decimal-IsDigit n))
      (λ c. take_line-retry (decimal n) c (all_digits-decimal (decimal n) (decimal-IsDigit n)))

Does-blank : Does (10 ∷ []) dispatch
unfolding take_line contains_byte
Does-blank s c = feed-line [] s c refl

-- An event is taken field by field, and then dispatched.
pub Does-encode_event :
    (e : RawEvent) (d : Option Text)
    → Does (encode_event e d) (λ c. dispatch (record {
      kind = unwrap_or (clean false (or_else e.name d)) c.kind;
      content = c.content ++ pieces e.data_text;
      last_id = unwrap_or (clean true e.id) c.last_id;
      wait = or_else (mapped decimal e.retry) c.wait;
      messages = c.messages;
    }))
unfolding encode_event
Does-encode_event e d =
    Does-append _ _ (λ c. c) _ (Does-comment e.remark)
      (Does-append _ _ _ _ (Does-event (or_else e.name d)) (
        Does-append _ _ _ _ (Does-id e.id) (
          Does-append _ _ _ _ (Does-retry e.retry)
            (Does-append _ _ _ dispatch (Does-data e.data_text) Does-blank))))
