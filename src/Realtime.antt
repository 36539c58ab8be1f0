-- ===== src/Realtime.antt =====
-- crates/tork-core/src/realtime.rs: the hub of broadcast rooms. A sender is a number, given out in
-- order; how many `Room` handles and receivers of a sender are alive is part of the state. The
-- queues of tokio's broadcast channel are not modelled: a message goes to the live receivers.
pub mod Rooms
pub mod Tests
use tork_framework.Base.{
  ℕ, suc, ◌+◌, ◌-◌, Bool, ◌||◌, Option, none, some, List, [], ◌∷◌, Text, ltb, ◌==◌, if◌then◌else◌,
  lookup, insert, retain, length, unwrap_or,
}

pub record Hub : Type 0 where
  pub rooms : List (Text × ℕ)
  pub next : ℕ
  pub handles : ℕ → ℕ
  pub receivers : ℕ → ℕ
  pub capacity : ℕ

abbrev pub default_capacity : ℕ
default_capacity = 256

abbrev pub with_capacity : ℕ → Hub
with_capacity n = record {
  rooms = [];
  next = 0;
  handles = λ s. 0;
  receivers = λ s. 0;
  capacity = n;
}

abbrev pub update : ℕ → ℕ → (ℕ → ℕ) → ℕ → ℕ
update s v f t = if s == t then v else f t

-- The map holds one reference to a sender, and each handle one more.
abbrev pub is_alive : Hub → ℕ → Bool
is_alive h s = ltb 1 (1 + h.handles s) || ltb 0 (h.receivers s)

abbrev pub take_handle : ℕ → Hub → Hub
take_handle s h = record h { handles = update s (h.handles s + 1) h.handles }

-- A new room, behind the eviction of the dead ones.
abbrev pub open_room : Text → Hub → Hub
open_room id h = record h {
  rooms = insert id h.next (retain (is_alive h) h.rooms);
  next = suc h.next;
  handles = update h.next 1 h.handles;
  receivers = update h.next 0 h.receivers;
}

abbrev pub room_at : Text → Hub → Option ℕ → Hub × ℕ
room_at id h (some s) = (take_handle s h, s)
room_at id h none = (open_room id h, h.next)

unfoldable pub room : Text → Hub → Hub × ℕ
room id h = room_at id h (lookup id h.rooms)

abbrev pub room_count : Hub → ℕ
room_count h = length h.rooms

-- The drop of a handle, a subscription, and the drop of a receiver.
abbrev pub drop_room : ℕ → Hub → Hub
drop_room s h = record h { handles = update s (h.handles s - 1) h.handles }

abbrev pub subscribe : ℕ → Hub → Hub
subscribe s h = record h { receivers = update s (h.receivers s + 1) h.receivers }

abbrev pub drop_receiver : ℕ → Hub → Hub
drop_receiver s h = record h { receivers = update s (h.receivers s - 1) h.receivers }

abbrev pub subscribers : ℕ → Hub → ℕ
subscribers s h = h.receivers s
