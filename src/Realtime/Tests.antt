-- ===== src/Realtime/Tests.antt =====
-- Tests of the hub, and its theorems at concrete inputs.
use tork_framework.Base.{ℕ, ◌≡◌, refl, some, Text, bytes, lookup, insert, retain, text_eq, true}
use tork_framework.Realtime.{Hub, with_capacity, room, drop_room, is_alive, room_count}
use tork_framework.Realtime.Rooms.{IsSound, Reach, here, after, get, Reach-IsSound, room-keeps}

abbrev lobby : Text
lobby = bytes "lobby"

abbrev red : Text
red = bytes "red"

-- The lobby's only handle is dropped before another room is asked for.
abbrev one_dropped : Hub
one_dropped = drop_room 0 (room lobby (with_capacity 8)).0

abbrev two_rooms : Hub
two_rooms = (room red (room lobby (with_capacity 8)).0).0

room_tests :
    (room_count two_rooms ≡ 2)
    × (room_count (room red one_dropped).0 ≡ 1)
    × ((room lobby two_rooms).1 ≡ 0)
unfolding room lookup insert retain text_eq
room_tests = (refl, refl, refl)

reached : Reach (with_capacity 8) two_rooms
reached =
    after (after here (get lobby (with_capacity 8))) (get red (room lobby (with_capacity 8)).0)

two_rooms-IsSound : IsSound two_rooms
two_rooms-IsSound = Reach-IsSound reached

room-keeps_example :
    (lookup lobby (room lobby two_rooms).0.rooms ≡ some (room lobby two_rooms).1)
    × ((k : Text) (s : ℕ)
        → lookup k two_rooms.rooms ≡ some s
        → is_alive two_rooms s ≡ true
        → lookup k (room lobby two_rooms).0.rooms ≡ some s)
room-keeps_example = room-keeps lobby two_rooms two_rooms-IsSound
