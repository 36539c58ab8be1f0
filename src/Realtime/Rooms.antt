-- ===== src/Realtime/Rooms.antt =====
-- One sender for each name, and what an eviction keeps.
use tork_framework.Base.{
  ℕ, ◌<◌, ◌≡◌, ◌≢◌, refl, sym, ◌∙◌, ◌⊎◌, inl, inr, true, Option, none, some, Text, arith, text_eq,
  text_eq_iff, lookup, retain, lookup-insert, lookup-retain, HasUniqueKeys, insert-HasUniqueKeys,
  retain-HasUniqueKeys, lookup-insert_self, lookup-insert_ne, Bool-cases,
}
use tork_framework.Realtime.{
  Hub, with_capacity, is_alive, take_handle, open_room, room_at, room, drop_room, subscribe,
  drop_receiver,
}

-- What the program can do with a hub.
pub data Step : Hub → Hub → Type 0 where
  get : (id : Text) (h : Hub) → Step h (room id h).0
  clone : (s : ℕ) (h : Hub) → Step h (take_handle s h)
  drop : (s : ℕ) (h : Hub) → Step h (drop_room s h)
  join : (s : ℕ) (h : Hub) → Step h (subscribe s h)
  leave : (s : ℕ) (h : Hub) → Step h (drop_receiver s h)

pub data Reach (h : Hub) : Hub → Type 0 where
  here : Reach h h
  after : {g k : Hub} → Reach h g → Step g k → Reach h k

-- Each name has one sender, given out before, and no sender has two names.
pub record IsSound (h : Hub) : Type 0 where
  pub unique : HasUniqueKeys h.rooms
  pub known : (k : Text) (s : ℕ) → lookup k h.rooms ≡ some s → s < h.next
  pub apart : (j k : Text) (s : ℕ) → lookup j h.rooms ≡ some s → lookup k h.rooms ≡ some s → j ≡ k

-- What an open_room leaves: the new name, and the live rooms.
lookup-open_room :
    (id k : Text) (h : Hub)
    → HasUniqueKeys h.rooms
    → id ≢ k
    → (s : ℕ) → lookup k (open_room id h).rooms ≡ some s
    → lookup k h.rooms ≡ some s
lookup-open_room id k h u d s e = ground (
  arith,
  lookup-insert_ne id k h.next (retain (is_alive h) h.rooms) d,
  lookup-retain k (is_alive h) h.rooms u,
)

known-open_room :
    (id : Text) (h : Hub)
    → IsSound h
    → (k : Text) (s : ℕ) → lookup k (open_room id h).rooms ≡ some s
    → ((id ≡ k) × (s ≡ h.next)) ⊎ ((id ≢ k) × (lookup k h.rooms ≡ some s) × (s < h.next))
known-open_room id h sound k s e = elim (Bool-cases (text_eq id k)) [
  | inl same ↦
      let q : id ≡ k = (text_eq_iff id k).0 same in
      inl (q, ground (arith, lookup-insert id k h.next (retain (is_alive h) h.rooms)))
  | inr other ↦
      let d : id ≢ k = λ q. ground (arith, text_eq_iff id k) in
      let old = lookup-open_room id k h sound.unique d s e in inr (d, old, sound.known k s old)
]

open_room-IsSound : (id : Text) (h : Hub) → IsSound h → IsSound (open_room id h)
open_room-IsSound id h sound = record {
  unique =
      insert-HasUniqueKeys id h.next _ (retain-HasUniqueKeys (is_alive h) h.rooms sound.unique);
  known = λ k s e. ground (arith, known-open_room id h sound k s e);
  apart = λ j k s e f. elim (known-open_room id h sound j s e) [
    | inl (p, q) ↦ elim (known-open_room id h sound k s f) [
      | inl (p', q') ↦ sym p ∙ p'
      | inr (d', old', less') ↦ absurd (omega arith)
    ]
    | inr (d, old, less) ↦ elim (known-open_room id h sound k s f) [
      | inl (p', q') ↦ absurd (omega arith)
      | inr (d', old', less') ↦ sound.apart j k s old old'
    ]
  ];
}

room-IsSound : (id : Text) (h : Hub) → IsSound h → IsSound (room id h).0
unfolding room
room-IsSound id h sound = go (lookup id h.rooms)
  where
    go : (o : Option ℕ) → IsSound (room_at id h o).0
    go none = open_room-IsSound id h sound
    go (some s) = record { unique = sound.unique; known = sound.known; apart = sound.apart }

Step-IsSound : {g k : Hub} → Step g k → IsSound g → IsSound k
Step-IsSound (get id h) sound = room-IsSound id h sound
Step-IsSound (clone s h) sound = record {
  unique = sound.unique;
  known = sound.known;
  apart = sound.apart;
}
Step-IsSound (drop s h) sound = record {
  unique = sound.unique;
  known = sound.known;
  apart = sound.apart;
}
Step-IsSound (join s h) sound = record {
  unique = sound.unique;
  known = sound.known;
  apart = sound.apart;
}
Step-IsSound (leave s h) sound = record {
  unique = sound.unique;
  known = sound.known;
  apart = sound.apart;
}

new-IsSound : (n : ℕ) → IsSound (with_capacity n)
unfolding lookup
new-IsSound n = record {
  unique = tt;
  known = λ k s e. absurd (cc e);
  apart = λ j k s e f. absurd (cc e);
}

-- In every hub that a program can come to from a new one, a sender belongs to one name only, and
-- was given out before.
pub Reach-IsSound : {n : ℕ} {h : Hub} → Reach (with_capacity n) h → IsSound h
Reach-IsSound {n} here = new-IsSound n
Reach-IsSound (after r step) = Step-IsSound step (Reach-IsSound r)

-- In a sound hub, a room that a handle or a subscriber keeps alive stays under its name with its
-- sender, whatever room is asked for; and the room that was asked for is the one that stands under
-- its name.
pub room-keeps :
    (id : Text) (h : Hub)
    → IsSound h
    → (lookup id (room id h).0.rooms ≡ some (room id h).1)
      × ((k : Text) (s : ℕ)
          → lookup k h.rooms ≡ some s
          → is_alive h s ≡ true
          → lookup k (room id h).0.rooms ≡ some s)
unfolding room
room-keeps id h sound = go (lookup id h.rooms) refl
  where
    go :
        (o : Option ℕ)
        → lookup id h.rooms ≡ o
        → (lookup id (room_at id h o).0.rooms ≡ some (room_at id h o).1)
          × ((k : Text) (s : ℕ)
              → lookup k h.rooms ≡ some s
              → is_alive h s ≡ true
              → lookup k (room_at id h o).0.rooms ≡ some s)
    go (some t) e = (e, λ k s found alive. found)
    go none e = (
      lookup-insert_self id h.next (retain (is_alive h) h.rooms),
      λ k s found alive.
          let d : id ≢ k = λ q. ground arith in
          ground (
            arith,
            lookup-insert_ne id k h.next (retain (is_alive h) h.rooms) d,
            lookup-retain k (is_alive h) h.rooms sound.unique,
          ),
    )
