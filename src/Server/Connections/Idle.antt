-- ===== src/Server/Connections/Idle.antt =====
-- crates/tork-core/src/server.rs: which connections the guard drops.
use tork_framework.Base.{
  ℕ, ◌+◌, ◌≡◌, ◌<◌, refl, arith, List, [], ◌∷◌, leb, ◌==◌, if◌then◌else◌, Bool-cases, inl, inr,
}
use tork_framework.Server.Connections.{
  IdleStream, new_idle_stream, Polled, ready, pending, failed, timed_out, poll_read, poll_write,
  after_read,
}

-- A poll at a moment, with what the inner stream answers.
pub data Poll : Type 0 where
  reading writing : (now : ℕ) → Polled → Poll

unfoldable pub poll : Poll → IdleStream → IdleStream × Polled
poll (reading now inner) s = poll_read now inner s
poll (writing now inner) s = poll_write now inner s

unfoldable pub polls : List Poll → IdleStream → IdleStream × List Polled
polls [] s = (s, [])
polls (p ∷ ps) s = let (s', o) = poll p s in let (s'', os) = polls ps s' in (s'', o ∷ os)

abbrev pub moment : Poll → ℕ
moment (reading now inner) = now
moment (writing now inner) = now

abbrev pub answer : Poll → Polled
answer (reading now inner) = inner
answer (writing now inner) = inner

-- When bytes were last moved, after a poll.
abbrev pub last_active : (last : ℕ) → Poll → ℕ
last_active last (reading now (ready n)) = if n == 0 then last else now
last_active last (writing now (ready n)) = now
last_active last (reading now other) = last
last_active last (writing now other) = last

abbrev pub last_of : (last : ℕ) → List Poll → ℕ
last_of last [] = last
last_of last (p ∷ ps) = last_of (last_active last p) ps

-- Polls that all come less than `idle` after bytes were last moved.
abbrev pub IsTimely : (last idle : ℕ) → List Poll → Type 0
IsTimely last idle [] = Unit
IsTimely last idle (p ∷ ps) = (moment p < last + idle) × IsTimely (last_active last p) idle ps

abbrev pub answers : List Poll → List Polled
answers [] = []
answers (p ∷ ps) = answer p ∷ answers ps

poll-timely :
    (p : Poll) (last idle : ℕ)
    → moment p < last + idle
    → poll p (new_idle_stream last idle) ≡ (new_idle_stream (last_active last p) idle, answer p)
unfolding poll poll_read poll_write
poll-timely (reading now (ready n)) last idle soon = ground arith
poll-timely (reading now pending) last idle soon = ground arith
poll-timely (reading now failed) last idle soon = ground arith
poll-timely (reading now timed_out) last idle soon = ground arith
poll-timely (writing now (ready n)) last idle soon = refl
poll-timely (writing now pending) last idle soon = refl
poll-timely (writing now failed) last idle soon = refl
poll-timely (writing now timed_out) last idle soon = refl

polls-IsTimely :
    (ps : List Poll) (last idle : ℕ)
    → IsTimely last idle ps
    → polls ps (new_idle_stream last idle) ≡ (new_idle_stream (last_of last ps) idle, answers ps)
unfolding polls
polls-IsTimely [] last idle timely = refl
polls-IsTimely (p ∷ ps) last idle timely =
    rw (poll-timely p last idle timely.0, polls-IsTimely ps (last_active last p) idle timely.1) refl

after_read-answer : (now : ℕ) (inner : Polled) (s : IdleStream) → (after_read now inner s).1 ≡ inner
after_read-answer now (ready n) s = refl
after_read-answer now pending s = refl
after_read-answer now failed s = refl
after_read-answer now timed_out s = refl

poll_read-answer :
    (now : ℕ) (inner : Polled) (s : IdleStream)
    → (poll_read now inner s).1 ≡ (if leb s.deadline now then timed_out else inner)
unfolding poll_read
poll_read-answer now inner s = elim (Bool-cases (leb s.deadline now)) [
  | inl d ↦ rw d refl
  | inr d ↦ rw d (after_read-answer now inner s)
]

-- Where every poll of a guarded connection comes less than the idle time after bytes were last
-- moved, all are answered as the inner stream answers, and a later read times out exactly where the
-- idle time has passed by then.
pub polls-timed_out :
    (start idle now : ℕ) (ps : List Poll) (inner : Polled)
    → IsTimely start idle ps
    → ((polls ps (new_idle_stream start idle)).1 ≡ answers ps)
      × ((poll_read now inner (polls ps (new_idle_stream start idle)).0).1
          ≡ (if leb (last_of start ps + idle) now then timed_out else inner))
polls-timed_out start idle now ps inner timely =
    rw (polls-IsTimely ps start idle timely) (refl, poll_read-answer now inner _)
