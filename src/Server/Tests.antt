-- ===== src/Server/Tests.antt =====
-- Tests of the HTTP server, and its theorem at a concrete input.
use tork_framework.Base.{
  ◌≡◌, refl, arith, none, some, List, [], ◌∷◌, bytes, leb, if◌then◌else◌, ◌+◌,
}
use tork_framework.Server.Connections.{
  new_idle_stream, ready, pending, timed_out, poll_read, accepted, accept_failed, shutdown,
  accept_plain,
}
use tork_framework.Server.Connections.Idle.{
  Poll, reading, writing, polls, answers, last_of, polls-timed_out,
}

-- A read, a write that has to wait, and a write.
abbrev some_polls : List Poll
some_polls = reading 4 (ready 3) ∷ writing 9 pending ∷ writing 11 (ready 1) ∷ []

polls-timed_out_example :
    ((polls some_polls (new_idle_stream 0 10)).1 ≡ answers some_polls)
    × ((poll_read 21 pending (polls some_polls (new_idle_stream 0 10)).0).1
        ≡ (if leb (last_of 0 some_polls + 10) 21 then timed_out else pending))
polls-timed_out_example =
    polls-timed_out 0 10 21 some_polls pending (omega arith, (omega arith, (omega arith, tt)))

-- The server goes on after a failed accept, and accepts nothing after the shutdown.
accept_test :
    accept_plain (some 5) (
      accepted 1 7 (some (bytes "a"))
      ∷ accept_failed
      ∷ accepted 2 8 none
      ∷ shutdown
      ∷ accepted 3 9 none
      ∷ [])
    ≡ record { stream = 7; peer = some (bytes "a"); guard = some (new_idle_stream 1 5) }
      ∷ record { stream = 8; peer = none; guard = some (new_idle_stream 2 5) }
      ∷ []
unfolding accept_plain
accept_test = refl
