-- ===== src/Acceptor/Connections/Tests.antt =====
-- Two connections at a worker with one descriptor open.
use socket_project.Prelude.{arith, ℕ, ◌≡◌, refl, Bool, false, [], ◌∷◌, List}
use socket_project.Processes.{contains}
use socket_project.Acceptor.Connections.{
  receiving, writing, World, take_connection, close_connection, opens_source, accepts, moves,
  returns, counts, Steps, stay, more, no_connections, gets_no_task, closing,
}
use socket_project.Acceptor.Connections.Once.{
  IsDistinct, Once, every, times, held, no_connections-Once,
}
use socket_project.Acceptor.Connections.Lost.{take_connection_lost}

-- The server's socket.
abbrev listening : List ℕ
listening = 3 ∷ []

listening-IsDistinct : IsDistinct listening
unfolding times
listening-IsDistinct fd = ground arith

abbrev first : World
first = take_connection (every 4) 4 (no_connections listening)

abbrev second : World
second = take_connection (every 5) 5 first

-- The thread of 5 has its source file open, and that of 4 has no task.
abbrev busy : World
busy = record {
  fds = 6 ∷ 5 ∷ 4 ∷ 3 ∷ [];
  threads = record { cfd = 5; stage = writing 6 } ∷ record { cfd = 4; stage = closing } ∷ [];
  others = 3 ∷ [];
  active_tasks = 0;
}

abbrev one_left : World
one_left = close_connection 4 (record { cfd = 5; stage = writing 6 } ∷ []) busy

second_taken : Steps every (no_connections listening) second
unfolding no_connections take_connection contains
second_taken = more (more stay (accepts 4 refl)) (accepts 5 refl)

busy_taken : Steps every (no_connections listening) busy
unfolding no_connections take_connection contains
busy_taken =
    more
      (more second_taken (
        moves [] 5 receiving (writing 6) (record { cfd = 4; stage = receiving } ∷ [])
          (6 ∷ 5 ∷ 4 ∷ 3 ∷ []) refl (opens_source 6 refl)))
      (moves (record { cfd = 5; stage = writing 6 } ∷ []) 4 receiving closing []
        (6 ∷ 5 ∷ 4 ∷ 3 ∷ []) refl gets_no_task)

two_connections : Steps every (no_connections listening) one_left
unfolding no_connections
two_connections = more busy_taken (returns (record { cfd = 5; stage = writing 6 } ∷ []) 4 [] refl)

no_connections-Once_example : Once one_left
no_connections-Once_example =
    no_connections-Once listening one_left listening-IsDistinct two_connections

abbrev never : ℕ → Bool
never n = false

abbrev busier : World
busier = record (take_connection (never 4) 4 (no_connections listening)) { active_tasks = 2 }

take_connection_lost_example : times 4 busier.fds ≡ 1
unfolding no_connections contains held times
take_connection_lost_example =
    take_connection_lost never 4 (no_connections listening) busier refl refl refl refl refl
      (more stay (counts 2))
