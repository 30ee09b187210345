-- ===== src/Acceptor/Connections.antt =====
-- New_socket_proj/worker.c, its descriptors: accept_loop opens a connection, and the threads of
-- handle_connection and compile_and_stream open and close theirs, in any order. The count of active tasks
-- changes freely here. A second pipe that fails leaves its descriptors undefined, and has no step.
pub mod Once
pub mod Lost
pub mod Tests
use socket_project.Prelude.{
  ℕ, ◌≡◌, Bool, true, false, List, [], ◌∷◌, ◌++◌, leb, ◌==◌, if◌then◌else◌,
}
use socket_project.Acceptor.{max_concurrent_tasks}
use socket_project.Processes.{contains, without}

-- Where a connection's thread is, with the descriptors that it has open beside the connection: the
-- source's FILE, and the ends of a pipe, the one for reading first.
pub data Stage : Type 0 where
  receiving : Stage
  writing : ℕ → Stage
  written : Stage
  gcc_piped : ℕ → ℕ → Stage
  gcc_reads : ℕ → Stage
  compiled : Stage
  run_piped : ℕ → ℕ → Stage
  run_reads : ℕ → Stage
  closing : Stage

pub record Thread : Type 0 where
  pub cfd : ℕ
  pub stage : Stage

-- The numbers of all open descriptors of the process, the threads of handle_connection, the descriptors
-- that the process's other threads have open, and what load_get_active_tasks gives.
pub record World : Type 0 where
  pub fds : List ℕ
  pub threads : List Thread
  pub others : List ℕ
  pub active_tasks : ℕ

-- What accept_loop does with a new connection; `creates` says whether pthread_create succeeds.
unfoldable pub take_connection : Bool → ℕ → World → World
take_connection creates cfd w =
    let fds = cfd ∷ w.fds in
    if leb max_concurrent_tasks w.active_tasks
    then record w { fds = without cfd fds }
    else record w {
      fds = fds;
      threads = if creates then record { cfd = cfd; stage = receiving } ∷ w.threads else w.threads;
    }

-- A number that is not in use.
abbrev pub IsFree : ℕ → List ℕ → Type 0
IsFree fd fds = contains fd fds ≡ false

-- One step of a thread, with the open descriptors.
pub data Move : List ℕ → Stage → List ℕ → Stage → Type 0 where
  -- recv_msg fails, the message is no task or too short, or the source file does not open.
  gets_no_task : {t : List ℕ} → Move t receiving t closing
  opens_source : {t : List ℕ} (f : ℕ) → IsFree f t → Move t receiving (f ∷ t) (writing f)
  closes_source : {t : List ℕ} {f : ℕ} → Move t (writing f) (without f t) written
  pipe_fails : {t : List ℕ} → Move t written t compiled
  gcc_pipe :
      {t : List ℕ} (r w : ℕ)
      → IsFree r t
      → IsFree w (r ∷ t)
      → Move t written (w ∷ r ∷ t) (gcc_piped r w)
  gcc_closes_write : {t : List ℕ} {r w : ℕ} → Move t (gcc_piped r w) (without w t) (gcc_reads r)
  gcc_ends :
      {t : List ℕ} {r : ℕ} (compile_exit : ℕ)
      → Move t (gcc_reads r) (without r t) (if compile_exit == 0 then compiled else closing)
  run_pipe :
      {t : List ℕ} (r w : ℕ)
      → IsFree r t
      → IsFree w (r ∷ t)
      → Move t compiled (w ∷ r ∷ t) (run_piped r w)
  run_closes_write : {t : List ℕ} {r w : ℕ} → Move t (run_piped r w) (without w t) (run_reads r)
  run_ends : {t : List ℕ} {r : ℕ} → Move t (run_reads r) (without r t) closing

-- `close(cfd)` at the end of handle_connection, which leaves the other threads.
unfoldable pub close_connection : ℕ → List Thread → World → World
close_connection cfd others w = record w { fds = without cfd w.fds; threads = others }

-- `created` says of each connection whether its thread can be made. The kernel gives a new connection
-- a number that is not in use.
pub data Step (created : ℕ → Bool) : World → World → Type 0 where
  accepts :
      {w : World} (cfd : ℕ)
      → IsFree cfd w.fds
      → Step created w (take_connection (created cfd) cfd w)
  moves :
      {w : World} (front : List Thread) (cfd : ℕ) (s s' : Stage) (back : List Thread) (fds : List ℕ)
      → w.threads ≡ front ++ record { cfd = cfd; stage = s } ∷ back
      → Move w.fds s fds s'
      → Step created w
          (record w { fds = fds; threads = front ++ record { cfd = cfd; stage = s' } ∷ back })
  returns :
      {w : World} (front : List Thread) (cfd : ℕ) (back : List Thread)
      → w.threads ≡ front ++ record { cfd = cfd; stage = closing } ∷ back
      → Step created w (close_connection cfd (front ++ back) w)
  -- Another thread of the process: the shell's dispatch, the listener and so on.
  opens_other :
      {w : World} (n : ℕ)
      → IsFree n w.fds
      → Step created w (record w { fds = n ∷ w.fds; others = n ∷ w.others })
  closes_other :
      {w : World} (front : List ℕ) (n : ℕ) (back : List ℕ)
      → w.others ≡ front ++ n ∷ back
      → Step created w (record w { fds = without n w.fds; others = front ++ back })
  counts : {w : World} (n : ℕ) → Step created w (record w { active_tasks = n })

pub data Steps (created : ℕ → Bool) : World → World → Type 0 where
  stay : {w : World} → Steps created w w
  more : {w v u : World} → Steps created w v → Step created v u → Steps created w u

-- Before the first connection.
unfoldable pub no_connections : List ℕ → World
no_connections fds = record { fds = fds; threads = []; others = fds; active_tasks = 0 }
