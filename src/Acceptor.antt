-- ===== src/Acceptor.antt =====
-- New_socket_proj/worker.c: accept_loop beside the connection threads that it makes. Every thread is a
-- counter's unit here, and each step is one that the threads take in any order: the load counters are
-- atomic. A connection receives its task before compile_and_stream counts it, and each of the paths
-- through compile_and_stream has its own step, with the calls of load_task_start and load_task_done that
-- stand on it.
pub mod Limit
pub mod Connections
pub mod Tests
use socket_project.Prelude.{ℕ, zero, suc, ◌+◌, ◌≡◌, Bool, true, false, leb, ◌==◌, if◌then◌else◌}
use socket_project.NetUtils.{eintr}
use socket_project.LoadMonitor.{Load, load_task_start, load_task_done}

abbrev pub max_concurrent_tasks : ℕ
max_concurrent_tasks = 8

-- What `accept` returns: a connection, or -1 with this errno.
pub data Accepted : Type 0 where
  connection : Accepted
  error : ℕ → Accepted

-- The counters, whether accept_loop still runs, the connections that have not counted a task yet, and the
-- threads in compile_and_stream: before the source file is written, while gcc runs, and after.
pub record Node : Type 0 where
  pub load : Load
  pub accepting : Bool
  pub receiving : ℕ
  pub opening : ℕ
  pub compiling : ℕ
  pub running : ℕ

-- One round of accept_loop.
unfoldable pub accept_round : Accepted → Node → Node
accept_round (error errno) n = if errno == eintr then n else record n { accepting = false }
accept_round connection n =
    if leb max_concurrent_tasks n.load.active_tasks
    then n
    else record n { receiving = suc n.receiving }

-- The parts of compile_and_stream for one thread; the number is what is left where it was. It begins:
unfoldable pub begin_task : ℕ → Node → Node
begin_task r n = record n { load = load_task_start n.load; receiving = r; opening = suc n.opening }

-- `if (!f)`
unfoldable pub fail_open : ℕ → Node → Node
fail_open k n = record n { load = load_task_done n.load; opening = k }

unfoldable pub write_source : ℕ → Node → Node
write_source k n = record n { opening = k; compiling = suc n.compiling }

-- `if (compile_exit != 0)`
unfoldable pub fail_compile : ℕ → Node → Node
fail_compile k n = record n { load = load_task_done n.load; compiling = k }

unfoldable pub start_binary : ℕ → Node → Node
start_binary k n = record n { compiling = k; running = suc n.running }

unfoldable pub end_task : ℕ → Node → Node
end_task k n = record n { load = load_task_done n.load; running = k }

-- The threads in compile_and_stream.
unfoldable pub tasks : Node → ℕ
tasks n = n.opening + n.compiling + n.running

-- `may n` says whether a client connects in `n`: `anytime` is no restriction.
pub data Step (may : Node → Bool) : Node → Node → Type 0 where
  accepts :
      {n : Node} (a : Accepted) → n.accepting ≡ true → may n ≡ true → Step may n (accept_round a n)
  drops : {n : Node} {r : ℕ} → n.receiving ≡ suc r → Step may n (record n { receiving = r })
  starts : {n : Node} {r : ℕ} → n.receiving ≡ suc r → Step may n (begin_task r n)
  fails_open : {n : Node} {k : ℕ} → n.opening ≡ suc k → Step may n (fail_open k n)
  writes : {n : Node} {k : ℕ} → n.opening ≡ suc k → Step may n (write_source k n)
  fails_compile : {n : Node} {k : ℕ} → n.compiling ≡ suc k → Step may n (fail_compile k n)
  runs : {n : Node} {k : ℕ} → n.compiling ≡ suc k → Step may n (start_binary k n)
  finishes : {n : Node} {k : ℕ} → n.running ≡ suc k → Step may n (end_task k n)

pub data Steps (may : Node → Bool) : Node → Node → Type 0 where
  stay : {n : Node} → Steps may n n
  more : {n m k : Node} → Steps may n m → Step may m k → Steps may n k

unfoldable pub worker_start : Node
worker_start = record {
  load = record { active_tasks = 0; total_tasks = 0 };
  accepting = true;
  receiving = 0;
  opening = 0;
  compiling = 0;
  running = 0;
}

unfoldable pub anytime : Node → Bool
anytime n = true

-- Clients that connect only when no connection waits for its task.
unfoldable pub one_by_one : Node → Bool
one_by_one n = n.receiving == 0
