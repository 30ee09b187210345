-- ===== src/Processes.antt =====
-- New_socket_proj/worker.c: the threads of compile_and_stream and their child processes: pipe, fork, the
-- reads of stream_and_wait until the pipe's end, and waitpid. A fork copies all descriptors of the worker,
-- so a child holds the write ends that any thread has open at that moment; exec keeps them, and a child's
-- own forks, of which the worker knows nothing, pass them on.
pub mod Counts
pub mod Own
pub mod Progress
pub mod Races
pub mod Tests
use socket_project.Prelude.{
  ℕ, zero, suc, ◌+◌, ◌≡◌, ◌≢◌, Bool, true, false, ◌&&◌, ◌||◌, not, Option, none, some, List, [],
  ◌∷◌, ◌++◌, ◌==◌, if◌then◌else◌, get_elem?, set,
}
use socket_project.Worker.{WaitStatus, signaled}

-- A child that waitpid has not taken: the pipes that it can write to, and its status when it has ended.
pub record Child : Type 0 where
  pub pid : ℕ
  pub writes : List ℕ
  pub status : Option WaitStatus

-- Where a thread is with its pipe and its child. A pid of `none` is the -1 of a fork that failed. At the
-- end, a status of `none` is a variable that waitpid did not write.
pub data Stage : Type 0 where
  starts : Stage
  piped : ℕ → Stage
  forked : ℕ → Option ℕ → Stage
  reads : ℕ → Option ℕ → Stage
  waits : Option ℕ → Stage
  ended : Option WaitStatus → Stage

-- `open_pipes` are those whose write end the worker has open itself. `descendants` has, for each running
-- process that a child or another descendant forked, the pipes that it can write to.
pub record World : Type 0 where
  pub children : List Child
  pub descendants : List (List ℕ)
  pub open_pipes : List ℕ
  pub next_pipe : ℕ
  pub threads : List Stage

unfoldable pub count_pid : ℕ → List Child → ℕ
count_pid pid [] = 0
count_pid pid (c ∷ cs) = (if c.pid == pid then 1 else 0) + count_pid pid cs

unfoldable pub contains : ℕ → List ℕ → Bool
contains p [] = false
contains p (q ∷ qs) = p == q || contains p qs

unfoldable pub without : ℕ → List ℕ → List ℕ
without p [] = []
without p (q ∷ qs) = if p == q then without p qs else q ∷ without p qs

unfoldable pub is_running : Child → Bool
is_running c = elim c.status [ none ↦ true | some st ↦ false ]

-- A child can still write to the pipe.
unfoldable pub child_writes : ℕ → List Child → Bool
child_writes p [] = false
child_writes p (c ∷ cs) = is_running c && contains p c.writes || child_writes p cs

unfoldable pub descendant_writes : ℕ → List (List ℕ) → Bool
descendant_writes p [] = false
descendant_writes p (ps ∷ ds) = contains p ps || descendant_writes p ds

-- `read` returns 0: no process has the write end any more.
unfoldable pub at_end : ℕ → World → Bool
at_end p w =
    not (contains p w.open_pipes || child_writes p w.children || descendant_writes p w.descendants)

-- The end of a child; one that has ended keeps its status.
unfoldable pub end_child : WaitStatus → Child → Child
end_child st c = if is_running c then record c { status = some st } else c

unfoldable pub to_child : ℕ → (Child → Child) → List Child → List Child
to_child pid f [] = []
to_child pid f (c ∷ cs) = if c.pid == pid then f c ∷ cs else c ∷ to_child pid f cs

-- What waitpid finds: a child that still runs, one that it takes out of the table, or none (ECHILD).
pub data Waited : Type 0 where
  blocks : Waited
  takes : WaitStatus → List Child → Waited
  no_child : Waited

unfoldable pub beside : Child → Waited → Waited
beside c blocks = blocks
beside c (takes st cs) = takes st (c ∷ cs)
beside c no_child = no_child

unfoldable pub waitpid_one : ℕ → List Child → Waited
waitpid_one pid [] = no_child
waitpid_one pid (c ∷ cs) =
    if c.pid == pid
    then elim c.status [ none ↦ blocks | some st ↦ takes st cs ]
    else beside c (waitpid_one pid cs)

unfoldable pub or_blocks : Waited → Waited
or_blocks blocks = blocks
or_blocks (takes st cs) = takes st cs
or_blocks no_child = blocks

unfoldable pub waitpid_any : List Child → Waited
waitpid_any [] = no_child
waitpid_any (c ∷ cs) = elim c.status [
  | some st ↦ takes st cs
  | none ↦ or_blocks (beside c (waitpid_any cs))
]

-- `waitpid(-1, ...)` waits for any child.
unfoldable pub waitpid : Option ℕ → List Child → Waited
waitpid (some pid) cs = waitpid_one pid cs
waitpid none cs = waitpid_any cs

unfoldable pub at_stage : World → ℕ → Stage → World
at_stage w i s = record w { threads = set w.threads i s }

unfoldable pub pipe : ℕ → World → World
pipe i w = record (at_stage w i (piped w.next_pipe)) {
  open_pipes = w.next_pipe ∷ w.open_pipes;
  next_pipe = suc w.next_pipe;
}

unfoldable pub fork : ℕ → ℕ → ℕ → World → World
fork i p pid w = record (at_stage w i (forked p (some pid))) {
  children = record { pid = pid; writes = w.open_pipes; status = none } ∷ w.children;
}

unfoldable pub close_write : ℕ → ℕ → Option ℕ → World → World
close_write i p pid w = record (at_stage w i (reads p pid)) { open_pipes = without p w.open_pipes }

-- A pid of -1 is every process that the worker may signal.
unfoldable pub kill_children : Option ℕ → List Child → List Child
kill_children (some pid) cs = to_child pid (end_child (signaled 9)) cs
kill_children none [] = []
kill_children none (c ∷ cs) = end_child (signaled 9) c ∷ kill_children none cs

-- A signal to one child leaves its descendants alone.
unfoldable pub kill_descendants : Option ℕ → List (List ℕ) → List (List ℕ)
kill_descendants (some pid) ds = ds
kill_descendants none ds = []

-- `kill(child_pid, SIGKILL)`, and on to waitpid.
unfoldable pub kill : ℕ → Option ℕ → World → World
kill i pid w = record (at_stage w i (waits pid)) {
  children = kill_children pid w.children;
  descendants = kill_descendants pid w.descendants;
}

-- A step of any thread or child; `may_fail` says whether a fork may fail.
pub data Step (may_fail : Bool) : World → World → Type 0 where
  makes_pipe :
      {w : World} (i : ℕ) → get_elem? w.threads i ≡ some starts → Step may_fail w (pipe i w)
  forks :
      {w : World} (i p pid : ℕ)
      → get_elem? w.threads i ≡ some (piped p)
      → count_pid pid w.children ≡ 0
      → Step may_fail w (fork i p pid w)
  fork_fails :
      {w : World} (i p : ℕ)
      → get_elem? w.threads i ≡ some (piped p)
      → may_fail ≡ true
      → Step may_fail w (at_stage w i (forked p none))
  closes :
      {w : World} (i p : ℕ) (pid : Option ℕ)
      → get_elem? w.threads i ≡ some (forked p pid)
      → Step may_fail w (close_write i p pid w)
  sees_end :
      {w : World} (i p : ℕ) (pid : Option ℕ)
      → get_elem? w.threads i ≡ some (reads p pid)
      → at_end p w ≡ true
      → Step may_fail w (at_stage w i (waits pid))
  -- The client is gone when a child's output is to be sent.
  gives_up :
      {w : World} (i p : ℕ) (pid : Option ℕ)
      → get_elem? w.threads i ≡ some (reads p pid)
      → Step may_fail w (kill i pid w)
  read_fails :
      {w : World} (i p : ℕ) (pid : Option ℕ)
      → get_elem? w.threads i ≡ some (reads p pid)
      → Step may_fail w (at_stage w i (waits pid))
  waited :
      {w : World} (i : ℕ) (pid : Option ℕ) (st : WaitStatus) (cs : List Child)
      → get_elem? w.threads i ≡ some (waits pid)
      → waitpid pid w.children ≡ takes st cs
      → Step may_fail w (record (at_stage w i (ended (some st))) { children = cs })
  wait_fails :
      {w : World} (i : ℕ) (pid : Option ℕ)
      → get_elem? w.threads i ≡ some (waits pid)
      → waitpid pid w.children ≡ no_child
      → Step may_fail w (at_stage w i (ended none))
  -- The thread's next child, or another task.
  again :
      {w : World} (i : ℕ) (st : Option WaitStatus)
      → get_elem? w.threads i ≡ some (ended st)
      → Step may_fail w (at_stage w i starts)
  exits :
      {w : World} (pid : ℕ) (st : WaitStatus)
      → Step may_fail w (record w { children = to_child pid (end_child st) w.children })
  closes_output :
      {w : World} (pid p : ℕ)
      → Step may_fail w (record w {
        children = to_child pid (λ c. record c { writes = without p c.writes }) w.children;
      })
  child_forks :
      {w : World} (front : List Child) (c : Child) (back : List Child)
      → w.children ≡ front ++ c ∷ back
      → is_running c ≡ true
      → Step may_fail w (record w { descendants = c.writes ∷ w.descendants })
  descendant_forks :
      {w : World} (front : List (List ℕ)) (ps : List ℕ) (back : List (List ℕ))
      → w.descendants ≡ front ++ ps ∷ back
      → Step may_fail w (record w { descendants = ps ∷ w.descendants })
  descendant_closes :
      {w : World} (front : List (List ℕ)) (ps : List ℕ) (back : List (List ℕ)) (p : ℕ)
      → w.descendants ≡ front ++ ps ∷ back
      → Step may_fail w (record w { descendants = front ++ without p ps ∷ back })
  descendant_ends :
      {w : World} (front : List (List ℕ)) (ps : List ℕ) (back : List (List ℕ))
      → w.descendants ≡ front ++ ps ∷ back
      → Step may_fail w (record w { descendants = front ++ back })

pub data Steps (may_fail : Bool) : World → World → Type 0 where
  stay : {w : World} → Steps may_fail w w
  more : {w v u : World} → Steps may_fail w v → Step may_fail v u → Steps may_fail w u

unfoldable pub all_start : ℕ → List Stage
all_start zero = []
all_start (suc n) = starts ∷ all_start n

-- A worker with `n` threads, and no child.
unfoldable pub worker : ℕ → World
worker n = record {
  children = [];
  descendants = [];
  open_pipes = [];
  next_pipe = 0;
  threads = all_start n;
}
