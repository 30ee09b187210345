-- ===== src/Shell/Rounds.antt =====
-- The rounds of run_repl in main.c.
use socket_project.Prelude.{
  ℕ, zero, suc, ◌-◌, ◌≤◌, ◌<◌, ◌≡◌, refl, ◌⊎◌, inl, inr, Bool, true, false, Option, none, some,
  List, [], ◌∷◌, arith, length, All, length-take,
}
use socket_project.Wire.{Bytes, max_file_size}
use socket_project.Worker.{parse_task}
use socket_project.Dispatcher.{task_payload}
use socket_project.Dispatcher.TaskFile.{IsTask, parse_task-task_payload}
use socket_project.Shell.{
  fgets, Command, nothing, peers, quit, submit, parse_line, File, read_sized, read_file, new_task,
  Action, lists_peers, dispatches, Repl, returned, goes_on, waits, Round, stop, go, after,
  submit_file, obey, run_repl, basename, line_size,
}

fgets_rest : (n : ℕ) (input : Bytes) → length (fgets n input).1 ≤ length input
unfolding fgets
fgets_rest zero input = omega arith
fgets_rest (suc n) [] = omega arith
fgets_rest (suc n) (c ∷ input) = ground (arith, fgets_rest n input)

fgets_shorter :
    (n : ℕ) (c : ℕ) (input : Bytes) → length (fgets (suc n) (c ∷ input)).1 < length (c ∷ input)
unfolding fgets
fgets_shorter n c input = ground (arith, fgets_rest n input)

-- In some round a dispatch does not return.
abbrev pub HasHung : List Round → Type 0
HasHung [] = ⊥
HasHung (r ∷ rounds) = (r ≡ go false) ⊎ HasHung rounds

-- run_repl has returned, or waits in a dispatch.
abbrev pub Ends : List Round → Repl → Type 0
Ends rounds r =
    ((l : List Action) × (r ≡ returned l)) ⊎ ((l : List Action) × (r ≡ waits l) × HasHung rounds)

Ends-later :
    (first : Round) (rounds : List Round) (r : Repl) → Ends rounds r → Ends (first ∷ rounds) r
Ends-later first rounds r (inl k) = inl k
Ends-later first rounds r (inr (l, e, h)) = inr (l, e, inr h)

after-Ends :
    (a : Action) (rounds : List Round) (r : Repl) → Ends rounds r → Ends rounds (after (a ∷ []) r)
unfolding after
after-Ends a rounds r (inl (l, e)) = inl (a ∷ l, rw e refl)
after-Ends a rounds r (inr (l, e, h)) = inr (a ∷ l, rw e refl, h)

submit_file-Ends :
    (returns : Bool) (path : Bytes) (file : Option Bytes) (rounds : List Round) (next : Repl)
    → Ends rounds next
    → Ends (go returns ∷ rounds) (submit_file returns path file next)
unfolding submit_file
submit_file-Ends returns path none rounds next e = Ends-later (go returns) rounds next e
submit_file-Ends true path (some data') rounds next e =
    Ends-later (go true) rounds _ (after-Ends (dispatches (new_task path data')) rounds next e)
submit_file-Ends false path (some data') rounds next e =
    inr (dispatches (new_task path data') ∷ [], refl, inl refl)

obey-Ends :
    (malloc : ℕ → Bool) (fopen : Bytes → Option File) (returns : Bool) (cmd : Command)
    (rounds : List Round) (next : Repl)
    → Ends rounds next
    → Ends (go returns ∷ rounds) (obey malloc fopen returns cmd next)
unfolding obey
obey-Ends malloc fopen returns nothing rounds next e = Ends-later (go returns) rounds next e
obey-Ends malloc fopen returns peers rounds next e =
    Ends-later (go returns) rounds _ (after-Ends lists_peers rounds next e)
obey-Ends malloc fopen returns quit rounds next e = inl ([], refl)
obey-Ends malloc fopen returns (submit path) rounds next e =
    submit_file-Ends returns path (read_file malloc (fopen path)) rounds next e

-- Within one round more than stdin has bytes run_repl has returned, whatever the rounds find in
-- g_running, or it waits in a dispatch that does not return.
pub run_repl-Ends :
    (malloc : ℕ → Bool) (fopen : Bytes → Option File) (rounds : List Round) (input : Bytes)
    → length input < length rounds
    → Ends rounds (run_repl malloc fopen rounds input)
unfolding run_repl
run_repl-Ends malloc fopen [] input h = absurd (omega arith)
run_repl-Ends malloc fopen (stop ∷ rounds) input h = inl ([], refl)
run_repl-Ends malloc fopen (go returns ∷ rounds) [] h = inl ([], refl)
run_repl-Ends malloc fopen (go returns ∷ rounds) (c ∷ input) h =
    let (line, rest) = fgets (line_size - 1) (c ∷ input) in
    obey-Ends malloc fopen returns (parse_line line) rounds (run_repl malloc fopen rounds rest)
      (run_repl-Ends malloc fopen rounds rest (omega (arith, fgets_shorter 4126 c input)))

-- What the worker's guards take out of a dispatched task is the task.
abbrev pub IsRunnable : Action → Type 0
IsRunnable lists_peers = Unit
IsRunnable (dispatches t) = parse_task (task_payload t) (length (task_payload t)) ≡ some t

abbrev pub actions : Repl → List Action
actions (returned l) = l
actions (waits l) = l
actions (goes_on l) = l

read_sized_fits :
    (malloc : ℕ → Bool) (contents : Bytes) (tell : Option ℕ) (data' : Bytes)
    → read_sized malloc contents tell ≡ some data'
    → length data' ≤ max_file_size
unfolding read_sized
read_sized_fits malloc contents none data' e = cc
read_sized_fits malloc contents (some sz) data' e = ground (arith, length-take sz contents)

read_file_fits :
    (malloc : ℕ → Bool) (f : Option File) (data' : Bytes)
    → read_file malloc f ≡ some data'
    → length data' ≤ max_file_size
unfolding read_file
read_file_fits malloc none data' e = cc
read_file_fits malloc (some f) data' e = read_sized_fits malloc f.contents f.tell data' e

new_task-IsTask : (path data' : Bytes) → length data' ≤ max_file_size → IsTask (new_task path data')
unfolding new_task
new_task-IsTask path data' h = record {
  name_fits = omega (arith, length-take 255 (basename path));
  file_fits = h;
}

new_task-IsRunnable :
    (path data' : Bytes)
    → length data' ≤ max_file_size
    → IsRunnable (dispatches (new_task path data'))
new_task-IsRunnable path data' h =
    parse_task-task_payload (new_task path data') (new_task-IsTask path data' h)

after-IsRunnable :
    (l : List Action) (r : Repl)
    → All IsRunnable l
    → All IsRunnable (actions r)
    → All IsRunnable (actions (after l r))
unfolding after
after-IsRunnable [] r h k = k
after-IsRunnable (a ∷ l) r h k = cons (after l r) (after-IsRunnable l r h.1 k)
  where
    cons :
        (r : Repl)
        → All IsRunnable (actions r)
        → All IsRunnable (
            actions (elim r [
              | returned l ↦ returned (a ∷ l)
              | waits l ↦ waits (a ∷ l)
              | goes_on l ↦ goes_on (a ∷ l)
            ]))
    cons (returned l) k = (h.0, k)
    cons (waits l) k = (h.0, k)
    cons (goes_on l) k = (h.0, k)

submit_file-IsRunnable :
    (returns : Bool) (path : Bytes) (file : Option Bytes) (next : Repl)
    → ((data' : Bytes) → file ≡ some data' → length data' ≤ max_file_size)
    → All IsRunnable (actions next)
    → All IsRunnable (actions (submit_file returns path file next))
unfolding submit_file
submit_file-IsRunnable returns path none next fits h = h
submit_file-IsRunnable true path (some data') next fits h =
    after-IsRunnable (dispatches (new_task path data') ∷ []) next
      (new_task-IsRunnable path data' (fits data' refl), tt) h
submit_file-IsRunnable false path (some data') next fits h =
    (new_task-IsRunnable path data' (fits data' refl), tt)

obey-IsRunnable :
    (malloc : ℕ → Bool) (fopen : Bytes → Option File) (returns : Bool) (cmd : Command) (next : Repl)
    → All IsRunnable (actions next)
    → All IsRunnable (actions (obey malloc fopen returns cmd next))
unfolding obey
obey-IsRunnable malloc fopen returns nothing next h = h
obey-IsRunnable malloc fopen returns peers next h =
    after-IsRunnable (lists_peers ∷ []) next (tt, tt) h
obey-IsRunnable malloc fopen returns quit next h = tt
obey-IsRunnable malloc fopen returns (submit path) next h =
    submit_file-IsRunnable returns path (read_file malloc (fopen path)) next
      (read_file_fits malloc (fopen path)) h

-- Whatever is typed and whatever the files hold, each task that run_repl dispatches is one whose
-- payload the worker's guards accept, and from which they take the same name and file.
pub run_repl-IsRunnable :
    (malloc : ℕ → Bool) (fopen : Bytes → Option File) (rounds : List Round) (input : Bytes)
    → All IsRunnable (actions (run_repl malloc fopen rounds input))
unfolding run_repl
run_repl-IsRunnable malloc fopen [] input = tt
run_repl-IsRunnable malloc fopen (stop ∷ rounds) input = tt
run_repl-IsRunnable malloc fopen (go returns ∷ rounds) [] = tt
run_repl-IsRunnable malloc fopen (go returns ∷ rounds) (c ∷ input) =
    let (line, rest) = fgets (line_size - 1) (c ∷ input) in
    obey-IsRunnable malloc fopen returns (parse_line line) (run_repl malloc fopen rounds rest)
      (run_repl-IsRunnable malloc fopen rounds rest)
