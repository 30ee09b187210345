-- ===== src/Shell/Tests.antt =====
-- run_repl of main.c at concrete inputs.
use socket_project.Prelude.{◌≡◌, refl, true, false, some, List, [], ◌∷◌, ◌++◌, arith, All, Option}
use socket_project.Wire.{Bytes, strcmp_eq}
use socket_project.Worker.{Task}
use socket_project.Shell.{
  fgets, c_string, strip_newline, after_prefix, skip_spaces, after_slash, basename, submit_command,
  command_of, parse_line, File, read_sized, read_file, new_task, lists_peers, dispatches, returned,
  waits, Round, go, after, submit_file, obey, run_repl, newline, slash, peers_word, quit_word,
  submit_prefix,
}
use socket_project.Shell.Line.{submit_line, run_repl-submit_line}
use socket_project.Shell.Rounds.{IsRunnable, actions, run_repl-IsRunnable}

-- Every file holds "x;".
abbrev disk : Bytes → Option File
disk path = some (record { tell = some 2; contents = 120 ∷ 59 ∷ [] })

abbrev rounds : List Round
rounds = go true ∷ go true ∷ go true ∷ go true ∷ []

-- "peers", "submit d/a", "quit"
abbrev session : Bytes
session =
    peers_word
    ++ (newline ∷ submit_prefix ++ (100 ∷ 47 ∷ 97 ∷ newline ∷ quit_word ++ (newline ∷ [])))

session_actions :
    run_repl (λ n. true) disk rounds session
    ≡ returned
        (lists_peers ∷ dispatches (record { filename = 97 ∷ []; file_data = 120 ∷ 59 ∷ [] }) ∷ [])
unfolding fgets c_string strip_newline after_prefix skip_spaces after_slash basename submit_command
    command_of parse_line read_sized read_file new_task after submit_file obey run_repl strcmp_eq
session_actions = refl

run_repl-IsRunnable_example : All IsRunnable (actions (run_repl (λ n. true) disk rounds session))
run_repl-IsRunnable_example = run_repl-IsRunnable (λ n. true) disk rounds session

read_disk : read_file (λ n. true) (disk (100 ∷ slash ∷ 97 ∷ [])) ≡ some (120 ∷ 59 ∷ [])
unfolding read_file read_sized
read_disk = refl

abbrev typed : Bytes
typed = submit_line 2 (100 ∷ slash ∷ 97 ∷ []) ++ (newline ∷ [])

abbrev small : Task
small = record { filename = 97 ∷ []; file_data = 120 ∷ 59 ∷ [] }

run_repl-submit_line_example :
    (run_repl (λ n. true) disk (go true ∷ []) typed
      ≡ after (dispatches small ∷ []) (run_repl (λ n. true) disk [] []))
    × (run_repl (λ n. true) disk (go false ∷ []) typed ≡ waits (dispatches small ∷ []))
run_repl-submit_line_example =
    run_repl-submit_line (λ n. true) disk [] 2 100 [] (97 ∷ []) (120 ∷ 59 ∷ []) [] refl
      ((refl, refl), ((refl, refl), ((refl, refl), tt))) (refl, tt) (omega arith) read_disk
