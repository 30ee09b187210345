-- ===== src/Shell/Line.antt =====
-- What run_repl of main.c makes of a submit line.
use socket_project.Prelude.{
  ℕ, zero, suc, ◌+◌, ◌-◌, ◌<◌, ◌≡◌, refl, ◌∙◌, ap, Bool, true, false, Option, some, List, [], ◌∷◌,
  ◌++◌, ◌==◌, arith, length, length-append, length-replicate, All, take, replicate,
}
use socket_project.Wire.{Bytes, strcmp_eq, max_filename_len}
use socket_project.Worker.{Task}
use socket_project.Shell.{
  fgets, c_string, strip_newline, after_prefix, skip_spaces, after_slash, basename, submit,
  submit_command, parse_line, command_of, File, read_file, new_task, dispatches, waits, Round, go,
  after, submit_file, obey, run_repl, newline, space, slash, submit_prefix, line_size,
}

-- A byte of a line: no NUL and no newline.
abbrev pub IsChar : ℕ → Type 0
IsChar c = ((c == 0) ≡ false) × ((c == newline) ≡ false)

abbrev pub IsLine : Bytes → Type 0
IsLine = All IsChar

fgets_line :
    (n : ℕ) (line rest : Bytes)
    → IsLine line
    → length line < n
    → fgets n (line ++ (newline ∷ rest)) ≡ (line ++ (newline ∷ []), rest)
unfolding fgets
fgets_line zero line rest h k = absurd (omega arith)
fgets_line (suc n) [] rest h k = refl
fgets_line (suc n) (c ∷ line) rest h k = rw (h.0.1, fgets_line n line rest h.1 (omega arith)) refl

c_string_line :
    (line : Bytes) → IsLine line → c_string (line ++ (newline ∷ [])) ≡ line ++ (newline ∷ [])
unfolding c_string
c_string_line [] h = refl
c_string_line (c ∷ line) h = rw (h.0.0, c_string_line line h.1) refl

strip_newline_line : (line : Bytes) → strip_newline (line ++ (newline ∷ [])) ≡ line
unfolding strip_newline
strip_newline_line [] = refl
strip_newline_line (c ∷ []) = refl
strip_newline_line (c ∷ d ∷ line) = ap (◌∷◌ c) (strip_newline_line (d ∷ line))

skip_spaces-replicate :
    (n c : ℕ) (s : Bytes)
    → (c == space) ≡ false
    → skip_spaces (replicate n space ++ (c ∷ s)) ≡ c ∷ s
unfolding skip_spaces
skip_spaces-replicate zero c s h = rw h refl
skip_spaces-replicate (suc n) c s h = skip_spaces-replicate n c s h

after_slash_none :
    (best name : Bytes) → All (λ c. (c == slash) ≡ false) name → after_slash best name ≡ best
unfolding after_slash
after_slash_none best [] h = refl
after_slash_none best (c ∷ name) h = rw h.0 (after_slash_none best name h.1)

after_slash_name :
    (dir name best : Bytes)
    → All (λ c. (c == slash) ≡ false) name
    → after_slash best (dir ++ (slash ∷ name)) ≡ name
unfolding after_slash
after_slash_name [] name best h = after_slash_none name name h
after_slash_name (c ∷ dir) name best h = after_slash_name dir name _ h

-- The line of a submit command, without its newline.
unfoldable pub submit_line : ℕ → Bytes → Bytes
submit_line spaces path = submit_prefix ++ (replicate spaces space ++ path)

spaces-IsLine : (n : ℕ) (path : Bytes) → IsLine path → IsLine (replicate n space ++ path)
spaces-IsLine zero path h = h
spaces-IsLine (suc n) path h = ((refl, refl), spaces-IsLine n path h)

submit_line-IsLine : (n : ℕ) (path : Bytes) → IsLine path → IsLine (submit_line n path)
unfolding submit_line
submit_line-IsLine n path h =
    let c : IsChar space = (refl, refl) in (c, (c, (c, (c, (c, (c, (c, spaces-IsLine n path h)))))))

length-submit_line : (n : ℕ) (path : Bytes) → length (submit_line n path) ≡ 7 + n + length path
unfolding submit_line
length-submit_line n path =
    omega (arith, length-append (replicate n space) path, length-replicate n space)

submit_command-some :
    (rest : Bytes) (c : ℕ) (path : Bytes)
    → skip_spaces rest ≡ c ∷ path
    → submit_command (some rest) ≡ submit (c ∷ path)
unfolding submit_command
submit_command-some rest c path e = rw e (ground arith)

command_of-submit_line :
    (n c : ℕ) (path : Bytes)
    → (c == space) ≡ false
    → command_of (submit_line n (c ∷ path)) ≡ submit (c ∷ path)
unfolding command_of submit_line strcmp_eq after_prefix
command_of-submit_line n c path s =
    submit_command-some (replicate n space ++ (c ∷ path)) c path (skip_spaces-replicate n c path s)

parse_line-submit_line :
    (n c : ℕ) (path : Bytes)
    → (c == space) ≡ false
    → IsLine (c ∷ path)
    → parse_line (submit_line n (c ∷ path) ++ (newline ∷ [])) ≡ submit (c ∷ path)
unfolding parse_line
parse_line-submit_line n c path s h =
    ap (λ l. command_of (strip_newline l))
      (c_string_line (submit_line n (c ∷ path)) (submit_line-IsLine n (c ∷ path) h))
    ∙ ap command_of (strip_newline_line (submit_line n (c ∷ path)))
    ∙ command_of-submit_line n c path s

-- one round
run_repl_line :
    (malloc : ℕ → Bool) (fopen : Bytes → Option File) (returns : Bool) (rounds : List Round)
    (line rest : Bytes)
    → IsLine line
    → length line < line_size - 1
    → run_repl malloc fopen (go returns ∷ rounds) (line ++ (newline ∷ rest))
      ≡ obey malloc fopen returns
          (parse_line (line ++ (newline ∷ [])))
          (run_repl malloc fopen rounds rest)
unfolding run_repl
run_repl_line malloc fopen returns rounds [] rest h k =
    rw (fgets_line (line_size - 1) [] rest h k) refl
run_repl_line malloc fopen returns rounds (c ∷ line) rest h k =
    rw (fgets_line (line_size - 1) (c ∷ line) rest h k) refl

run_repl_submits :
    (malloc : ℕ → Bool) (fopen : Bytes → Option File) (returns : Bool) (rounds : List Round)
    (spaces c : ℕ) (path rest : Bytes)
    → (c == space) ≡ false
    → IsLine (c ∷ path)
    → 7 + spaces + length (c ∷ path) < line_size - 1
    → run_repl malloc fopen
        (go returns ∷ rounds)
        (submit_line spaces (c ∷ path) ++ (newline ∷ rest))
      ≡ submit_file returns
          (c ∷ path)
          (read_file malloc (fopen (c ∷ path)))
          (run_repl malloc fopen rounds rest)
unfolding obey
run_repl_submits malloc fopen returns rounds spaces c path rest s h k =
    run_repl_line malloc fopen returns rounds (submit_line spaces (c ∷ path)) rest
      (submit_line-IsLine spaces (c ∷ path) h) (omega (arith, length-submit_line spaces (c ∷ path)))
    ∙ rw (parse_line-submit_line spaces c path s h) refl

-- When a line `submit`, a space, further spaces and a path with a slash in it fits the buffer, the
-- path does not start with a space and it holds no NUL and no newline, and read_file reads the
-- file, run_repl dispatches the file under what follows the last slash, cut to 255 bytes; it goes
-- on with the next line where that dispatch returns, and waits in it for good where it does not.
pub run_repl-submit_line :
    (malloc : ℕ → Bool) (fopen : Bytes → Option File) (rounds : List Round) (spaces c : ℕ)
    (dir name data' rest : Bytes)
    → (c == space) ≡ false
    → IsLine (c ∷ dir ++ (slash ∷ name))
    → All (λ c. (c == slash) ≡ false) name
    → 7 + spaces + length (c ∷ dir ++ (slash ∷ name)) < line_size - 1
    → read_file malloc (fopen (c ∷ dir ++ (slash ∷ name))) ≡ some data'
    → let line = submit_line spaces (c ∷ dir ++ (slash ∷ name)) ++ (newline ∷ rest) in
      let task : Task = record { filename = take (max_filename_len - 1) name; file_data = data' } in
      (run_repl malloc fopen (go true ∷ rounds) line
        ≡ after (dispatches task ∷ []) (run_repl malloc fopen rounds rest))
      × (run_repl malloc fopen (go false ∷ rounds) line ≡ waits (dispatches task ∷ []))
unfolding submit_file new_task basename
run_repl-submit_line malloc fopen rounds spaces c dir name data' rest s h n k e =
    let path = dir ++ (slash ∷ name) in
    let base : basename (c ∷ path) ≡ name = after_slash_name (c ∷ dir) name (c ∷ path) n in
    (
      run_repl_submits malloc fopen true rounds spaces c path rest s h k ∙ rw (e, base) refl,
      run_repl_submits malloc fopen false rounds spaces c path rest s h k ∙ rw (e, base) refl,
    )
