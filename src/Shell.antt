-- ===== src/Shell.antt =====
-- New_socket_proj/main.c: run_repl, the input loop of a node, and read_file. stdin is the bytes that
-- are still to come; what is printed is left out. A C string is a byte list without its NUL.
pub mod Line
pub mod Rounds
pub mod Tests
use socket_project.Prelude.{
  ℕ, zero, suc, ◌+◌, ◌*◌, ◌-◌, Bool, true, false, ◌||◌, Option, none, some, List, [], ◌∷◌, ltb,
  ◌==◌, if◌then◌else◌, length, take,
}
use socket_project.Wire.{Bytes, strcmp_eq, max_file_size, max_filename_len}
use socket_project.Worker.{Task}

abbrev pub line_size : ℕ
line_size = 4096 + 32

abbrev pub newline : ℕ
newline = 10

abbrev pub space : ℕ
space = 32

abbrev pub slash : ℕ
slash = 47

abbrev pub peers_word : Bytes
peers_word = 112 ∷ 101 ∷ 101 ∷ 114 ∷ 115 ∷ []

abbrev pub quit_word : Bytes
quit_word = 113 ∷ 117 ∷ 105 ∷ 116 ∷ []

abbrev pub exit_word : Bytes
exit_word = 101 ∷ 120 ∷ 105 ∷ 116 ∷ []

abbrev pub submit_prefix : Bytes
submit_prefix = 115 ∷ 117 ∷ 98 ∷ 109 ∷ 105 ∷ 116 ∷ space ∷ []

-- `fgets`: at most `n` bytes, up to the newline and with it; and what is left of the input.
unfoldable pub fgets : ℕ → Bytes → Bytes × Bytes
fgets zero input = ([], input)
fgets (suc n) [] = ([], [])
fgets (suc n) (c ∷ input) =
    let (line, rest) = fgets n input in if c == newline then (c ∷ [], input) else (c ∷ line, rest)

-- A buffer as the C string in it.
unfoldable pub c_string : Bytes → Bytes
c_string [] = []
c_string (c ∷ s) = if c == 0 then [] else c ∷ c_string s

unfoldable pub strip_newline : Bytes → Bytes
strip_newline [] = []
strip_newline (c ∷ []) = if c == newline then [] else c ∷ []
strip_newline (c ∷ d ∷ s) = c ∷ strip_newline (d ∷ s)

-- What follows the prefix: `strncmp(line, "submit ", 7) == 0` and `line + 7`.
unfoldable pub after_prefix : Bytes → Bytes → Option Bytes
after_prefix [] s = some s
after_prefix (p ∷ ps) [] = none
after_prefix (p ∷ ps) (c ∷ s) = if p == c then after_prefix ps s else none

unfoldable pub skip_spaces : Bytes → Bytes
skip_spaces [] = []
skip_spaces (c ∷ s) = if c == space then skip_spaces s else c ∷ s

-- `strrchr(path, '/')`: what follows the last slash of `s`, and `best` where `s` has none.
unfoldable pub after_slash : Bytes → Bytes → Bytes
after_slash best [] = best
after_slash best (c ∷ s) = after_slash (if c == slash then s else best) s

unfoldable pub basename : Bytes → Bytes
basename path = after_slash path path

-- What a line asks for; `nothing` for an empty line, a submit without a path, and any other line.
pub data Command : Type 0 where
  nothing : Command
  peers : Command
  quit : Command
  submit : Bytes → Command

unfoldable pub submit_command : Option Bytes → Command
submit_command none = nothing
submit_command (some rest) =
    if length (skip_spaces rest) == 0 then nothing else submit (skip_spaces rest)

unfoldable pub command_of : Bytes → Command
command_of line =
    if strcmp_eq line peers_word
    then peers
    else (if strcmp_eq line quit_word || strcmp_eq line exit_word
        then quit
        else submit_command (after_prefix submit_prefix line))

unfoldable pub parse_line : Bytes → Command
parse_line buf = command_of (strip_newline (c_string buf))

-- What `ftell` says at the end of the file, `none` for -1, and what `fread` can get.
pub record File : Type 0 where
  pub tell : Option ℕ
  pub contents : Bytes

-- `none` for a file that does not open.
unfoldable pub read_sized : (ℕ → Bool) → Bytes → Option ℕ → Option Bytes
read_sized malloc contents none = none
read_sized malloc contents (some sz) =
    if sz == 0 || ltb max_file_size sz
    then none
    else (if malloc sz
        then (if ltb (length contents) sz then none else some (take sz contents))
        else none)

unfoldable pub read_file : (ℕ → Bool) → Option File → Option Bytes
read_file malloc none = none
read_file malloc (some f) = read_sized malloc f.contents f.tell

unfoldable pub new_task : Bytes → Bytes → Task
new_task path data' = record {
  filename = take (max_filename_len - 1) (basename path);
  file_data = data';
}

-- What run_repl calls: `peer_list_print` or `dispatch`.
pub data Action : Type 0 where
  lists_peers : Action
  dispatches : Task → Action

-- run_repl returned, waits in its last action, a dispatch that does not return, or is cut off after the
-- rounds of the model.
pub data Repl : Type 0 where
  returned : List Action → Repl
  waits : List Action → Repl
  goes_on : List Action → Repl

unfoldable pub after : List Action → Repl → Repl
after [] r = r
after (a ∷ as') r = elim (after as' r) [
  | returned l ↦ returned (a ∷ l)
  | waits l ↦ waits (a ∷ l)
  | goes_on l ↦ goes_on (a ∷ l)
]

-- What the test of `g_running` finds in a round, and, where it goes, whether a dispatch of that round
-- returns: the peer may never send MSG_TASK_DONE.
pub data Round : Type 0 where
  stop : Round
  go : Bool → Round

-- `dispatch` and what comes after it, once the file is read.
unfoldable pub submit_file : Bool → Bytes → Option Bytes → Repl → Repl
submit_file returns path none next = next
submit_file true path (some data') next = after (dispatches (new_task path data') ∷ []) next
submit_file false path (some data') next = waits (dispatches (new_task path data') ∷ [])

-- The rest of a round, given what the coming rounds do.
unfoldable pub obey : (ℕ → Bool) → (Bytes → Option File) → Bool → Command → Repl → Repl
obey malloc fopen returns nothing next = next
obey malloc fopen returns peers next = after (lists_peers ∷ []) next
obey malloc fopen returns quit next = returned []
obey malloc fopen returns (submit path) next =
    submit_file returns path (read_file malloc (fopen path)) next

-- One round for each `Round`.
unfoldable pub run_repl : (ℕ → Bool) → (Bytes → Option File) → List Round → Bytes → Repl
run_repl malloc fopen [] input = goes_on []
run_repl malloc fopen (stop ∷ rounds) input = returned []
run_repl malloc fopen (go returns ∷ rounds) [] = returned []
run_repl malloc fopen (go returns ∷ rounds) (c ∷ input) =
    let (line, rest) = fgets (line_size - 1) (c ∷ input) in
    obey malloc fopen returns (parse_line line) (run_repl malloc fopen rounds rest)
