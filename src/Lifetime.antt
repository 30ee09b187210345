-- ===== src/Lifetime.antt =====
-- New_socket_proj/main.c: `main` from its arguments to its end, with discovery_send_bye of
-- New_socket_proj/discovery.c.
pub mod Bye
pub mod Tests
use socket_project.Prelude.{ℕ, Bool, Option, none, some, List}
use socket_project.Wire.{Bytes, msg_bye}
use socket_project.LocalIp.{Interface}
use socket_project.Descriptors.{Table, Kernel}
use socket_project.Discovery.{Discovery, send_broadcast}
use socket_project.Startup.{Running, start}
use socket_project.Shell.{File, Action, Repl, returned, waits, goes_on, Round, run_repl}

-- `main` exits before the prompt, returns with the datagram of its BYE, waits in its last action, a
-- dispatch that does not return, or is cut off at the prompt after the rounds of the model.
pub data Exit : Type 0 where
  exits : Exit
  returns : Running → List Action → Option Bytes → Exit
  hangs : Running → List Action → Exit
  prompts : Running → List Action → Exit

unfoldable pub discovery_send_bye : Discovery → Bytes → Option Bytes
discovery_send_bye d hostname = send_broadcast d hostname msg_bye

unfoldable pub after_repl : Running → Bytes → Repl → Exit
after_repl r hostname (returned actions) =
    returns r actions (discovery_send_bye r.discovery hostname)
after_repl r hostname (waits actions) = hangs r actions
after_repl r hostname (goes_on actions) = prompts r actions

-- What `main` is given: the kernel's answers, malloc and the file system, what gethostname writes, what
-- each round of the shell finds in g_running and whether a dispatch in it returns, and stdin.
pub record Given : Type 0 where
  pub tcp : Kernel
  pub udp : Kernel
  pub interfaces : Option (List Interface)
  pub descriptors : Table
  pub malloc : ℕ → Bool
  pub fopen : Bytes → Option File
  pub hostname : Bytes
  pub rounds : List Round
  pub input : Bytes

unfoldable pub main : Given → List Bytes → Exit
main h argv = elim (start h.tcp h.udp h.interfaces argv h.descriptors) [
  | none ↦ exits
  | some r ↦ after_repl r h.hostname (run_repl h.malloc h.fopen h.rounds h.input)
]
