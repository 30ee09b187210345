-- ===== src/TempFiles/Cleanup.antt =====
-- The source file of the process after its tasks, in any order of the threads' turns.
use socket_project.Prelude.{
  ℕ, zero, suc, ◌≡◌, refl, ap, Bool, true, false, ◌||◌, ◌⊎◌, inl, inr, none, List, [], ◌∷◌,
  if◌then◌else◌, arith,
}
use socket_project.NetUtils.{Io, done, failed, blocked}
use socket_project.TempFiles.{
  Disk, Stage, received, opened, written, compiled, refused, executed, source_gone, finished,
  waiting, Thread, after_gcc, after_run, close_task, turn, turn_of, run_turns, booted, fwrite,
}

-- The thread has opened the source file and is still to remove it.
unfoldable pub is_holding : Stage → Bool
is_holding (received _) = false
is_holding source_gone = false
is_holding finished = false
is_holding _ = true

unfoldable pub any_holding : List Thread → Bool
any_holding [] = false
any_holding (t ∷ ts) = is_holding t.stage || any_holding ts

-- What one turn does to the name of the source file.
Keeps : Stage → Disk → Thread × Disk → Type 0
Keeps s d x =
    (x.1.source ≡ none)
    ⊎ ((is_holding x.0.stage ≡ true) ⊎ ((x.1.source ≡ d.source) × (is_holding s ≡ false)))

after_gcc-holding : (r : Io ℕ) (t : Thread) → is_holding (after_gcc r t).stage ≡ true
unfolding after_gcc is_holding
after_gcc-holding (done code s) t = ground arith
after_gcc-holding (failed s) t = refl
after_gcc-holding (blocked s) t = refl

after_run-holding : (r : Io ℕ) (t : Thread) → is_holding (after_run r t).stage ≡ true
unfolding after_run is_holding
after_run-holding (done code s) t = ground arith
after_run-holding (failed s) t = refl
after_run-holding (blocked s) t = refl

if-Keeps :
    (s : Stage) (d : Disk) (b : Bool) (x y : Thread × Disk)
    → Keeps s d x
    → Keeps s d y
    → Keeps s d (if b then x else y)
if-Keeps s d true x y h k = h
if-Keeps s d false x y h k = k

turn-Keeps : (s : Stage) (t : Thread) (d : Disk) → t.stage ≡ s → Keeps s d (turn s t d)
unfolding Keeps turn is_holding close_task fwrite
turn-Keeps (received c) t d e =
    if-Keeps (received c) d t.env.opens _ _ (inr (inl refl)) (inr (inr (refl, refl)))
turn-Keeps (opened c i) t d e = inr (inl refl)
turn-Keeps written t d e =
    if-Keeps written d t.env.pipes _ _ (inr (inl (after_gcc-holding _ _))) (inr (inl refl))
turn-Keeps compiled t d e = inr (inl (after_run-holding _ _))
turn-Keeps refused t d e = inl refl
turn-Keeps executed t d e = inl refl
turn-Keeps source_gone t d e = inr (inr (refl, refl))
turn-Keeps finished t d e = inr (inr (refl, refl))
turn-Keeps waiting t d e = inr (inl (ap is_holding e))

abbrev IsKept : List Thread → Disk → Type 0
IsKept ts d = (d.source ≡ none) ⊎ (any_holding ts ≡ true)

turn_of-IsKept :
    (k : ℕ) (ts : List Thread) (d : Disk)
    → IsKept ts d
    → IsKept (turn_of k ts d).0 (turn_of k ts d).1
unfolding turn_of Keeps any_holding
turn_of-IsKept k [] d h = h
turn_of-IsKept zero (t ∷ ts) d h = ground (arith, turn-Keeps t.stage t d refl)
turn_of-IsKept (suc k) (t ∷ ts) d h = ground (arith, turn_of-IsKept k ts d)

run_turns-IsKept :
    (ks : List ℕ) (ts : List Thread) (d : Disk)
    → IsKept ts d
    → IsKept (run_turns ks ts d).0 (run_turns ks ts d).1
unfolding run_turns
run_turns-IsKept [] ts d h = h
run_turns-IsKept (k ∷ ks) ts d h =
    run_turns-IsKept ks (turn_of k ts d).0 (turn_of k ts d).1 (turn_of-IsKept k ts d h)

-- Starting without the two files, in every order of the turns of any threads of one process, when
-- no thread is between its fopen of the source file and its unlink of it, or waits there for its
-- client or its child, the source file has no name left.
pub run_turns-holding :
    (ks : List ℕ) (ts : List Thread)
    → any_holding (run_turns ks ts booted).0 ≡ false
    → (run_turns ks ts booted).1.source ≡ none
unfolding booted
run_turns-holding ks ts h = ground (arith, run_turns-IsKept ks ts booted (inl refl))
