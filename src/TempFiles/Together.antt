-- ===== src/TempFiles/Together.antt =====
-- Threads that share the two files, in any order of their turns.
use mathlib.Core.Path.{subst}
use socket_project.Prelude.{
  ℕ, zero, suc, ◌≡◌, refl, ap, ◌∙◌, Bool, true, false, Option, none, some, List, [], ◌∷◌, ◌++◌,
  if◌then◌else◌, length, length-append, drop, arith, replicate,
}
use socket_project.Wire.{Bytes}
use socket_project.LoadMonitor.{load_task_start}
use socket_project.Worker.{compile_and_stream}
use socket_project.TempFiles.{
  Disk, Stage, received, opened, written, compiled, refused, executed, source_gone, finished,
  waiting, Thread, inode_at, fopen_disk, fwrite, close_task, turn, turn_of, run_turns, booted,
  host_of,
}
use socket_project.TempFiles.Alone.{turns, ending, turns-compile_and_stream}
use socket_project.TempFiles.Files.{IsDisk, length-set_inode}

fopen_disk-IsDisk : (d : Disk) → IsDisk d → IsDisk (fopen_disk d)
unfolding IsDisk fopen_disk
fopen_disk-IsDisk d h = go d.source refl
  where
    go : (o : Option ℕ) → d.source ≡ o → IsDisk (fopen_disk (record d { source = o }))
    go none e i k = ground (arith, length-append d.inodes ([] ∷ []))
    go (some j) e i k = omega (arith, h i (e ∙ k), length-set_inode d.inodes j [])

if-IsDisk :
    (b : Bool) (x y : Thread × Disk) → IsDisk x.1 → IsDisk y.1 → IsDisk (if b then x else y).1
if-IsDisk true x y h k = h
if-IsDisk false x y h k = k

turn-IsDisk : (s : Stage) (t : Thread) (d : Disk) → IsDisk d → IsDisk (turn s t d).1
unfolding IsDisk turn close_task fwrite
turn-IsDisk (received c) t d h =
    if-IsDisk t.env.opens _ _ (fopen_disk-IsDisk (record d { load = load_task_start d.load }) h) h
turn-IsDisk (opened c i) t d h = λ j e.
    omega (arith, h j e, length-set_inode d.inodes i (c ++ drop (length c) (inode_at d.inodes i)))
turn-IsDisk written t d h = if-IsDisk t.env.pipes _ _ h h
turn-IsDisk compiled t d h = h
turn-IsDisk refused t d h = λ i e. ground arith
turn-IsDisk executed t d h = λ i e. ground arith
turn-IsDisk source_gone t d h = h
turn-IsDisk finished t d h = h
turn-IsDisk waiting t d h = h

turn_of-IsDisk : (k : ℕ) (ts : List Thread) (d : Disk) → IsDisk d → IsDisk (turn_of k ts d).1
unfolding turn_of
turn_of-IsDisk k [] d h = h
turn_of-IsDisk zero (t ∷ ts) d h = turn-IsDisk t.stage t d h
turn_of-IsDisk (suc k) (t ∷ ts) d h = turn_of-IsDisk k ts d h

run_turns-IsDisk :
    (ks : List ℕ) (ts : List Thread) (d : Disk) → IsDisk d → IsDisk (run_turns ks ts d).1
unfolding run_turns
run_turns-IsDisk [] ts d h = h
run_turns-IsDisk (k ∷ ks) ts d h =
    run_turns-IsDisk ks (turn_of k ts d).0 (turn_of k ts d).1 (turn_of-IsDisk k ts d h)

turn_of-middle :
    (front back : List Thread) (t : Thread) (d : Disk)
    → turn_of (length front) (front ++ t ∷ back) d
      ≡ (front ++ (turn t.stage t d).0 ∷ back, (turn t.stage t d).1)
unfolding turn_of
turn_of-middle [] back t d = refl
turn_of-middle (x ∷ front) back t d = rw (turn_of-middle front back t d) refl

run_turns-middle :
    (n : ℕ) (front back : List Thread) (t : Thread) (d : Disk)
    → run_turns (replicate n (length front)) (front ++ t ∷ back) d
      ≡ (front ++ (turns n (t, d)).0 ∷ back, (turns n (t, d)).1)
unfolding run_turns
run_turns-middle zero front back t d = refl
run_turns-middle (suc n) front back t d =
    rw (turn_of-middle front back t d, run_turns)
      (run_turns-middle n front back (turn t.stage t d).0 (turn t.stage t d).1)

booted-IsDisk : IsDisk booted
unfolding IsDisk booted
booted-IsDisk i e = ground arith

-- Whatever threads of one process have done to the shared files since a start without them, in any
-- order of their turns, six turns in a row of a thread with a received task do to the files, the
-- counters and the client exactly what compile_and_stream does on the host as it stands, also when
-- it comes to wait for its client or its child.
pub run_turns-compile_and_stream :
    (ks : List ℕ) (ts front back : List Thread) (t : Thread) (d : Disk) (contents : Bytes)
    → run_turns ks ts booted ≡ (front ++ t ∷ back, d)
    → t.stage ≡ received contents
    → (t' : Thread) × (d' : Disk) × (run_turns (replicate 6 (length front)) (front ++ t ∷ back) d
        ≡ (front ++ t' ∷ back, d'))
      × (ending t'.stage t' d' ≡ compile_and_stream t.env contents (host_of d) t.client)
run_turns-compile_and_stream ks ts front back t d contents r e =
    let sound : IsDisk d =
      subst IsDisk (ap (λ (x : List Thread × Disk). x.1) r)
        (run_turns-IsDisk ks ts booted booted-IsDisk) in
    let x = turns 6 (t, d) in
    (
      x.0,
      x.1,
      run_turns-middle 6 front back t d,
      ap (λ s. (let y = turns 6 (record t { stage = s }, d) in ending y.0.stage y.0 y.1)) e
          ∙ turns-compile_and_stream contents t d sound,
    )
