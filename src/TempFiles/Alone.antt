-- ===== src/TempFiles/Alone.antt =====
-- A thread that takes its turns in a row does to the shared files what compile_and_stream does.
use socket_project.Prelude.{
  ℕ, zero, suc, ◌≡◌, refl, ap, ◌∙◌, Bool, true, false, Option, none, some, ◌==◌, if◌then◌else◌,
}
use socket_project.Wire.{Bytes, be32, msg_task_done}
use socket_project.NetUtils.{Socket, Io, M, done, failed, blocked, return, ◌>>◌, send_msg}
use socket_project.LoadMonitor.{load_task_start, load_task_done}
use socket_project.Worker.{
  Child, Host, Streamed, ended, waits, stream_loop, stream_and_wait, exit_code, ignoring, send_done,
  run_binary, compile_source, compile_and_stream,
}
use socket_project.TempFiles.{
  Disk, Stage, received, opened, written, compiled, refused, executed, finished, waiting, Thread,
  fopen_inode, fopen_disk, fwrite, source_bytes, after_gcc, after_run, close_task, turn, host_of,
}
use socket_project.TempFiles.Files.{IsDisk, host_of-fwrite}

abbrev pub turns : ℕ → Thread × Disk → Thread × Disk
turns zero x = x
turns (suc n) x = turns n (turn x.0.stage x.0 x.1)

-- What the thread of a task shows at the end of its turns.
unfoldable pub ending : Stage → Thread → Disk → Io Host
ending finished t d = done (host_of d) t.client
ending _ t d = blocked t.client

abbrev ended_at : Thread × Disk → Io Host
ended_at x = ending x.0.stage x.0 x.1

-- A call that has no -1 to return.
unfoldable Returns : {A : Type 0} → Io A → Type 0
Returns (done a s) = Unit {0}
Returns (failed s) = ⊥
Returns (blocked s) = Unit {0}

stream_and_wait-Returns : (child : Child) (s : Socket) → Returns (stream_and_wait child s)
unfolding stream_and_wait Returns
stream_and_wait-Returns child s = go (stream_loop child.output child.calls s)
  where
    go :
        (r : Streamed)
        → Returns (elim r [
          | ended killed s' ↦ done (exit_code (child.status killed)) s'
          | waits s' ↦ blocked s'
        ])
    go (ended killed s') = tt
    go (waits s') = tt

ignoring-Returns : (m : M (Unit {0})) (s : Socket) → Returns (ignoring m s)
unfolding ignoring Returns
ignoring-Returns m s = go (m s)
  where
    go :
        (r : Io (Unit {0}))
        → Returns
            (elim r [ done _ s' ↦ done tt s' | failed s' ↦ done tt s' | blocked s' ↦ blocked s' ])
    go (done x s') = tt
    go (failed s') = tt
    go (blocked s') = tt

send_done-Returns : (code : ℕ) (s : Socket) → Returns (send_done code s)
unfolding send_done
send_done-Returns code s = ignoring-Returns (send_msg msg_task_done (some (be32 code)) 4) s

-- The turns after TASK_DONE for a run.
executed_ending :
    (t : Thread) (d : Disk) (code : ℕ) (s : Socket)
    → ended_at (turns 2 (after_run (done code s) t, d))
      ≡ (send_done code
            >> return (record { load = load_task_done d.load; source = none; binary = none }))
          s
unfolding after_run turn ending Returns close_task host_of source_bytes
executed_ending t d code s = go (send_done code s) (send_done-Returns code s)
  where
    go :
        (r : Io (Unit {0}))
        → Returns r
        → ended_at (
            turns 2 (
              elim r [
                | done _ s' ↦ record t { client = s'; stage = executed }
                | failed s' ↦ record t { client = s'; stage = waiting }
                | blocked s' ↦ record t { client = s'; stage = waiting }
              ],
              d,
            ))
          ≡ elim r [
            | done _ s' ↦
                done (record { load = load_task_done d.load; source = none; binary = none }) s'
            | failed s' ↦ failed s'
            | blocked s' ↦ blocked s'
          ]
    go (done _ s') h = refl
    go (failed s') h = absurd h
    go (blocked s') h = refl

run_ending :
    (t : Thread) (d : Disk)
    → ended_at (turns 3 (record t { stage = compiled }, d)) ≡ run_binary t.env (host_of d) t.client
unfolding run_binary turn host_of after_run ending Returns
run_ending t d =
    let child = t.env.exec d.binary in
    go (stream_and_wait child t.client) (stream_and_wait-Returns child t.client)
  where
    go :
        (r : Io ℕ)
        → Returns r
        → ended_at (turns 2 (after_run r (record t { stage = compiled; ran = some d.binary }), d))
          ≡ elim r [
            | done code s' ↦
                (send_done code
                    >> return
                        (record { load = load_task_done d.load; source = none; binary = none }))
                  s'
            | failed s' ↦ failed s'
            | blocked s' ↦ blocked s'
          ]
    go (done code s') h =
        executed_ending (record t { stage = compiled; ran = some d.binary }) d code s'
    go (failed s') h = absurd h
    go (blocked s') h = refl

refused_ending :
    (t : Thread) (d : Disk) (code : ℕ) (s : Socket)
    → ended_at (
        turns 3 (
          elim (send_done code s) [
            | done _ s' ↦ record t { client = s'; stage = refused }
            | failed s' ↦ record t { client = s'; stage = waiting }
            | blocked s' ↦ record t { client = s'; stage = waiting }
          ],
          d,
        ))
      ≡ (send_done code
            >> return (record { load = load_task_done d.load; source = none; binary = d.binary }))
          s
unfolding turn ending Returns close_task host_of source_bytes
refused_ending t d code s = go (send_done code s) (send_done-Returns code s)
  where
    go :
        (r : Io (Unit {0}))
        → Returns r
        → ended_at (
            turns 3 (
              elim r [
                | done _ s' ↦ record t { client = s'; stage = refused }
                | failed s' ↦ record t { client = s'; stage = waiting }
                | blocked s' ↦ record t { client = s'; stage = waiting }
              ],
              d,
            ))
          ≡ elim r [
            | done _ s' ↦
                done (record { load = load_task_done d.load; source = none; binary = d.binary }) s'
            | failed s' ↦ failed s'
            | blocked s' ↦ blocked s'
          ]
    go (done _ s') h = refl
    go (failed s') h = absurd h
    go (blocked s') h = refl

abbrev after_compiler : Thread → Disk → ℕ → Bool → M Host
after_compiler t d code b = elim b [
  | true ↦ run_binary t.env (host_of d)
  | false ↦
      send_done code
      >> return (record { load = load_task_done d.load; source = none; binary = d.binary })
]

gcc_ending :
    (t : Thread) (d : Disk) (code : ℕ) (s : Socket)
    → ended_at (turns 3 (after_gcc (done code s) t, d)) ≡ after_compiler t d code (code == 0) s
unfolding after_gcc
gcc_ending t d code s = go (code == 0)
  where
    go :
        (b : Bool)
        → ended_at (
            turns 3 (
              elim b [
                | true ↦ record t { client = s; stage = compiled }
                | false ↦ elim (send_done code s) [
                  | done _ s' ↦ record t { client = s'; stage = refused }
                  | failed s' ↦ record t { client = s'; stage = waiting }
                  | blocked s' ↦ record t { client = s'; stage = waiting }
                ]
              ],
              d,
            ))
          ≡ after_compiler t d code b s
    go true = run_ending (record t { client = s }) d
    go false = refused_ending t d code s

compiler_ending :
    (t : Thread) (d : Disk) (r : Io ℕ)
    → Returns r
    → ended_at (turns 3 (after_gcc r t, d)) ≡ elim r [
      | done code s' ↦ after_compiler t d code (code == 0) s'
      | failed s' ↦ failed s'
      | blocked s' ↦ blocked s'
    ]
unfolding turn after_gcc ending Returns
compiler_ending t d (done code s') h = gcc_ending t d code s'
compiler_ending t d (failed s') h = absurd h
compiler_ending t d (blocked s') h = refl

written_ending :
    (t : Thread) (d : Disk)
    → ended_at (turns 4 (record t { stage = written }, d))
      ≡ (if t.env.pipes then compile_source t.env (host_of d) else run_binary t.env (host_of d))
          t.client
unfolding turn compile_source host_of source_bytes
written_ending t d = go t.env.pipes
  where
    u : Thread
    u = record t { stage = written }

    out : Child × Option ℕ
    out = t.env.gcc (source_bytes d) d.binary

    go :
        (b : Bool)
        → ended_at (
            turns 3 (
              if b
              then (after_gcc (stream_and_wait out.0 t.client) u, record d { binary = out.1 })
              else (record t { stage = compiled }, d)))
          ≡ (if b then compile_source t.env (host_of d) else run_binary t.env (host_of d)) t.client
    go true =
        compiler_ending u (record d { binary = out.1 }) (stream_and_wait out.0 t.client)
          (stream_and_wait-Returns out.0 t.client)
    go false = run_ending t d

pub turns-compile_and_stream :
    (contents : Bytes) (t : Thread) (d : Disk)
    → IsDisk d
    → ended_at (turns 6 (record t { stage = received contents }, d))
      ≡ compile_and_stream t.env contents (host_of d) t.client
unfolding turn compile_and_stream ending close_task IsDisk host_of source_bytes
turns-compile_and_stream contents t d h = go t.env.opens
  where
    counted : Disk
    counted = record d { load = load_task_start d.load }

    go :
        (b : Bool)
        → ended_at (
            turns 5 (
              if b
              then (record t { stage = opened contents (fopen_inode counted) }, fopen_disk counted)
              else (record t { stage = finished }, close_task counted)))
          ≡ (if b
                then (if t.env.pipes
                    then compile_source t.env (record (host_of counted) { source = some contents })
                    else run_binary t.env (record (host_of counted) { source = some contents }))
                else return (record (host_of counted) { load = load_task_done counted.load }))
              t.client
    go true =
        written_ending t (fwrite contents (fopen_inode counted) (fopen_disk counted))
        ∙ ap (λ x. (if t.env.pipes then compile_source t.env x else run_binary t.env x) t.client)
            (host_of-fwrite contents counted h)
    go false = refl
