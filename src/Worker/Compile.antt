-- ===== src/Worker/Compile.antt =====
-- `compile_and_stream` of worker.c: the task counters, the source file, and what the client is sent.
use socket_project.Prelude.{
  ℕ, ◌+◌, ◌*◌, ◌%◌, ◌^◌, ◌≤◌, ◌<◌, ◌≡◌, refl, ap, sym, ◌∙◌, Bool, true, false, inl, inr, Option,
  none, some, List, ◌++◌, append_assoc, arith, ◌==◌, if◌then◌else◌, Bool-cases, length, All,
  All-append,
}
use mathlib.Core.Path.{subst}
use socket_project.Wire.{Bytes, be32, msg_task_done, header_size}
use socket_project.Wire.Codec.{length-be32}
use socket_project.NetUtils.{Socket, M, done, send_msg, bind-eq_of_done, bind-eq-done, return}
use socket_project.NetUtils.Send.{ready}
use socket_project.NetUtils.Frame.{frame, send_msg-ready}
use socket_project.LoadMonitor.{Load, load_task_start, load_task_done}
use socket_project.LoadMonitor.Laws.{IsLoad, task_done-task_start}
use socket_project.Worker.{
  Child, Host, Env, exit_code, stream_and_wait, ignoring, send_done, run_binary, compile_source,
  compile_and_stream,
}
use socket_project.Worker.Stream.{
  output_frames, joined, output_frames-append, joined-append, IsChunk, stream_loop-Drained,
  stream_and_wait-eq,
}

-- The host after a task: one call of `load_task_done`, and no source file.
abbrev Ends : Load → Host → Type 0
Ends l h = (h.load ≡ load_task_done l) × (h.source ≡ none)

run_binary-Ends :
    (env : Env) (h h' : Host) (s t : Socket) → run_binary env h s ≡ done h' t → Ends h.load h'
unfolding run_binary
run_binary-Ends env h h' s t e =
    let (code, u, _, e₁) = bind-eq-done (stream_and_wait (env.exec h.binary)) _ s e in
    let (_, v, _, e₂) = bind-eq-done (send_done code) _ u e₁ in ground arith

compile_source-Ends :
    (env : Env) (h h' : Host) (s t : Socket) → compile_source env h s ≡ done h' t → Ends h.load h'
unfolding compile_source
compile_source-Ends env h h' s t e =
    let out = env.gcc h.source h.binary in
    let (code, u, _, e₁) = bind-eq-done (stream_and_wait out.0) _ s e in
    elim (Bool-cases (code == 0)) [
      | inl ok ↦ run_binary-Ends env (record h { binary = out.1 }) h' u t (rw ok at e₁)
      | inr bad ↦
          let e₂ = rw bad at e₁ in
          let (_, v, _, e₃) = bind-eq-done (send_done code) _ u e₂ in ground arith
    ]

branches-Ends :
    (opens pipes : Bool) (env : Env) (contents : Bytes) (h h' : Host) (s t : Socket)
    → (if opens
          then (if pipes
              then compile_source env (record h { source = some contents })
              else run_binary env (record h { source = some contents }))
          else return (record h { load = load_task_done h.load }))
        s
      ≡ done h' t
    → (h'.load ≡ load_task_done h.load) × (h'.source ≡ (if opens then none else h.source))
branches-Ends true true env contents h h' s t e =
    compile_source-Ends env (record h { source = some contents }) h' s t e
branches-Ends true false env contents h h' s t e =
    run_binary-Ends env (record h { source = some contents }) h' s t e
branches-Ends false pipes env contents h h' s t e = ground arith

-- On every path on which compile_and_stream returns, the active task count is what it was before,
-- also across a wrap, the total count is one more modulo 2^32, and the source file is gone unless
-- it never opened.
pub compile_and_stream_balance :
    (env : Env) (contents : Bytes) (h h' : Host) (s t : Socket)
    → IsLoad h.load
    → compile_and_stream env contents h s ≡ done h' t
    → (h'.load ≡ record h.load { total_tasks = (h.load.total_tasks + 1) % 2 ^ 32 })
      × (h'.source ≡ (if env.opens then none else h.source))
unfolding compile_and_stream
compile_and_stream_balance env contents h h' s t l e =
    let started : Host = record h { load = load_task_start h.load } in
    let r = branches-Ends env.opens env.pipes env contents started h' s t e in
    (r.0 ∙ task_done-task_start h.load l, r.1)

ignoring_done : (m : M (Unit {0})) (s t : Socket) → m s ≡ done tt t → ignoring m s ≡ done tt t
unfolding ignoring
ignoring_done m s t e = rw (e, ignoring)

-- TASK_DONE goes out after all output, with the code in network order.
send_done-ready :
    (code : ℕ) (s : Socket)
    → header_size + 4 ≤ ready s.calls
    → (t : Socket) × (send_done code s ≡ done tt t)
      × (t.outgoing ≡ s.outgoing ++ frame msg_task_done (be32 code))
      × (t.incoming ≡ s.incoming)
unfolding send_done
send_done-ready code s h =
    let l = length-be32 code in
    let (t, e, o, i, r) = send_msg-ready msg_task_done (be32 code) s (omega arith) in
    let e' : send_msg msg_task_done (some (be32 code)) 4 s ≡ done tt t =
      subst (λ n. send_msg msg_task_done (some (be32 code)) n s ≡ done tt t) l e in
    (t, ignoring_done (send_msg msg_task_done (some (be32 code)) 4) s t e', o, i)

-- What the client is sent for a run: the output in frames, then the exit code.
pub record Ran (output : Bytes) (code : ℕ) (sent : Bytes) : Type 0 where
  pub chunks : List Bytes
  pub joins : joined chunks ≡ output
  pub bounded : All IsChunk chunks
  pub bytes : sent ≡ output_frames chunks ++ frame msg_task_done (be32 code)

-- What a run needs: reads to the end of the output, and a client that takes all of it.
abbrev pub Flows : Child → Type 0
Flows child = length child.output < ready child.calls

abbrev pub cost : Child → ℕ
cost child = (header_size + 1) * length child.output

run_binary-Ran :
    (env : Env) (h : Host) (s : Socket)
    → Flows (env.exec h.binary)
    → cost (env.exec h.binary) + header_size + 4 ≤ ready s.calls
    → (h' : Host) × (t : Socket) × (sent : Bytes) × (run_binary env h s ≡ done h' t)
      × (t.outgoing ≡ s.outgoing ++ sent)
      × Ran (env.exec h.binary).output (exit_code ((env.exec h.binary).status false)) sent
unfolding run_binary
run_binary-Ran env h s fl room =
    let child = env.exec h.binary in
    let d = stream_loop-Drained child.calls child.output s fl (omega arith) in
    let code = exit_code (child.status false) in
    let (t, e, o, i) = send_done-ready code d.final (omega (arith, d.left)) in
    let h' : Host = record { load = load_task_done h.load; source = none; binary = none } in
    (
      h',
      t,
      output_frames d.chunks ++ frame msg_task_done (be32 code),
      bind-eq_of_done (stream_and_wait child) _ s (stream_and_wait-eq child s d)
          (bind-eq_of_done (send_done code) _ d.final e refl),
      o
          ∙ ap (λ w. w ++ frame msg_task_done (be32 code)) d.sent
          ∙ append_assoc s.outgoing (output_frames d.chunks) (frame msg_task_done (be32 code)),
      record { chunks = d.chunks; joins = d.joins; bounded = d.bounded; bytes = refl },
    )

Ran-prepend :
    (chunks : List Bytes) (output : Bytes) (code : ℕ) (sent : Bytes)
    → All IsChunk chunks
    → Ran output code sent
    → Ran (joined chunks ++ output) code (output_frames chunks ++ sent)
Ran-prepend chunks output code sent b r = record {
  chunks = chunks ++ r.chunks;
  joins = joined-append chunks r.chunks ∙ ap (◌++◌ (joined chunks)) r.joins;
  bounded = All-append IsChunk chunks r.chunks b r.bounded;
  bytes =
      ap (◌++◌ (output_frames chunks)) r.bytes
      ∙ sym (append_assoc (output_frames chunks) (output_frames r.chunks) _)
      ∙ ap (λ w. w ++ frame msg_task_done (be32 code)) (sym (output_frames-append chunks r.chunks));
}

-- What the compiler says and whether it succeeds, and the program that it leaves.
abbrev pub compiled : Env → Bytes → Option ℕ → Child × Option ℕ
compiled env contents binary = env.gcc (some contents) binary

compile_source-Ran :
    (env : Env) (h : Host) (s : Socket)
    → let (gcc, binary) = env.gcc h.source h.binary in
      let program = env.exec binary in
      exit_code (gcc.status false) ≡ 0
      → Flows gcc
      → Flows program
      → cost gcc + cost program + header_size + 4 ≤ ready s.calls
      → (h' : Host) × (t : Socket) × (sent : Bytes) × (compile_source env h s ≡ done h' t)
        × (t.outgoing ≡ s.outgoing ++ sent)
        × Ran (gcc.output ++ program.output) (exit_code (program.status false)) sent
unfolding compile_source
compile_source-Ran env h s zero_exit fg fp room =
    let (gcc, binary) = env.gcc h.source h.binary in
    let d = stream_loop-Drained gcc.calls gcc.output s fg (omega arith) in
    let (h', t, sent, e, o, r) =
      run_binary-Ran env (record h { binary = binary }) d.final fp (omega (arith, d.left)) in
    (
      h',
      t,
      output_frames d.chunks ++ sent,
      bind-eq_of_done (stream_and_wait gcc) _ s (stream_and_wait-eq gcc s d) (rw zero_exit e),
      o ∙ ap (λ w. w ++ sent) d.sent ∙ append_assoc s.outgoing (output_frames d.chunks) sent,
      subst
          (λ w.
            Ran (w ++ (env.exec binary).output) (exit_code ((env.exec binary).status false))
              (output_frames d.chunks ++ sent))
          d.joins (Ran-prepend d.chunks _ _ sent d.bounded r),
    )

first_branch :
    (o p : Bool) (a b c : M Host) (s : Socket)
    → o ≡ true
    → p ≡ true
    → (if o then (if p then a else b) else c) s ≡ a s
first_branch true true a b c s h k = refl
first_branch true false a b c s h k = absurd (cc)
first_branch false p a b c s h k = absurd (cc)

-- When the source file opens, the pipe is made, gcc exits with 0, both outputs are read to their
-- end and the client takes all of it, compile_and_stream returns, and the client was sent the
-- compiler's output and then the program's in frames of 1 to 4096 bytes, and one MSG_TASK_DONE
-- with the program's exit code.
pub compile_and_stream_runs :
    (env : Env) (contents : Bytes) (h : Host) (s : Socket)
    → env.opens ≡ true
    → env.pipes ≡ true
    → let (gcc, binary) = compiled env contents h.binary in
      let program = env.exec binary in
      exit_code (gcc.status false) ≡ 0
      → Flows gcc
      → Flows program
      → cost gcc + cost program + header_size + 4 ≤ ready s.calls
      → (h' : Host) × (t : Socket) × (sent : Bytes) × (compile_and_stream env contents h s
          ≡ done h' t)
        × (t.outgoing ≡ s.outgoing ++ sent)
        × Ran (gcc.output ++ program.output) (exit_code (program.status false)) sent
unfolding compile_and_stream
compile_and_stream_runs env contents h s o p zero_exit fg fp room =
    let written : Host = record h { load = load_task_start h.load; source = some contents } in
    let (h', t, sent, e, out, r) = compile_source-Ran env written s zero_exit fg fp room in
    (h', t, sent, first_branch env.opens env.pipes _ _ _ s o p ∙ e, out, r)
