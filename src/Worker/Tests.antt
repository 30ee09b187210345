-- ===== src/Worker/Tests.antt =====
-- worker.c at concrete inputs.
use socket_project.Prelude.{
  ◌%◌, ◌^◌, ◌≡◌, refl, true, none, some, [], ◌∷◌, arith, replicate, take, ◌++◌,
}
use socket_project.Wire.{
  Bytes, header_bytes, new_header, be32, of_be16, of_be32, read_header, msg_task_file,
}
use socket_project.NetUtils.{
  moves, fails, eintr, Socket, done, send_all, send_loop, send_msg, send_payload, recv_msg,
  recv_payload, recv_all, recv_loop,
}
use socket_project.LoadMonitor.{load_task_start, load_task_done}
use socket_project.Worker.{
  Child, Host, Env, exited, stream_loop, stream_and_wait, exit_code, ignoring, send_done,
  run_binary, compile_source, compile_and_stream, handle_task, handle_connection, parse_task,
  parse_file,
}
use socket_project.Worker.Talk.{Talks}
use socket_project.Worker.Protocol.{socket_of, handle_connection-Talks}
use socket_project.Worker.Compile.{compile_and_stream_balance}

-- A compiler that says "w" and a program that says "hi" and exits with 3.
abbrev warning : Child
warning = record { output = 119 ∷ []; calls = replicate 4 (moves 4096); status = λ _. exited 0 }

abbrev pub greeting : Child
greeting = record {
  output = 104 ∷ 105 ∷ [];
  calls = moves 1 ∷ fails eintr ∷ replicate 4 (moves 4096);
  status = λ _. exited 3;
}

abbrev pub test_env : Env
test_env = record {
  opens = true;
  pipes = true;
  gcc = λ source binary. (warning, some 1);
  exec = λ binary. greeting;
}

abbrev pub idle_host : Host
idle_host = record {
  load = record { active_tasks = 2; total_tasks = 5 };
  source = none;
  binary = none;
}

abbrev pub client : Socket
client = record { incoming = []; outgoing = []; calls = replicate 60 (moves 64) }

-- "w", "h" and "i" in a frame each, and the exit code.
abbrev pub run_frames : Bytes
run_frames =
    7 ∷ 0 ∷ 0 ∷ 0 ∷ 0 ∷ 1 ∷ 0 ∷ 0 ∷ 119 ∷ 7 ∷ 0 ∷ 0 ∷ 0 ∷ 0 ∷ 1 ∷ 0 ∷ 0 ∷ 104 ∷ 7 ∷ 0 ∷ 0 ∷ 0 ∷ 0
    ∷ 1 ∷ 0 ∷ 0 ∷ 105 ∷ 8 ∷ 0 ∷ 0 ∷ 0 ∷ 0 ∷ 4 ∷ 0 ∷ 0 ∷ 0 ∷ 0 ∷ 0 ∷ 3 ∷ []

abbrev served : Socket
served = record { incoming = []; outgoing = run_frames; calls = replicate 52 (moves 64) }

abbrev after_task : Host
after_task = record {
  load = record { active_tasks = 2; total_tasks = 6 };
  source = none;
  binary = none;
}

task_served : compile_and_stream test_env (1 ∷ 2 ∷ []) idle_host client ≡ done after_task served
unfolding compile_and_stream compile_source run_binary send_done ignoring stream_and_wait
    stream_loop exit_code load_task_start load_task_done send_msg send_all send_loop send_payload
    header_bytes new_header be32
task_served = refl

compile_and_stream_balance_example :
    (after_task.load ≡ record { active_tasks = 2; total_tasks = 6 % 2 ^ 32 })
    × (after_task.source ≡ none)
compile_and_stream_balance_example =
    compile_and_stream_balance test_env (1 ∷ 2 ∷ []) idle_host after_task client served
      (omega arith) task_served

-- A task of one byte, over a connection that breaks inside the third frame of output.
abbrev broken_client : Socket
broken_client = record {
  incoming = header_bytes (new_header msg_task_file 8) ++ (0 ∷ 1 ∷ 97 ∷ 0 ∷ 0 ∷ 0 ∷ 1 ∷ 120 ∷ []);
  outgoing = [];
  calls = replicate 7 (moves 64) ++ (fails 32 ∷ []);
}

broken_output :
    (socket_of (handle_connection test_env (λ n. true) idle_host broken_client)).outgoing
    ≡ take 26 run_frames
unfolding handle_connection handle_task parse_task parse_file compile_and_stream compile_source
    run_binary send_done ignoring stream_and_wait stream_loop exit_code load_task_start
    load_task_done recv_msg recv_payload recv_all recv_loop read_header of_be16 of_be32 send_msg
    send_all send_loop send_payload header_bytes new_header be32
broken_output = refl

handle_connection-Talks_example :
    Talks [] (socket_of (handle_connection test_env (λ n. true) idle_host broken_client))
handle_connection-Talks_example =
    handle_connection-Talks test_env (λ n. true) idle_host broken_client tt
