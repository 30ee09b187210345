-- ===== src/Dispatcher/Tests.antt =====
-- dispatcher.c at concrete inputs.
use socket_project.Prelude.{
  ℕ, ◌≡◌, ◌≢◌, refl, Bool, true, some, none, [], ◌∷◌, ◌++◌, arith, length, replicate,
}
use socket_project.Wire.{Bytes, be32, msg_task_done, msg_output}
use socket_project.NetUtils.{moves, Socket}
use socket_project.NetUtils.Frame.{frame}
use socket_project.PeerList.{PeerInfo, max_peers, peer_list_get_all, peer_list_init}
use socket_project.PeerList.Table.{IsTable, peer_list_init-IsTable}
use socket_project.Float.{toy_ops, toy_ops-IsOrdered}
use socket_project.LoadMonitor.{Load, Machine, load_score_local}
use socket_project.Worker.{Task, parse_task}
use socket_project.Dispatcher.{
  Reply, silent, answers, select_target, task_payload, receive_output, out_of_fuel,
}
use socket_project.Dispatcher.Select.{Chosen, select_target-Chosen}
use socket_project.Dispatcher.Fallback.{select_target-IsTable}
use socket_project.Dispatcher.TaskFile.{IsTask, parse_task-task_payload}
use socket_project.Dispatcher.Output.{receive_output_ends}

-- "a.c"
abbrev pub small_task : Task
small_task = record { filename = 97 ∷ 46 ∷ 99 ∷ []; file_data = 1 ∷ 2 ∷ 3 ∷ [] }

pub small_task-IsTask : IsTask small_task
small_task-IsTask = record { name_fits = omega arith; file_fits = omega arith }

parse_task-task_payload_example :
    parse_task (task_payload small_task) (length (task_payload small_task)) ≡ some small_task
parse_task-task_payload_example = parse_task-task_payload small_task small_task-IsTask

abbrev always : ℕ → Bool
always n = true

abbrev run_sent : Bytes
run_sent = frame msg_output (104 ∷ 105 ∷ []) ++ frame msg_task_done (be32 3)

abbrev result_stream : Socket
result_stream = record { incoming = run_sent; outgoing = []; calls = replicate 40 (moves 3) }

receive_output_ends_example : receive_output always result_stream ≢ out_of_fuel
receive_output_ends_example = receive_output_ends always result_stream

abbrev node : ℕ → PeerInfo
node n = record {
  ip = n ∷ [];
  port = 7777;
  load_pct = 0;
  active_tasks = 0;
  total_tasks = 0;
  num_cores = 1;
  last_seen = 0;
  valid = true;
}

abbrev here : Machine
here = record { loadavg = none; processors = some 4 }

abbrev one_task : Load
one_task = record { active_tasks = 1; total_tasks = 1 }

abbrev no_reply : Bytes → Reply
no_reply ip = silent

select_target-Chosen_example :
    Chosen toy_ops toy_ops-IsOrdered no_reply
      (load_score_local toy_ops here one_task)
      (peer_list_get_all max_peers (node 50 ∷ node 51 ∷ []))
      (select_target toy_ops no_reply here one_task (node 50 ∷ node 51 ∷ [])).0
unfolding peer_list_get_all
select_target-Chosen_example =
    select_target-Chosen toy_ops toy_ops-IsOrdered no_reply here one_task (node 50 ∷ node 51 ∷ [])
      (refl, (refl, tt))

select_target-IsTable_example :
    IsTable
      (select_target toy_ops (λ ip. answers (replicate 30 4) 9) here one_task peer_list_init).1
select_target-IsTable_example =
    select_target-IsTable toy_ops (λ ip. answers (replicate 30 4) 9) here one_task peer_list_init
      peer_list_init-IsTable
