-- ===== src/Responder/Tests.antt =====
-- The load query at concrete inputs.
use socket_project.Prelude.{◌≡◌, some, none, [], ◌∷◌, arith}
use socket_project.Wire.{Bytes, load_resp_bytes}
use socket_project.Float.{toy_ops}
use socket_project.LoadMonitor.{
  Load, Machine, load_get_percentage, load_get_core_count, load_get, load_score_local,
}
use socket_project.PeerList.{peer_list_update_load}
use socket_project.Dispatcher.{load_request, query_peer_load, answers, info_port}
use socket_project.Responder.{answer, local_load}
use socket_project.Responder.Score.{IsWords, query_peer_load-answer}

abbrev quiet : Machine
quiet = record { loadavg = none; processors = some 4 }

abbrev two_tasks : Load
two_tasks = record { active_tasks = 2; total_tasks = 9 }

quiet-IsWords : IsWords (local_load toy_ops quiet two_tasks)
unfolding local_load load_get_percentage load_get load_get_core_count
quiet-IsWords = record {
  pct = omega arith;
  active = omega arith;
  total = omega arith;
  cores = omega arith;
}

query_peer_load-answer_example :
    (reply : Bytes) × (answer toy_ops quiet two_tasks load_request ≡ some reply)
    × ((query_peer_load toy_ops (65 ∷ []) 7777 (answers reply 100) []).score
        ≡ load_score_local toy_ops quiet two_tasks)
    × (info_port (query_peer_load toy_ops (65 ∷ []) 7777 (answers reply 100) []).info ≡ some 7777)
    × ((query_peer_load toy_ops (65 ∷ []) 7777 (answers reply 100) []).peers
        ≡ peer_list_update_load
            (65 ∷ [])
            (load_resp_bytes (local_load toy_ops quiet two_tasks))
            100
            [])
query_peer_load-answer_example =
    query_peer_load-answer toy_ops quiet two_tasks (65 ∷ []) 7777 100 [] quiet-IsWords
