-- ===== src/Responder.antt =====
-- `load_responder_thread` of New_socket_proj/main.c: the answer to a MSG_LOAD_REQ datagram.
pub mod Score
pub mod Tests
use socket_project.Prelude.{
  ℕ, ◌+◌, Option, none, some, ◌++◌, ltb, ◌==◌, if◌then◌else◌, length, take,
}
use socket_project.Wire.{
  Bytes, header_size, header_bytes, read_header, new_header, msg_load_req, msg_load_resp,
  load_resp_size, load_resp_bytes, LoadResp,
}
use socket_project.Float.{FloatOps}
use socket_project.LoadMonitor.{Load, Machine, load_get_percentage, load_get_core_count}

-- The buffer of the responder; a longer datagram is cut.
abbrev pub request_buf_size : ℕ
request_buf_size = header_size + 16

unfoldable pub local_load : FloatOps → Machine → Load → LoadResp
local_load f m l = record {
  load_pct = load_get_percentage f m;
  active_tasks = l.active_tasks;
  total_tasks = l.total_tasks;
  num_cores = load_get_core_count m.processors;
}

unfoldable pub load_response : FloatOps → Machine → Load → Bytes
load_response f m l =
    header_bytes (new_header msg_load_resp load_resp_size) ++ load_resp_bytes (local_load f m l)

-- One round of the loop: the datagram that goes back to the sender, if any.
unfoldable pub answer : FloatOps → Machine → Load → Bytes → Option Bytes
answer f m l datagram =
    let buf = take request_buf_size datagram in
    if ltb (length buf) header_size
    then none
    else (if (read_header buf).type == msg_load_req then some (load_response f m l) else none)
