-- ===== src/Dispatcher.antt =====
-- New_socket_proj/dispatcher.c: the peers are asked for their load, the task goes to the least loaded
-- node, and its output comes back.
pub mod Select
pub mod TaskFile
pub mod Output
pub mod Fallback
pub mod Tests
use socket_project.Prelude.{
  ℕ, zero, suc, ◌+◌, ◌-◌, ◌%◌, ◌^◌, Bool, true, false, ◌||◌, Option, none, some, List, [], ◌∷◌,
  ◌++◌, ltb, leb, ◌==◌, if◌then◌else◌, length, take, drop,
}
use socket_project.Wire.{
  Bytes, be16, be32, of_be32, header_size, header_bytes, read_header, new_header, msg_load_req,
  msg_load_resp, msg_task_file, msg_output, msg_task_done, LoadResp, load_resp_size, read_load_resp,
}
use socket_project.NetUtils.{
  Socket, Io, M, done, failed, blocked, fail, send_msg, recv_msg, Message,
}
use socket_project.PeerList.{PeerInfo, Peers, max_peers, peer_list_update_load, peer_list_get_all}
use socket_project.Float.{FloatOps, float_10, float_1e9, float_1e10}
use socket_project.LoadMonitor.{Load, Machine, load_score_local}
use socket_project.Worker.{Task}

-- What comes of one query: no socket, nothing before the timeout, or a datagram, at a time.
pub data Reply : Type 0 where
  silent : Reply
  answers : Bytes → ℕ → Reply

-- The fields of `*out_info` that a query fills in.
pub record QueryInfo : Type 0 where
  pub ip : Bytes
  pub port : ℕ
  pub load_pct : ℕ
  pub active_tasks : ℕ
  pub total_tasks : ℕ

-- `float` score, and what was stored to `*out_info`: `none` where the function returned before.
pub record Query : Type 0 where
  pub score : ℕ
  pub info : Option QueryInfo
  pub peers : Peers

-- `sizeof(msg_header_t) + sizeof(payload_load_resp_t) + 8`; a longer datagram is cut.
abbrev pub query_buf_size : ℕ
query_buf_size = header_size + load_resp_size + 8

-- The datagram that asks.
unfoldable pub load_request : Bytes
load_request = header_bytes (new_header msg_load_req 0)

unfoldable pub read_reply : FloatOps → Bytes → ℕ → Bytes → ℕ → Peers → Query
read_reply f ip port buf now g =
    if ltb (length buf) (header_size + load_resp_size)
    then record { score = float_1e9; info = none; peers = g }
    else (if (read_header buf).type == msg_load_resp
        then (let resp = drop header_size buf in
            let r = read_load_resp resp in
            record {
              score = f.add r.load_pct (f.mul float_10 (f.of_u32 r.active_tasks));
              info = some (record {
                ip = ip;
                port = port;
                load_pct = r.load_pct;
                active_tasks = r.active_tasks;
                total_tasks = r.total_tasks;
              });
              peers = peer_list_update_load ip resp now g;
            })
        else record { score = float_1e9; info = none; peers = g })

unfoldable pub query_peer_load : FloatOps → Bytes → ℕ → Reply → Peers → Query
query_peer_load f ip port silent g = record { score = float_1e9; info = none; peers = g }
query_peer_load f ip port (answers datagram now) g =
    read_reply f ip port (take query_buf_size datagram) now g

-- `best_score`, `best_ip` and `best_port`; a port is `none` while it is indeterminate, as
-- `result.port` is after a query that failed.
pub record Best : Type 0 where
  pub score : ℕ
  pub ip : Bytes
  pub port : Option ℕ

unfoldable pub no_best : Best
no_best = record { score = float_1e10; ip = []; port = some 0 }

abbrev pub info_port : Option QueryInfo → Option ℕ
info_port none = none
info_port (some i) = some i.port

unfoldable pub consider : FloatOps → Bytes → Query → Best → Best
consider f ip q b =
    if f.lt q.score b.score then record { score = q.score; ip = ip; port = info_port q.info } else b

-- The loop over the snapshot; each query may update the table.
unfoldable pub query_all : FloatOps → (Bytes → Reply) → Peers → Best → Peers → Best × Peers
query_all f reply [] b g = (b, g)
query_all f reply (p ∷ ps) b g =
    let q = query_peer_load f p.ip p.port (reply p.ip) g in
    query_all f reply ps (consider f p.ip q b) q.peers

pub data Target : Type 0 where
  self : Target
  peer : Bytes → Option ℕ → Target

unfoldable pub choose : FloatOps → ℕ → ℕ → Best → Target
choose f n_peers self_score b =
    if n_peers == 0 || f.le self_score b.score then self else peer b.ip b.port

-- Steps 1 and 2 of `dispatch`: the target, and the table after the queries.
unfoldable pub select_target : FloatOps → (Bytes → Reply) → Machine → Load → Peers → Target × Peers
select_target f reply m l g =
    let peers = peer_list_get_all max_peers g in
    let (best, g') = query_all f reply peers no_best g in
    (choose f (length peers) (load_score_local f m l) best, g')

-- The payload of MSG_TASK_FILE.
unfoldable pub task_payload : Task → Bytes
task_payload t =
    let fn_len = length t.filename % 2 ^ 16 in
    be16 fn_len ++ (take fn_len t.filename ++ (be32 (length t.file_data) ++ t.file_data))

unfoldable pub send_task_file : (ℕ → Bool) → Task → M (Unit {0})
send_task_file malloc t =
    let total = (2 + length t.filename % 2 ^ 16 + 4 + length t.file_data) % 2 ^ 32 in
    if malloc total then send_msg msg_task_file (some (task_payload t)) total else fail

-- An `int` by its 32-bit pattern.
abbrev pub minus_one : ℕ
minus_one = 2 ^ 32 - 1

-- `receive_output` returned, with what it wrote to stdout; it waits for the peer; or the rounds of
-- the model are used up.
pub data Reception : Type 0 where
  returned : ℕ → Bytes → Socket → Reception
  waiting : Bytes → Socket → Reception
  out_of_fuel : Reception

-- `memcpy(&ec, payload, 4)`, if there are four bytes.
unfoldable pub done_code : Bytes → ℕ
done_code payload = if leb 4 (length payload) then of_be32 payload else 0

unfoldable pub receive_loop : ℕ → (ℕ → Bool) → Bytes → Socket → Reception
receive_loop zero malloc out s = out_of_fuel
receive_loop (suc fuel) malloc out s = elim (recv_msg malloc s) [
  | failed s' ↦ returned minus_one out s'
  | blocked s' ↦ waiting out s'
  | done m s' ↦ elim (m.type == msg_task_done) [
    | true ↦ returned (done_code m.payload) out s'
    | false ↦ receive_loop fuel malloc (if m.type == msg_output then out ++ m.payload else out) s'
  ]
]

-- A message takes 8 bytes off the stream at least.
unfoldable pub receive_output : (ℕ → Bool) → Socket → Reception
receive_output malloc s = receive_loop (length s.incoming + 1) malloc [] s

-- Steps 3 and 4. `connect` gives the connection, or `none`; the task goes to the target, or to this
-- node where a peer cannot be reached.
unfoldable pub connect_target : (Target → Option Socket) → Target → Option Socket
connect_target connect self = connect self
connect_target connect (peer ip port) = elim (connect (peer ip port)) [
  | some s ↦ some s
  | none ↦ connect self
]

unfoldable pub run_on : (ℕ → Bool) → Task → Option Socket → Reception
run_on malloc t none = returned minus_one [] (record { incoming = []; outgoing = []; calls = [] })
run_on malloc t (some s) = elim (send_task_file malloc t s) [
  | failed s' ↦ returned minus_one [] s'
  | blocked s' ↦ waiting [] s'
  | done _ s' ↦ receive_output malloc s'
]

unfoldable pub dispatch :
    FloatOps
    → (Bytes → Reply)
    → (Target → Option Socket)
    → (ℕ → Bool)
    → Machine
    → Load
    → Task
    → Peers
    → Reception × Peers
dispatch f reply connect malloc m l t g =
    let (target, g') = select_target f reply m l g in
    (run_on malloc t (connect_target connect target), g')
