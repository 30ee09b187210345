-- ===== src/Responder/Score.antt =====
-- A node that is asked for its load is scored as it scores itself (main.c, dispatcher.c,
-- load_monitor.c).
use socket_project.Prelude.{
  ℕ, ◌+◌, ◌^◌, ◌<◌, ◌≡◌, refl, ap, ◌∙◌, false, some, ◌++◌, arith, ltb, length, drop, take-all,
  drop-append,
}
use socket_project.Wire.{
  Bytes, header_size, header_bytes, read_header, new_header, msg_load_resp, load_resp_size,
  load_resp_bytes, LoadResp, read_load_resp,
}
use socket_project.Wire.Codec.{
  length-header_bytes, read_header-new_header, read_load_resp-load_resp_bytes,
}
use socket_project.PeerList.{Peers, peer_list_update_load}
use socket_project.Float.{FloatOps}
use socket_project.LoadMonitor.{Load, Machine, load_get_percentage, load_score_local}
use socket_project.Dispatcher.{
  answers, query_peer_load, read_reply, load_request, query_buf_size, info_port,
}
use socket_project.Responder.{local_load, load_response, answer}

-- Every field of the answer is a 32-bit word.
pub record IsWords (r : LoadResp) : Type 0 where
  pub pct : r.load_pct < 2 ^ 32
  pub active : r.active_tasks < 2 ^ 32
  pub total : r.total_tasks < 2 ^ 32
  pub cores : r.num_cores < 2 ^ 32

length-load_response :
    (f : FloatOps) (m : Machine) (l : Load)
    → length (load_response f m l) ≡ header_size + load_resp_size
unfolding load_response header_bytes load_resp_bytes
length-load_response f m l = refl

pub answer_request :
    (f : FloatOps) (m : Machine) (l : Load) → answer f m l load_request ≡ some (load_response f m l)
unfolding answer load_request header_bytes read_header new_header
answer_request f m l = refl

read_reply-load_response :
    (f : FloatOps) (m : Machine) (l : Load) (ip : Bytes) (port now : ℕ) (g : Peers)
    → IsWords (local_load f m l)
    → read_reply f ip port (load_response f m l) now g ≡ record {
      score = load_score_local f m l;
      info = some (record {
        ip = ip;
        port = port;
        load_pct = load_get_percentage f m;
        active_tasks = l.active_tasks;
        total_tasks = l.total_tasks;
      });
      peers = peer_list_update_load ip (load_resp_bytes (local_load f m l)) now g;
    }
unfolding read_reply load_response local_load load_score_local new_header
read_reply-load_response f m l ip port now g w =
    let hdr = header_bytes (new_header msg_load_resp load_resp_size) in
    let resp = load_resp_bytes (local_load f m l) in
    let long : ltb (length (load_response f m l)) (header_size + load_resp_size) ≡ false =
      ground (arith, length-load_response f m l) in
    let header : read_header (hdr ++ resp) ≡ new_header msg_load_resp load_resp_size =
      read_header-new_header msg_load_resp load_resp_size resp (omega arith) (omega arith) in
    let body : drop header_size (hdr ++ resp) ≡ resp =
      drop-append header_size hdr resp
        (length-header_bytes (new_header msg_load_resp load_resp_size)) in
    let back : read_load_resp resp ≡ local_load f m l =
      read_load_resp-load_resp_bytes (local_load f m l) w.pct w.active w.total w.cores in
    rw (long, header, body, back)

-- When the four fields are 32-bit words, the responder answers a load request, and query_peer_load
-- computes from the answer exactly the score that load_score_local gives on the answering node,
-- keeps the port of the table, and hands the answer's payload to peer_list_update_load.
pub query_peer_load-answer :
    (f : FloatOps) (m : Machine) (l : Load) (ip : Bytes) (port now : ℕ) (g : Peers)
    → IsWords (local_load f m l)
    → (reply : Bytes) × (answer f m l load_request ≡ some reply)
      × ((query_peer_load f ip port (answers reply now) g).score ≡ load_score_local f m l)
      × (info_port (query_peer_load f ip port (answers reply now) g).info ≡ some port)
      × ((query_peer_load f ip port (answers reply now) g).peers
          ≡ peer_list_update_load ip (load_resp_bytes (local_load f m l)) now g)
unfolding query_peer_load
query_peer_load-answer f m l ip port now g w =
    let whole =
      take-all query_buf_size (load_response f m l) (omega (arith, length-load_response f m l)) in
    let e =
      ap (λ buf. read_reply f ip port buf now g) whole
      ∙ read_reply-load_response f m l ip port now g w in
    (
      load_response f m l,
      answer_request f m l,
      ap (λ q. q.score) e,
      ap (λ q. info_port q.info) e,
      ap (λ q. q.peers) e,
    )
