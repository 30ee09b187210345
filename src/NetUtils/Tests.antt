-- ===== src/NetUtils/Tests.antt =====
-- net_utils.c at concrete inputs.
use socket_project.Prelude.{
  ℕ, ◌+◌, ◌≤◌, ◌<◌, ◌≡◌, refl, Bool, true, some, List, [], ◌∷◌, ◌++◌, arith, length, replicate,
}
use socket_project.Wire.{Bytes, header_size, header_bytes, new_header, read_header, msg_output}
use socket_project.NetUtils.{
  Outcome, moves, fails, eintr, Socket, done, failed, send_loop, send_all, recv_loop, recv_all,
  send_payload, send_msg, recv_payload, recv_msg, max_payload,
}
use socket_project.NetUtils.Send.{ready, Sent, send_all-Sent}
use socket_project.NetUtils.Frame.{frame, send_msg-ready}
use socket_project.NetUtils.RoundTrip.{recv_msg-send_msg}
use socket_project.NetUtils.Guard.{recv_msg_bounds, recv_msg_oversize}

abbrev hello : Bytes
hello = 104 ∷ 105 ∷ 33 ∷ []

-- Three bytes at a time, with an interruption.
abbrev slow : List Outcome
slow = moves 3 ∷ fails eintr ∷ replicate 20 (moves 3)

abbrev sender : Socket
sender = record { incoming = []; outgoing = []; calls = slow }

abbrev hello_frame : Bytes
hello_frame = 7 ∷ 0 ∷ 0 ∷ 0 ∷ 0 ∷ 3 ∷ 0 ∷ 0 ∷ 104 ∷ 105 ∷ 33 ∷ []

abbrev after_send : Socket
after_send = record { incoming = []; outgoing = hello_frame; calls = replicate 17 (moves 3) }

abbrev receiver : Socket
receiver = record { incoming = hello_frame ++ 9 ∷ []; outgoing = []; calls = slow }

abbrev after_recv : Socket
after_recv = record { incoming = 9 ∷ []; outgoing = []; calls = replicate 17 (moves 3) }

abbrev always : ℕ → Bool
always n = true

hello_sent : send_msg msg_output (some hello) 3 sender ≡ done tt after_send
unfolding send_msg send_all send_loop send_payload header_bytes new_header
hello_sent = refl

hello_received :
    recv_msg always receiver ≡ done (record { type = msg_output; payload = hello }) after_recv
unfolding recv_msg recv_all recv_loop recv_payload read_header
hello_received = refl

send_all-Sent_example : Sent hello [] [] (send_all hello sender)
send_all-Sent_example = send_all-Sent hello sender

send_msg-ready_example :
    (t : Socket) × (send_msg msg_output (some hello) 3 sender ≡ done tt t)
    × (t.outgoing ≡ frame msg_output hello)
    × (t.incoming ≡ [])
    × (21 ≤ ready t.calls + 11)
send_msg-ready_example = send_msg-ready msg_output hello sender (omega arith)

recv_msg-send_msg_example :
    (r : Socket) × (recv_msg always receiver
      ≡ done (record { type = msg_output; payload = hello }) r)
    × (r.incoming ≡ 9 ∷ [])
    × (r.outgoing ≡ [])
    × (21 ≤ ready r.calls + 11)
recv_msg-send_msg_example =
    recv_msg-send_msg always msg_output hello (9 ∷ []) sender after_send receiver (omega arith)
      (omega arith) refl hello_sent refl (omega arith)

recv_msg_bounds_example :
    (hdr : Bytes) × (length hdr ≡ header_size)
    × (msg_output ≡ (read_header hdr).type)
    × (3 ≡ (read_header hdr).payload_len)
    × (3 ≤ max_payload)
    × (receiver.incoming ≡ hdr ++ (hello ++ 9 ∷ []))
    × ([] ≡ receiver.outgoing)
recv_msg_bounds_example =
    recv_msg_bounds always (record { type = msg_output; payload = hello }) receiver after_recv
      hello_received

-- A header that announces 2 ^ 24 bytes.
abbrev greedy : Bytes
greedy = 6 ∷ 0 ∷ 1 ∷ 0 ∷ 0 ∷ 0 ∷ 0 ∷ 0 ∷ []

abbrev attacked : Socket
attacked = record { incoming = greedy ++ hello; outgoing = []; calls = slow }

greedy_length : max_payload < (read_header greedy).payload_len
unfolding read_header
greedy_length = omega arith

recv_msg_oversize_example :
    (t : Socket) × (recv_msg always attacked ≡ failed t) × (t.incoming ≡ hello) × (t.outgoing ≡ [])
recv_msg_oversize_example =
    recv_msg_oversize always greedy hello attacked refl refl greedy_length (omega arith)
