-- ===== src/Port/Query.antt =====
-- One load query of dispatcher.c at the shared port of a node.
use socket_project.Prelude.{
  arith, ℕ, ◌≡◌, inl, inr, true, false, some, List, [], ◌∷◌, Bool-cases, ◌==◌,
}
use socket_project.Wire.{Bytes, strcmp_eq, header_bytes, read_header, new_header}
use socket_project.Wire.Codec.{strcmp_eq_refl}
use socket_project.PeerList.{Peers}
use socket_project.Float.{FloatOps}
use socket_project.Discovery.{Discovery, on_datagram, on_message}
use socket_project.Dispatcher.{silent, answers, load_request}
use socket_project.Responder.{load_response, answer}
use socket_project.Responder.Score.{answer_request}
use socket_project.Port.{
  Arrival, Datagram, Group, Node, hears, responder_hears, request_at, respond, responder_loop,
  load_responder_thread, listener_loop, listener_thread, first_reply, ask, asked,
}

-- The listener ignores a load request.
on_datagram-load_request :
    (d : Discovery) (ip : Bytes) (now now' : ℕ) (g : Peers)
    → on_datagram d ip load_request now now' g ≡ g
unfolding on_datagram on_message load_request header_bytes read_header new_header
on_datagram-load_request d ip now now' g = elim (Bool-cases (strcmp_eq ip d.local_ip)) [
  | inl own ↦ rw own
  | inr foreign ↦ rw foreign
]

pub asked-same : (n : Node) (ip : Bytes) (port now : ℕ) (g : Peers) → asked n ip port now g ≡ g
unfolding asked listener_thread listener_loop hears request_at
asked-same n ip port now g = elim (Bool-cases n.port.listener) [
  | inr unbound ↦ rw unbound
  | inl bound ↦ elim (Bool-cases (n.port.to_listener ip port)) [
    | inl to_it ↦ rw (to_it, bound) (on_datagram-load_request n.discovery ip now now g)
    | inr elsewhere ↦ rw (elsewhere, bound)
  ]
]

responder_bound :
    (u : Group) (ip : Bytes) (port : ℕ) → responder_hears u ip port ≡ true → u.responder ≡ true
unfolding responder_hears
responder_bound u ip port h = ground arith

respond-answer :
    (f : FloatOps) (a : Arrival) (pkt : Bytes) (rest : List Datagram)
    → answer f a.machine a.load a.datagram ≡ some pkt
    → respond f a rest ≡ record { to_ip = a.src_ip; to_port = a.src_port; pkt = pkt } ∷ rest
unfolding respond
respond-answer f a pkt rest e = rw (e, respond)

first_reply-own :
    (ip : Bytes) (port now : ℕ) (pkt : Bytes)
    → first_reply ip port now (record { to_ip = ip; to_port = port; pkt = pkt } ∷ [])
      ≡ answers pkt now
unfolding first_reply
first_reply-own ip port now pkt =
    let here : (port == port) ≡ true = ground arith in rw (strcmp_eq_refl ip, here)

pub ask-heard :
    (f : FloatOps) (n : Node) (ip : Bytes) (port now : ℕ)
    → responder_hears n.port ip port ≡ true
    → ask f n ip port now ≡ answers (load_response f n.machine n.load) now
unfolding ask load_responder_thread hears responder_loop request_at
ask-heard f n ip port now h =
    let bound = responder_bound n.port ip port h in
    let e : answer f n.machine n.load load_request ≡ some (load_response f n.machine n.load) =
      answer_request f n.machine n.load in
    rw (h, bound, respond-answer f (request_at n ip port now) _ [] e)
      (first_reply-own ip port now (load_response f n.machine n.load))

pub ask-unheard :
    (f : FloatOps) (n : Node) (ip : Bytes) (port now : ℕ)
    → responder_hears n.port ip port ≡ false
    → ask f n ip port now ≡ silent
unfolding ask load_responder_thread hears responder_loop first_reply
ask-unheard f n ip port now h = elim (Bool-cases n.port.responder) [
  | inl bound ↦ rw (h, bound)
  | inr unbound ↦ rw (h, unbound)
]
