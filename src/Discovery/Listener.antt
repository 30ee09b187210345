-- ===== src/Discovery/Listener.antt =====
-- What any datagram can do to the peer table.
use socket_project.Prelude.{
  ℕ, ◌+◌, ◌<◌, ◌≡◌, ◌≢◌, refl, ◌∙◌, inl, inr, ltb, ◌==◌, Bool-cases, length, take, drop,
}
use socket_project.Wire.{Bytes, of_be16, header_size, read_header, strcmp_eq, msg_hello, msg_bye}
use socket_project.Wire.Codec.{strcmp_eq-of_ne}
use socket_project.PeerList.{Peers, inet_addrstrlen, peer_list_add}
use socket_project.PeerList.Slots.{peer_of}
use socket_project.PeerList.Table.{
  IsTable, peer_list_add-IsTable, peer_list_touch-IsTable, peer_list_remove-IsTable,
}
use socket_project.PeerList.Lookup.{peer_list_touch-peer_of, peer_list_remove-peer_of}
use socket_project.PeerList.Add.{peer_list_add-peer_of}
use socket_project.Discovery.{
  Discovery, hello_size, on_hello, on_message, on_datagram, listen_buf_size,
}

-- A change of the table that keeps it sound and touches no entry but that of `src_ip`.
pub record Touches (src_ip : Bytes) (g g' : Peers) : Type 0 where
  pub sound : IsTable g'
  pub others : (j : Bytes) → src_ip ≢ j → peer_of j g' ≡ peer_of j g

Touches-none : (src_ip : Bytes) (g : Peers) → IsTable g → Touches src_ip g g
Touches-none src_ip g t = record { sound = t; others = λ j ne. refl }

on_hello-Touches :
    (src_ip : Bytes) (plen : ℕ) (buf : Bytes) (now now' : ℕ) (g : Peers)
    → length src_ip < inet_addrstrlen
    → IsTable g
    → Touches src_ip g (on_hello src_ip plen buf now now' g)
unfolding on_hello
on_hello-Touches src_ip plen buf now now' g l t = elim (Bool-cases (ltb plen hello_size)) [
  | inl short ↦ rw short (Touches-none src_ip g t)
  | inr full ↦
      let port = of_be16 (drop header_size buf) in
      let g₁ = peer_list_add src_ip port now g in
      let added = peer_list_add-IsTable src_ip port now g l t in
      rw full (record {
        sound = peer_list_touch-IsTable src_ip now' g₁ added;
        others = λ j ne.
            peer_list_touch-peer_of src_ip now' g₁ j
            ∙ rw (strcmp_eq-of_ne src_ip j ne)
                (peer_list_add-peer_of src_ip port now g l j t ∙ rw (strcmp_eq-of_ne src_ip j ne));
      })
]

on_message-Touches :
    (src_ip buf : Bytes) (now now' : ℕ) (g : Peers)
    → length src_ip < inet_addrstrlen
    → IsTable g
    → Touches src_ip g (on_message src_ip buf now now' g)
unfolding on_message
on_message-Touches src_ip buf now now' g l t =
    elim (Bool-cases ((read_header buf).type == msg_hello)) [
      | inl hello ↦ rw hello (on_hello-Touches src_ip _ buf now now' g l t)
      | inr other ↦ elim (Bool-cases ((read_header buf).type == msg_bye)) [
        | inl bye ↦
            rw (other, bye)
              (record {
                sound = peer_list_remove-IsTable src_ip g t;
                others = λ j ne.
                    peer_list_remove-peer_of src_ip g j t ∙ rw (strcmp_eq-of_ne src_ip j ne);
              })
        | inr unknown ↦ rw (other, unknown) (Touches-none src_ip g t)
      ]
    ]

-- Whatever bytes a datagram holds, the listener keeps a sound table sound and changes no entry but
-- that of the datagram's source address, which has at most 15 characters.
pub on_datagram-Touches :
    (d : Discovery) (src_ip datagram : Bytes) (now now' : ℕ) (g : Peers)
    → length src_ip < inet_addrstrlen
    → IsTable g
    → Touches src_ip g (on_datagram d src_ip datagram now now' g)
unfolding on_datagram
on_datagram-Touches d src_ip datagram now now' g l t =
    let buf = take listen_buf_size datagram in
    elim (Bool-cases (ltb (length buf) header_size)) [
      | inl short ↦ rw short (Touches-none src_ip g t)
      | inr header ↦
          elim (Bool-cases (ltb (length buf) (header_size + (read_header buf).payload_len))) [
            | inl cut ↦ rw (header, cut) (Touches-none src_ip g t)
            | inr whole ↦ elim (Bool-cases (strcmp_eq src_ip d.local_ip)) [
              | inl own ↦ rw (header, whole, own) (Touches-none src_ip g t)
              | inr foreign ↦
                  rw (header, whole, foreign) (on_message-Touches src_ip buf now now' g l t)
            ]
          ]
    ]
