-- ===== src/Opening/Parties/Balance.antt =====
-- server.go and client.go: what a server and a client leave open.
use fatun.Base.{
  ◌≡◌, refl, Run-cases, ◌⊎◌, inl, inr, true, none, some, List, [], ◌∷◌, ◌++◌, Fallible, ok, err,
  Error, returns, arith,
}
use fatun.Opening.{
  Effect, left_open, without, opens, closes, udp_socket, udp_listener, user_stack, builtin_listener,
  eth_conn, arp_client, datagram_conn, Leaves, number, is_open,
}
use fatun.Opening.Conns.{new_listen, close_listener, new_client_conn, new_conn, close_conn}
use fatun.Opening.Senders.{new_default_sender, new_eth_sender, skip_ports}
use fatun.Opening.Parties.{
  Server, ServerAnswers, close_server, open_listener, open_links, open_sender, new_server, Client,
  ClientAnswers, close_client, open_conn, open_capturer, new_client,
}

-- When NewClient without options gives a client, closing it closes all that was opened.
pub new_client-left_open :
    (answers : ClientAnswers) (c : Client) (t : List Effect)
    → new_client answers (record { conn = none; capturer = none }) ≡ returns (ok c, t)
    → left_open (t ++ close_client c) [] ≡ []
unfolding new_client new_client_conn new_conn open_conn open_capturer close_client close_conn
    left_open without number
new_client-left_open answers c t ran = ground (arith, ran)

-- When NewClient without options fails after it has dialled, the datagram connection stays open.
pub failed_client_leaks :
    (answers : ClientAnswers) (e : Error) (t : List Effect)
    → new_client answers (record { conn = none; capturer = none }) ≡ returns (err e, t)
    → answers.udp_dial ≡ none
    → is_open datagram_conn (left_open t []) ≡ true
unfolding new_client new_client_conn new_conn open_conn open_capturer close_client left_open without
    number is_open
failed_client_leaks answers e t ran dialled = ground (arith, ran, dialled)

-- What opening the listener can do.
listener_cases :
    (answers : ServerAnswers) (made : Fallible (List Effect)) (t : List Effect)
    → open_listener answers none ≡ returns (made, t)
    → ((e : Error) × (made ≡ err e)
        × ((((x : Error) × (answers.udp_listen ≡ some x)) × (t ≡ []))
            ⊎ ((answers.udp_listen ≡ none)
                × ((t ≡ opens udp_socket ∷ opens udp_listener ∷ closes udp_listener ∷ [])
                    ⊎ (t
                        ≡ opens udp_socket
                          ∷ opens udp_listener
                          ∷ opens user_stack
                          ∷ closes user_stack
                          ∷ closes udp_listener
                          ∷ [])))))
      ⊎ ((answers.udp_listen ≡ none)
          × (made ≡ ok (closes builtin_listener ∷ closes user_stack ∷ closes udp_listener ∷ []))
          × (t
              ≡ opens udp_socket
                ∷ opens udp_listener
                ∷ opens user_stack
                ∷ opens builtin_listener
                ∷ []))
unfolding open_listener new_listen close_listener
listener_cases answers made t ran = ground (arith, ran)

-- What opening the sender can do.
sender_cases :
    (answers : ServerAnswers) (made : Fallible (List Effect)) (t : List Effect)
    → open_sender answers none ≡ (made, t)
    → ((e : Error) × (made ≡ err e)
        × ((t ≡ [])
            ⊎ ((t ≡ opens arp_client ∷ [])
                ⊎ (t
                    ≡ opens arp_client ∷ opens eth_conn ∷ closes eth_conn ∷ closes eth_conn ∷ []))))
      ⊎ ((made ≡ ok (closes eth_conn ∷ [])) × (t ≡ opens arp_client ∷ opens eth_conn ∷ []))
unfolding open_sender new_default_sender new_eth_sender skip_ports
sender_cases answers made t ran = ground (arith, ran)

-- When NewServer without options fails to open its UDP socket, it leaves nothing open. When it
-- fails behind that, or gives a server that is closed then, the socket stays open, with the
-- ARP client of the sender or without it, and all else that was opened is closed.
pub new_server-Leaves :
    (answers : ServerAnswers) (made : Fallible Server) (t : List Effect)
    → new_server answers (record { listener = none; links = none; sender = none })
      ≡ returns (made, t)
    → (((x : Error) × (answers.udp_listen ≡ some x)) × Leaves close_server t made [])
      ⊎ ((answers.udp_listen ≡ none)
          × (Leaves close_server t made (udp_socket ∷ [])
              ⊎ Leaves close_server t made (arp_client ∷ udp_socket ∷ [])))
unfolding new_server open_links close_server left_open without Leaves number
new_server-Leaves answers made t ran = elim (Run-cases (open_listener answers none)) [
  | inl bad ↦ absurd (ground (arith, bad, ran))
  | inr ((listener, listening), opened) ↦
      let on_listener = listener_cases answers listener listening opened in
      let (sender, sending) = open_sender answers none in
      let on_sender = sender_cases answers sender sending refl in
      ground (arith, ran, opened, on_listener, on_sender)
]
