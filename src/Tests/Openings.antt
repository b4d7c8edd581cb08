-- ===== src/Tests/Openings.antt =====
-- A server without a sender, a client without a capturer, and a capturer without an interface.
use fatun.Base.{◌≡◌, ◌⊎◌, refl, true, none, some, List, [], ◌∷◌, Error, os_error, ok, err, returns}
use fatun.Net.{AddrPort, v4}
use fatun.Opening.{
  Effect, opens, closes, left_open, is_open, Leaves, cancel, udp_socket, udp_listener, user_stack,
  builtin_listener, links, datagram_conn, arp_client, pcap_file, divert_handle,
}
use fatun.Opening.Conns.{new_listen, new_client_conn, close_listener}
use fatun.Opening.Senders.{
  SenderAnswers, Interface, new_default_sender, new_eth_sender, iface_by_addr, find_iface, has_addr,
  resolve_gateway, gateway_of,
}
use fatun.Opening.Parties.{
  ServerAnswers, ClientAnswers, new_server, new_client, close_server, open_listener, open_links,
  open_sender, open_conn, open_capturer,
}
use fatun.Opening.Parties.Balance.{new_server-Leaves, failed_client_leaks}
use fatun.Opening.Captures.{CaptureAnswers, new_default_capture}

abbrev denied : Error
denied = os_error 13

abbrev eth0 : Interface
eth0 = record { index = 2; is_running = true; addrs = ok (none ∷ some 7 ∷ []) }

-- The system answers everything but listening on the interface, and has no gateway.
abbrev sender_answers : SenderAnswers
sender_answers = record {
  interfaces = ok (eth0 ∷ []);
  not_found = os_error 19;
  arp_dial = none;
  routes = ok [];
  not_connected = os_error 101;
  resolve = ok 0;
  eth_listen = none;
  assemble = none;
  control = none;
  setsockopt = none;
}

abbrev server_answers : ServerAnswers
server_answers = record {
  udp_listen = none;
  new_listen = record { new_ustack = none; wrap_pcap = none; listen_tcp = none };
  laddr = v4 7;
  sender = sender_answers;
}

abbrev server_trace : List Effect
server_trace =
    opens cancel
    ∷ opens udp_socket
    ∷ opens udp_listener
    ∷ opens user_stack
    ∷ opens builtin_listener
    ∷ opens links
    ∷ opens arp_client
    ∷ closes cancel
    ∷ closes links
    ∷ closes builtin_listener
    ∷ closes user_stack
    ∷ closes udp_listener
    ∷ []

no_gateway :
    new_server server_answers (record { listener = none; links = none; sender = none })
    ≡ returns (err (os_error 101), server_trace)
unfolding new_server open_listener open_links open_sender new_listen close_listener close_server
    new_default_sender new_eth_sender iface_by_addr find_iface has_addr resolve_gateway gateway_of
no_gateway = refl

new_server-Leaves_example :
    (((x : Error) × (server_answers.udp_listen ≡ some x))
      × Leaves close_server server_trace (err (os_error 101)) [])
    ⊎ ((server_answers.udp_listen ≡ none)
        × (Leaves close_server server_trace (err (os_error 101)) (udp_socket ∷ [])
            ⊎ Leaves close_server server_trace (err (os_error 101)) (arp_client ∷ udp_socket ∷ [])))
new_server-Leaves_example =
    new_server-Leaves server_answers (err (os_error 101)) server_trace no_gateway

abbrev here_port : AddrPort
here_port = record { addr = v4 7; port = 4000 }

abbrev there_port : AddrPort
there_port = record { addr = v4 9; port = 19986 }

abbrev client_answers : ClientAnswers
client_answers = record {
  udp_dial = none;
  new_conn = record { new_ustack = none; wrap_pcap = none; new_link_endpoint = none };
  local = here_port;
  remote = there_port;
  new_capture = some denied;
}

abbrev client_trace : List Effect
client_trace = opens cancel ∷ opens datagram_conn ∷ opens user_stack ∷ []

no_capture :
    new_client client_answers (record { conn = none; capturer = none })
    ≡ returns (err denied, client_trace)
unfolding new_client open_conn open_capturer new_client_conn
no_capture = refl

failed_client_leaks_example : is_open datagram_conn (left_open client_trace []) ≡ true
failed_client_leaks_example = failed_client_leaks client_answers denied client_trace no_capture refl

abbrev capture_answers : CaptureAnswers
capture_answers = record {
  pcap_open = none;
  divert_open = none;
  interfaces = ok (eth0 ∷ []);
  not_found = os_error 19;
  new_mapping = none;
}

abbrev capture_trace : List Effect
capture_trace = opens pcap_file ∷ opens divert_handle ∷ []

no_interface : new_default_capture capture_answers (v4 8) ≡ (err (os_error 19), capture_trace)
unfolding new_default_capture iface_by_addr find_iface has_addr
no_interface = refl
