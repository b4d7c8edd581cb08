-- ===== src/Tests/Queues.antt =====
-- The queues and lists of connections and of the user stack at concrete inputs.
use fatun.Base.{ℕ, ◌≡◌, some, List, [], ◌∷◌, arith}
use fatun.Base.Maps.{lookup}
use fatun.Conn.Udp.{Listener, receive, listen}
use fatun.Conn.Udp.Listening
use fatun.Conn.Udp.Listening.{Delivered, receive-Delivered}
use fatun.Ustack.Slice.{PacketBuffer}
use fatun.Tests.Ports.{web}

listen-IsValid : Listening.IsValid listen
unfolding listen lookup
listen-IsValid = record { fits = λ a c e. absurd (ground arith); offered = omega arith }

receive-Delivered_example :
    (l' : Listener) × (back : List (List ℕ)) × (receive 2 web (1 ∷ []) listen ≡ some (l', back))
    × Delivered listen web (1 ∷ []) l'
receive-Delivered_example = receive-Delivered 0 web (1 ∷ []) listen listen-IsValid

-- A TCP packet of IPv4 to the web server.
abbrev pub to_web : PacketBuffer
to_web = record {
  transport = 6;
  dst_port = 80;
  network = 2048;
  dst_addr = 16843009;
  network_header = 69 ∷ 0 ∷ [];
  slices = (69 ∷ 0 ∷ []) ∷ (1 ∷ 2 ∷ 3 ∷ []) ∷ [];
}
