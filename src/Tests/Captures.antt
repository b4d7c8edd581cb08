-- ===== src/Tests/Captures.antt =====
-- A capture of one process's packet behind one of another process.
use fatun.Base.{
  ℕ, ◌≡◌, refl, Bool, false, none, some, List, [], ◌∷◌, ◌++◌, All, ◌=ᵇ◌, if◌then◌else◌,
}
use fatun.Net.{Addr, v4}
use fatun.Session.{from_ip, from_ip4, session_of}
use fatun.Client.Capture.{
  Read, read, Answers, named, Capture, captured, judge, give, finish, capture,
}
use fatun.Client.Capture.Order.{packets, IsForeign, IsOwn, IsMade, capture-packets}
use fatun.Tests.Wire.{header_views, tcp_options}

abbrev datagram_from : ℕ → List ℕ
datagram_from host =
    69 ∷ 0 ∷ 0 ∷ 28 ∷ 0 ∷ 0 ∷ 0 ∷ 0 ∷ 64 ∷ 17 ∷ 0 ∷ 0 ∷ 10 ∷ 0 ∷ 0 ∷ host ∷ 8 ∷ 8 ∷ 8 ∷ 8 ∷ 15 ∷ 160
    ∷ 0 ∷ 53 ∷ 0 ∷ 8 ∷ 0 ∷ 0 ∷ []

-- The process 7 sends from 10.0.0.2, and the process 9 from other addresses.
abbrev answers : Answers
answers = record {
  name =
      λ src proto. elim src.addr [ v4 a ↦ named (if a =ᵇ 167772162 then 7 else 9) | _ ↦ named 9 ];
  send = λ ip. none;
  write_ip = λ ip. none;
}

abbrev capturer : Capture
capturer = record { process = some 7; overhead = 21 }

abbrev no_multicast : Addr → Bool
no_multicast a = false

abbrev reads : List Read
reads = read (datagram_from 3) ∷ read [] ∷ read (datagram_from 2) ∷ read (datagram_from 2) ∷ []

capturing :
    capture header_views tcp_options no_multicast answers 100 capturer reads
    ≡ (datagram_from 3 ∷ [], captured (datagram_from 2))
unfolding capture from_ip from_ip4 session_of judge finish give
capturing = refl

capture-packets_example :
    (before : List Read) × (ip : List ℕ) × (after : List Read) × (reads ≡ before ++ read ip ∷ after)
    × (datagram_from 3 ∷ [] ≡ packets before)
    × All (IsForeign header_views tcp_options no_multicast answers capturer) (datagram_from 3 ∷ [])
    × IsOwn header_views tcp_options no_multicast answers capturer ip
    × IsMade header_views tcp_options no_multicast answers 100 capturer ip (datagram_from 2)
capture-packets_example =
    capture-packets header_views tcp_options no_multicast answers 100 capturer reads
      (datagram_from 3 ∷ []) (datagram_from 2) capturing
