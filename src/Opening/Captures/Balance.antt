-- ===== src/Opening/Captures/Balance.antt =====
-- client_windows.go: what the constructor of the capturer leaves open.
use fatun.Base.{◌≡◌, none, some, List, [], ◌∷◌, Fallible, ok, err, arith}
use fatun.Net.{Addr}
use fatun.Opening.{Effect, Resource, left_open, without, pcap_file, divert_handle, Leaves, number}
use fatun.Opening.Senders.{iface_by_addr}
use fatun.Opening.Captures.{Capture, CaptureAnswers, close_capture, new_default_capture}

-- The capture file, if it was opened, and the divert handle, if there is no interface to inject to.
pub capture_left : CaptureAnswers → Addr → List Resource
capture_left answers laddr = elim answers.pcap_open [
  | some e ↦ []
  | none ↦ elim answers.divert_open [
    | some e ↦ pcap_file ∷ []
    | none ↦ elim (iface_by_addr answers.interfaces answers.not_found laddr) [
      | err e ↦ divert_handle ∷ pcap_file ∷ []
      | ok i ↦ pcap_file ∷ []
    ]
  ]
]

-- What NewDefaultCapture leaves open when it fails, and the closed capturer when it succeeds: always
-- the capture file, once it is open, and the divert handle when it fails for want of an interface with
-- the local address.
pub new_default_capture-Leaves :
    (answers : CaptureAnswers) (laddr : Addr) (made : Fallible Capture) (t : List Effect)
    → new_default_capture answers laddr ≡ (made, t)
    → Leaves close_capture t made (capture_left answers laddr)
unfolding new_default_capture close_capture capture_left left_open without Leaves number
new_default_capture-Leaves answers laddr made t ran = ground (arith, ran)
