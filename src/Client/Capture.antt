-- ===== src/Client/Capture.antt =====
-- client_windows.go: the capturer. The packets that the divert handle reads are inputs; what it, the
-- process mapping and the capture file answer are parameters. A process name is a number.
pub mod Order
use fatun.Base.{
  ℕ, ◌+◌, Bool, true, false, not, Option, none, some, List, [], ◌∷◌, ◌++◌, Error, Run, returns,
  panics, ◌>>=◌, if◌then◌else◌, ◌=ᵇ◌, length, take, drop,
}
use fatun.Net.{Addr, AddrPort, tcp_number}
use fatun.Packet.{HeaderLib}
use fatun.Session.{Session, from_ip}
use fatun.Client.Mss.{TcpLib, Delta, minus, update_tcp_mss_option}

-- What `capture.Recv` gives: an error, or the bytes read.
pub data Read : Type 0 where
  read_failed : Error → Read
  read : List ℕ → Read

-- What `mapping.Name` gives: the name of the process, an error that is temporary, or another one.
pub data Named : Type 0 where
  named : ℕ → Named
  not_yet : Named
  name_failed : Error → Named

pub record Answers : Type 0 where
  pub name : AddrPort → ℕ → Named
  pub send : List ℕ → Option Error
  pub write_ip : List ℕ → Option Error

-- `type capture struct`: the process, if `Enable` has stored one, and the overhead.
pub record Capture : Type 0 where
  pub process : Option ℕ
  pub overhead : ℕ

-- `Enable`
pub enable : ℕ → Capture → Capture
enable process c = record c { process = some process }

-- What becomes of a packet: it is passed on, kept, or the capturer closes with an error.
pub data Judgement : Type 0 where
  pass keep : Judgement
  broken : Error → Judgement

-- How a call of `Capture` ends: it waits for another packet, a header keeps `UpdateTcpMssOption` in
-- its loop, a panic, a packet, or an error, with whether the capturer was closed.
pub data Outcome : Type 0 where
  waits hangs panicked : Outcome
  captured : List ℕ → Outcome
  failed : Bool → Error → Outcome

module _ (h : HeaderLib) (tcp : TcpLib) (is_multicast : Addr → Bool) (answers : Answers) where
  -- The part of the loop that sets `pass`; loading a process that was not stored panics.
  unfoldable pub judge : Capture → Session → Run Judgement
  judge c s = if is_multicast s.dst.addr then returns pass else elim (answers.name s.src s.proto) [
    | not_yet ↦ returns pass
    | name_failed e ↦ returns (broken e)
    | named name ↦ elim c.process [
      | none ↦ panics
      | some process ↦ returns (if not (name =ᵇ process) then pass else keep)
    ]
  ]

  -- The packet with the MSS option of its TCP header lowered; the error of that is not used.
  pub lower_mss : ℕ → Capture → List ℕ → Option (Run (List ℕ))
  lower_mss fuel c ip =
      let payload = h.ip4_payload ip in
      let front = take (h.ip4_header_length ip) ip in
      let rest = drop (h.ip4_header_length ip + length payload) ip in
      elim (update_tcp_mss_option tcp fuel payload (minus c.overhead)) [
        | none ↦ none
        | some r ↦ some (r >>= λ (e, hdr). returns (front ++ (hdr ++ rest)))
      ]

  -- The end of `Capture`: the file is written, and the packet is given.
  unfoldable pub give : List ℕ → Outcome
  give ip = elim (answers.write_ip ip) [ some e ↦ failed false e | none ↦ captured ip ]

  unfoldable pub finish : ℕ → Capture → ℕ → List ℕ → Outcome
  finish fuel c proto ip =
      if proto =ᵇ tcp_number
      then elim (lower_mss fuel c ip) [
        | none ↦ hangs
        | some panics ↦ panicked
        | some (returns ip') ↦ give ip'
      ]
      else give ip

  -- `Capture` over the packets to come: what it sent on, and how it ended.
  unfoldable pub capture : ℕ → Capture → List Read → List (List ℕ) × Outcome
  capture fuel c [] = ([], waits)
  capture fuel c (read_failed e ∷ rs) = ([], failed true e)
  capture fuel c (read [] ∷ rs) = capture fuel c rs
  capture fuel c (read (b ∷ bs) ∷ rs) =
      let (sent, outcome) = capture fuel c rs in
      elim (from_ip h (b ∷ bs)) [
        | panics ↦ ([], panicked)
        | returns (s, _, some e) ↦ ([], failed false e)
        | returns (s, _, none) ↦ elim (judge c s) [
          | panics ↦ ([], panicked)
          | returns (broken e) ↦ ([], failed true e)
          | returns keep ↦ ([], finish fuel c s.proto (b ∷ bs))
          | returns pass ↦ elim (answers.send (b ∷ bs)) [
            | some e ↦ ([], failed true e)
            | none ↦ ((b ∷ bs) ∷ sent, outcome)
          ]
        ]
      ]

  -- `Inject`: `none` when `UpdateTcpMssOption` does not end; else the packet that was sent, or the
  -- error.
  pub inject : ℕ → Capture → List ℕ → Option (Run (Option Error × List ℕ))
  inject fuel c ip =
      let changed =
        if h.ip4_protocol ip =ᵇ tcp_number then lower_mss fuel c ip else some (returns ip) in
      elim changed [
        | none ↦ none
        | some r ↦ some (
            r >>= λ ip'. elim (answers.write_ip ip') [
              | some e ↦ returns (some e, ip')
              | none ↦ returns (answers.send ip', ip')
            ])
      ]
