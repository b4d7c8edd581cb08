-- ===== src/Ustack/Slice/Waiting.antt =====
-- ustack/link/list.go, Get and GetBy of type slice: a reader that waits for a packet while writers
-- put packets. A step is what one goroutine does with the lock held, or between two points at which
-- another may run; `Wait` gives the lock up and `Put` broadcasts behind its unlock.
pub mod Lost
use fatun.Base.{ℕ, ◌+◌, ◌-◌, ◌<◌, ◌≡◌, Bool, true, false, Option, none, some, Run, returns}
use fatun.Net.{AddrPort}
use fatun.Ustack.Slice.{PacketBuffer, Slice, get, get_by, put}

-- Where the reader is: before its first look, at the `select` of its loop, in `Wait`, woken and
-- about to look again, or back with a packet or with nil.
pub data Reader : Type 0 where
  starting between waiting woken : Reader
  finished : Option PacketBuffer → Reader

-- The queue, the reader, whether its context has ended, and how many writers have put a packet and
-- are about to broadcast.
pub record State : Type 0 where
  pub queue : Slice
  pub reader : Reader
  pub ended : Bool
  pub pending : ℕ

pub start : Slice → State
start l = record { queue = l; reader = starting; ended = false; pending = 0 }

-- `get` for Get, and `getBy` for GetBy with its destination.
unfoldable pub pick : Option AddrPort → Slice → Run (Option PacketBuffer × Slice)
pick none l = returns (get l)
pick (some dst) l = get_by dst l

-- A reader that looked.
pub looked : Option PacketBuffer → Reader
looked none = between
looked (some p) = finished (some p)

-- A broadcast wakes a reader that waits.
pub wakened : Reader → Reader
wakened starting = starting
wakened between = between
wakened waiting = woken
wakened woken = woken
wakened (finished p) = finished p

-- The steps in which no packet is put.
pub data Quiet (want : Option AddrPort) (s t : State) : Type 0 where
  looks :
      (p : Option PacketBuffer) (l : Slice)
      → s.reader ≡ starting
      → pick want s.queue ≡ returns (p, l)
      → t ≡ record s { queue = l; reader = looked p }
      → Quiet want s t
  cancels :
      s.reader ≡ between → s.ended ≡ true → t ≡ record s { reader = finished none } → Quiet want s t
  waits : s.reader ≡ between → s.ended ≡ false → t ≡ record s { reader = waiting } → Quiet want s t
  looks_again :
      (p : Option PacketBuffer) (l : Slice)
      → s.reader ≡ woken
      → pick want s.queue ≡ returns (p, l)
      → t ≡ record s { queue = l; reader = looked p }
      → Quiet want s t
  ends : t ≡ record s { ended = true } → Quiet want s t
  broadcasts :
      0 < s.pending
      → t ≡ record s { pending = s.pending - 1; reader = wakened s.reader }
      → Quiet want s t

-- Any step: one of those, or a writer puts a packet.
pub data Step (want : Option AddrPort) (s t : State) : Type 0 where
  quiet : Quiet want s t → Step want s t
  puts :
      (p : PacketBuffer) (l : Slice)
      → put (some p) s.queue ≡ returns (true, l)
      → t ≡ record s { queue = l; pending = s.pending + 1 }
      → Step want s t
