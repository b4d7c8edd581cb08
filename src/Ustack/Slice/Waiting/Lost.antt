-- ===== src/Ustack/Slice/Waiting/Lost.antt =====
-- ustack/link/list.go, Get and GetBy: a wake-up that is lost.
use fatun.Base.{◌≡◌, refl, true, false, Option, none, some, [], ◌∷◌, ◌++◌, returns, arith}
use fatun.Base.Runs.{Runs, here, later}
use fatun.Net.{AddrPort}
use fatun.Ustack.Slice.{PacketBuffer, Slice, put}
use fatun.Ustack.Slice.Laws.{IsValid, kept, put-kept}
use fatun.Ustack.Slice.Waiting.{
  waiting, State, start, pick, looked, wakened, Quiet, looks, cancels, waits, looks_again, ends,
  broadcasts, Step, quiet, puts,
}

-- The reader waits, and no broadcast is to come.
record Stuck (l : Slice) (s : State) : Type 0 where
  at : s.reader ≡ waiting
  silent : s.pending ≡ 0
  full : s.queue ≡ l

Quiet-Stuck :
    {want : Option AddrPort} {l : Slice} {s t : State} → Quiet want s t → Stuck l s → Stuck l t
Quiet-Stuck (looks p m at ran e) v = ground arith
Quiet-Stuck (cancels at over e) v = ground arith
Quiet-Stuck (waits at on e) v = ground arith
Quiet-Stuck (looks_again p m at ran e) v = ground arith
Quiet-Stuck (ends e) v = ground arith
Quiet-Stuck (broadcasts some_left e) v = ground arith

Runs-Stuck :
    {want : Option AddrPort} {l : Slice} {s t : State}
    → Stuck l s
    → Runs (Quiet want) s t
    → Stuck l t
Runs-Stuck v here = v
Runs-Stuck v (later r st) = Quiet-Stuck st (Runs-Stuck v r)

-- The packet is put and its broadcast sent while the reader is between its look and its wait.
missed :
    (want : Option AddrPort) (p : PacketBuffer) (l l' : Slice)
    → pick want l ≡ returns (none, l)
    → put (some p) l ≡ returns (true, l')
    → Runs
        (Step want)
        (start l)
        (record { queue = l'; reader = waiting; ended = false; pending = 0 })
unfolding start looked wakened
missed want p l l' empty ran =
    later
      (later (later (later here (quiet (looks none l refl empty refl))) (puts p l' ran refl))
        (quiet (broadcasts (omega arith) refl)))
      (quiet (waits refl refl refl))

-- When a queue is valid and has no packet for a reader, then whatever packet is put, a state can be
-- reached in which the packet is the last of the queue and the reader waits; and as long as no other
-- packet is put, the reader waits on and the queue stays as it is, also when its context ends.
pub lost_wakeup :
    (want : Option AddrPort) (p : PacketBuffer) (l : Slice)
    → IsValid l
    → pick want l ≡ returns (none, l)
    → (s : State) × Runs (Step want) (start l) s
      × (s.queue.s ≡ kept l ++ p ∷ [])
      × ((t : State) → Runs (Quiet want) s t → (t.reader ≡ waiting) × (t.queue ≡ s.queue))
lost_wakeup want p l v empty =
    let (l', ran, _, _, held) = put-kept p l v in
    let s : State = record { queue = l'; reader = waiting; ended = false; pending = 0 } in
    let stuck : Stuck l' s = record { at = refl; silent = refl; full = refl } in
    (
      s,
      missed want p l l' empty ran,
      held,
      λ t r. let later_stuck = Runs-Stuck stuck r in (later_stuck.at, later_stuck.full),
    )
