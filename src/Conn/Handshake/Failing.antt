-- ===== src/Conn/Handshake/Failing.antt =====
-- conn/conn.go: a handshake that fails while the connection works.
use fatun.Base.{ℕ, ◌≤◌, ◌≡◌, true, false, some, Error, arith}
use fatun.Base.Runs.{Runs, here, later}
use fatun.Conn.Handshake.{
  Config, joining, State, start, Progress, lead, follow, wake, succeed, announce, fail, read,
  keep_packet, give_packet, stop, join,
}
use fatun.Conn.Handshake.Passing.{Inv, Progress-Inv, start-Inv}

-- The service has not ended, unless the leader closed the channel; and no caller waits to pass.
record Alive (s : State) : Type 0 where
  kept_up : s.service_ended ≡ true → s.notified ≡ true

Progress-Alive : {c : Config} {s t : State} → Progress c s t → Alive s → Alive t
Progress-Alive (lead h e) v = ground arith
Progress-Alive (follow h e) v = ground arith
Progress-Alive (wake h w e) v = ground arith
Progress-Alive (succeed a x h r e) v = ground arith
Progress-Alive (announce h e) v = ground arith
Progress-Alive (read h r n e) v = ground arith
Progress-Alive (fail a x h r e) v = ground arith
Progress-Alive (keep_packet p h r e) v = ground arith
Progress-Alive (give_packet p h r e) v = ground arith
Progress-Alive (stop h r n e) v = ground arith
Progress-Alive (join out h r e) v = ground arith

reached : {c : Config} {s : State} → Runs (Progress c) start s → Inv c s × Alive s
unfolding start
reached {c} here = (start-Inv c, record { kept_up = λ h. cc })
reached (later r st) = let (v, a) = reached r in (Progress-Inv st v, Progress-Alive st a)

-- The leader waits for the service with an error, and the service runs on.
record Stuck (e : Error) (n : ℕ) (s : State) : Type 0 where
  at : s.leader ≡ joining (some e)
  quiet : s.notified ≡ false
  running : s.service_ended ≡ false
  started : s.handshaked ≡ true
  none_passed : s.passed ≡ 0
  waiters : n ≤ s.waiting

Progress-Stuck :
    {c : Config} {err : Error} {n : ℕ} {s t : State}
    → Progress c s t
    → Stuck err n s
    → Stuck err n t
Progress-Stuck (lead h e) v = ground arith
Progress-Stuck (follow h e) v = ground arith
Progress-Stuck (wake h w e) v = ground arith
Progress-Stuck (succeed a x h r e) v = ground arith
Progress-Stuck (announce h e) v = ground arith
Progress-Stuck (read h r n e) v = ground arith
Progress-Stuck (fail a x h r e) v = ground arith
Progress-Stuck (keep_packet p h r e) v = ground arith
Progress-Stuck (give_packet p h r e) v = ground arith
Progress-Stuck (stop h r n e) v = ground arith
Progress-Stuck (join out h r e) v = ground arith

Runs-Stuck :
    {c : Config} {err : Error} {n : ℕ} {s t : State}
    → Stuck err n s
    → Runs (Progress c) s t
    → Stuck err n t
Runs-Stuck v here = v
Runs-Stuck v (later r st) = Progress-Stuck st (Runs-Stuck v r)

Stuck-reached :
    {c : Config} {s : State} (e : Error)
    → Inv c s
    → Alive s
    → s.leader ≡ joining (some e)
    → Stuck e s.waiting s
Stuck-reached e v a at = ground arith

-- When the handshake fails while reading and decoding do not, then whatever packets come, the
-- leader stays at its wait for the service, no caller passes, and none of the callers that wait is
-- released: the error is never returned.
pub failed_handshake_hangs :
    (c : Config) (e : Error) (s t : State)
    → Runs (Progress c) start s
    → s.leader ≡ joining (some e)
    → Runs (Progress c) s t
    → (t.leader ≡ joining (some e)) × (t.passed ≡ 0) × (s.waiting ≤ t.waiting)
failed_handshake_hangs c e s t r at more =
    let (v, a) = reached r in
    let stuck = Runs-Stuck (Stuck-reached e v a at) more in
    (stuck.at, stuck.none_passed, stuck.waiters)
