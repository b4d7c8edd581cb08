-- ===== src/Conn/Handshake/Silent.antt =====
-- conn/conn.go: a handshake that has succeeded while the service is in its read.
use fatun.Base.{ℕ, ◌<◌, ◌≡◌, refl, ◌⊎◌, inl, inr, true, false, none, arith}
use fatun.Base.Runs.{Runs, here, later}
use fatun.Conn.Handshake.{
  Config, joining, State, start, Progress, lead, follow, wake, succeed, announce, fail, read,
  keep_packet, give_packet, stop, join, Step, progress, break,
}
use fatun.Conn.Handshake.Passing.{Inv, Step-Inv, start-Inv}

-- The leader waits for the service, which is in its read, or a datagram has come.
record Waits (n : ℕ) (s : State) : Type 0 where
  cases :
      (n < s.datagrams)
      ⊎ ((s.datagrams ≡ n)
          × (s.leader ≡ joining none)
          × (s.reading ≡ true)
          × (s.handshaked ≡ true)
          × (s.service_ended ≡ false)
          × (s.notified ≡ true))

Progress-Waits : {c : Config} {n : ℕ} {s t : State} → Progress c s t → Waits n s → Waits n t
Progress-Waits (lead h e) v = ground arith
Progress-Waits (follow h e) v = ground arith
Progress-Waits (wake h w e) v = ground arith
Progress-Waits (succeed a x h r e) v = ground arith
Progress-Waits (announce h e) v = ground arith
Progress-Waits (fail a x h r e) v = ground arith
Progress-Waits (read h r n e) v = ground arith
Progress-Waits (keep_packet p h r e) v = ground arith
Progress-Waits (give_packet p h r e) v = ground arith
Progress-Waits (stop h r n e) v = ground arith
Progress-Waits (join out h r e) v = ground arith

Runs-Waits : {c : Config} {n : ℕ} {s t : State} → Waits n s → Runs (Progress c) s t → Waits n t
Runs-Waits v here = v
Runs-Waits v (later r st) = Progress-Waits st (Runs-Waits v r)

-- A service that is in its read has not ended.
record Open (s : State) : Type 0 where
  runs : s.reading ≡ true → s.serving ≡ true
  open_yet : s.serving ≡ true → s.service_ended ≡ false
  before : s.handshaked ≡ false → (s.serving ≡ false) × (s.service_ended ≡ false)

Progress-Open : {c : Config} {s t : State} → Progress c s t → Open s → Open t
Progress-Open (lead h e) v = ground arith
Progress-Open (follow h e) v = ground arith
Progress-Open (wake h w e) v = ground arith
Progress-Open (succeed a x h r e) v = ground arith
Progress-Open (announce h e) v = ground arith
Progress-Open (fail a x h r e) v = ground arith
Progress-Open (read h r n e) v = ground arith
Progress-Open (keep_packet p h r e) v = ground arith
Progress-Open (give_packet p h r e) v = ground arith
Progress-Open (stop h r n e) v = ground arith
Progress-Open (join out h r e) v = ground arith

Step-Open : {c : Config} {s t : State} → Step c s t → Open s → Open t
Step-Open (progress p) v = Progress-Open p v
Step-Open (break h r e) v = ground arith

start-Open : Open start
unfolding start
start-Open = record { runs = λ h. cc; open_yet = λ h. refl; before = λ h. (refl, refl) }

reached : {c : Config} {s : State} → Runs (Step c) start s → Inv c s × Open s
reached {c} here = (start-Inv c, start-Open)
reached (later r st) = let (i, v) = reached r in (Step-Inv st i, Step-Open st v)

Waits-start :
    {c : Config} (s : State)
    → Inv c s
    → Open s
    → s.leader ≡ joining none
    → s.reading ≡ true
    → Waits s.datagrams s
Waits-start s i v at reads = ground (arith, i.by_leader, i.first, v.runs, v.open_yet)

-- A handshake that has succeeded does not return to its leader while the service is in its read: from
-- each state that the steps lead to in which the leader has closed the channel and waits for the
-- service, and the service is still in the read, as long as the connection does not fail, every state that steps lead to has read a datagram since, or the
-- leader still waits for the service.
pub succeeded_handshake_waits :
    (c : Config) (s t : State)
    → Runs (Step c) start s
    → s.leader ≡ joining none
    → s.reading ≡ true
    → Runs (Progress c) s t
    → (s.datagrams < t.datagrams) ⊎ ((t.leader ≡ joining none) × (t.service_ended ≡ false))
succeeded_handshake_waits c s t run at reads more =
    let (i, w) = reached run in
    let v = Runs-Waits (Waits-start s i w at reads) more in
    elim v.cases [ inl more_read ↦ inl more_read | inr still ↦ inr (still.1, still.4) ]
