-- ===== src/Conn/Handshake/Releasing.antt =====
-- conn/conn.go: which callers a handshake releases.
use fatun.Base.{
  ℕ, zero, suc, ◌+◌, ◌-◌, ◌≤◌, ◌≡◌, refl, sym, ◌∙◌, ◌⊎◌, inl, inr, true, false, ◌||◌, none, some,
  [], Error, Bool-cases, if◌then◌else◌, arith,
}
use fatun.Base.Runs.{Runs, here, later}
use fatun.Conn.Handshake.{
  Config, Leader, idle, working, announcing, joining, returned, State, start, Progress, lead,
  follow, wake, succeed, announce, fail, read, keep_packet, give_packet, stop, join, Step, progress,
  break, leads, has_error, keep,
}
use fatun.Conn.Handshake.Passing.{Inv, Step-Inv, start-Inv, notifies}

-- The service runs or has ended, once the handshake has started.
record Served (s : State) : Type 0 where
  goes : (s.serving || s.service_ended) ≡ true ⊎ (s.leader ≡ idle)

Progress-Served : {c : Config} {s t : State} → Progress c s t → Inv c s → Served s → Served t
Progress-Served (lead h e) i v = ground arith
Progress-Served (follow h e) i v = ground arith
Progress-Served (wake h w e) i v = ground arith
Progress-Served (succeed a x h r e) i v = ground arith
Progress-Served (announce h e) i v = ground arith
Progress-Served (read h r n e) i v = ground arith
Progress-Served (fail a x h r e) i v = ground arith
Progress-Served (keep_packet p h r e) i v = ground arith
Progress-Served (give_packet p h r e) i v = ground arith
Progress-Served (stop h r n e) i v = ground arith
Progress-Served (join out h r e) i v = ground arith

Step-Served : {c : Config} {s t : State} → Step c s t → Inv c s → Served s → Served t
Step-Served (progress p) i v = Progress-Served p i v
Step-Served (break h r e) i v = ground arith

reached : {c : Config} {s : State} → Runs (Step c) start s → Inv c s × Served s
unfolding start
reached {c} here = (start-Inv c, record { goes = inr refl })
reached (later r st) = let (i, v) = reached r in (Step-Inv st i, Step-Served st i v)

-- All callers that wait wake, one after the other.
wake_all :
    (c : Config) (s : State) (n : ℕ) (u : State)
    → u.waiting ≡ n
    → u.notified ≡ true
    → Runs (Progress c) s u
    → (t : State) × Runs (Progress c) s t
      × (t.waiting ≡ 0)
      × (t.passed ≡ u.passed + n)
      × (t.leader ≡ u.leader)
      × (t.datagrams ≡ u.datagrams)
wake_all c s zero u w h r = (u, r, w, omega arith, refl, refl)
wake_all c s (suc n) u w h r =
    let v : State = record u { waiting = u.waiting - 1; passed = u.passed + 1 } in
    let (t, more, none_left, all, same, quiet) =
      wake_all c s n v (omega arith) h (later r (wake h (omega arith) refl)) in
    (t, more, none_left, omega arith, same, quiet)

joined :
    (c : Config) (s : State)
    → s.leader ≡ joining none
    → s.service_ended ≡ true
    → s.notified ≡ true
    → (u : State) × Progress c s u
      × (u.leader ≡ returned none)
      × (u.waiting ≡ s.waiting)
      × (u.notified ≡ true)
      × (s.passed ≤ u.passed)
      × (u.datagrams ≡ s.datagrams)
joined c s at ended open_now = (
  record s {
    leader = returned none;
    passed = s.passed + leads none;
    closed = if has_error none then true else s.closed;
  },
  join none at ended refl,
  refl,
  refl,
  open_now,
  omega arith,
  refl,
)

-- The service ends: at its next look at the channel, which a datagram leads to if it is in its read.
service_done :
    (c : Config) (s : State)
    → s.serving ≡ true
    → s.notified ≡ true
    → (u : State) × Runs (Progress c) s u
      × (u.service_ended ≡ true)
      × (u.leader ≡ s.leader)
      × (u.notified ≡ true)
      × (u.waiting ≡ s.waiting)
      × (u.passed ≡ s.passed)
      × (u.datagrams ≤ s.datagrams + 1)
service_done c s runs open_now = elim (Bool-cases s.reading) [
  | inr looks ↦ (
    record s { serving = false; service_ended = true },
    later here (stop runs looks open_now refl),
    refl,
    refl,
    open_now,
    refl,
    refl,
    omega arith,
  )
  | inl reads ↦
      let t : State = record s {
        reading = false;
        datagrams = s.datagrams + 1;
        queue = keep s.queue [];
      } in
      (
        record t { serving = false; service_ended = true },
        later (later here (keep_packet [] runs reads refl)) (stop runs refl open_now refl),
        refl,
        refl,
        open_now,
        refl,
        refl,
        omega arith,
      )
]

led_back :
    (c : Config) (s : State)
    → Served s
    → s.leader ≡ joining none
    → s.notified ≡ true
    → (u : State) × Runs (Progress c) s u
      × (u.leader ≡ returned none)
      × (u.waiting ≡ s.waiting)
      × (u.notified ≡ true)
      × (s.passed ≤ u.passed)
      × (u.datagrams ≤ s.datagrams + 1)
led_back c s v at open_now = elim (Bool-cases s.service_ended) [
  | inl ended ↦
      let (u, st, back, waits, still, more, few) = joined c s at ended open_now in
      (u, later here st, back, waits, still, more, omega (arith, few))
  | inr runs ↦
      let (m, run, ended, same, open_then, as_many, as_before, one) =
        service_done c s (ground (arith, v.goes, at, runs)) open_now in
      let (u, st, back, waits, still, more, few) = joined c m (same ∙ at) ended open_then in
      (
        u,
        later run st,
        back,
        waits ∙ as_many,
        still,
        omega (arith, more, as_before),
        omega (arith, few, one),
      )
]

leader_done : (l : Leader) → notifies l ≡ true → (l ≡ joining none) ⊎ (l ≡ returned none)
leader_done idle h = absurd (ground arith)
leader_done working h = absurd (ground arith)
leader_done announcing h = absurd (ground arith)
leader_done (joining none) h = inl refl
leader_done (joining (some e)) h = absurd (ground arith)
leader_done (returned none) h = inr refl
leader_done (returned (some e)) h = absurd (ground arith)

-- Once the leader has closed the channel after a handshake that succeeded, the callers can all pass:
-- from each such state that the steps lead to, whether the connection breaks or not, further steps, in
-- which the service reads at most one more datagram, lead to a state where the leader has returned
-- without an error, no caller waits, and each that waited has passed, those that passed before included.
pub succeeded_releases :
    (c : Config) (s : State)
    → Runs (Step c) start s
    → s.notified ≡ true
    → (t : State) × Runs (Progress c) s t
      × (t.leader ≡ returned none)
      × (t.waiting ≡ 0)
      × (s.passed + s.waiting ≤ t.passed)
      × (t.datagrams ≤ s.datagrams + 1)
succeeded_releases c s r open_now =
    let (i, v) = reached r in
    elim (leader_done s.leader (sym i.by_leader ∙ open_now)) [
      | inl at ↦
          let (u, run, back, waits, still, more, few) = led_back c s v at open_now in
          let (t, all, none_left, passed, same, quiet) = wake_all c s u.waiting u refl still run in
          (t, all, same ∙ back, none_left, omega (arith, waits), omega (arith, few, quiet))
      | inr back ↦
          let (t, all, none_left, passed, same, quiet) =
            wake_all c s s.waiting s refl open_now here in
          (t, all, same ∙ back, none_left, omega arith, omega (arith, quiet))
    ]

-- The leader has an error.
record Failed (e : Error) (n : ℕ) (s : State) : Type 0 where
  at : (s.leader ≡ joining (some e)) ⊎ (s.leader ≡ returned (some e))
  quiet : s.notified ≡ false
  none_passed : s.passed ≡ 0
  waiters : n ≤ s.waiting
  started : s.handshaked ≡ true

Step-Failed :
    {c : Config} {err : Error} {n : ℕ} {s t : State} → Step c s t → Failed err n s → Failed err n t
unfolding leads
Step-Failed (progress (lead h e)) v = ground arith
Step-Failed (progress (follow h e)) v = ground arith
Step-Failed (progress (wake h w e)) v = ground arith
Step-Failed (progress (succeed a x h r e)) v = ground arith
Step-Failed (progress (announce h e)) v = ground arith
Step-Failed (progress (read h r n e)) v = ground arith
Step-Failed (progress (fail a x h r e)) v = ground arith
Step-Failed (progress (keep_packet p h r e)) v = ground arith
Step-Failed (progress (give_packet p h r e)) v = ground arith
Step-Failed (progress (stop h r n e)) v = ground arith
Step-Failed (progress (join none h r e)) v = ground arith
Step-Failed (progress (join (some x) h r e)) v = ground arith
Step-Failed (break h r e) v = ground arith

Runs-Failed :
    {c : Config} {err : Error} {n : ℕ} {s t : State}
    → Failed err n s
    → Runs (Step c) s t
    → Failed err n t
Runs-Failed v here = v
Runs-Failed v (later r st) = Step-Failed st (Runs-Failed v r)

Failed-at :
    {c : Config} (e : Error) (s : State)
    → Inv c s
    → s.leader ≡ joining (some e)
    → Failed e s.waiting s
Failed-at e s i at = ground arith

-- A caller that waits for a handshake that fails is not released when the connection breaks and the
-- leader returns its error, nor later: in each state that any steps lead to from there, at least as many
-- callers wait and none has passed.
pub failed_handshake_strands :
    (c : Config) (e : Error) (s t : State)
    → Runs (Step c) start s
    → s.leader ≡ joining (some e)
    → Runs (Step c) s t
    → (s.waiting ≤ t.waiting) × (t.passed ≡ 0)
failed_handshake_strands c e s t r at more =
    let (i, v) = reached r in
    let failed = Runs-Failed (Failed-at e s i at) more in (failed.waiters, failed.none_passed)
