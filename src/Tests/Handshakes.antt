-- ===== src/Tests/Handshakes.antt =====
-- Runs of the handshake of a client.
use fatun.Base.{
  ◌+◌, ℕ, ◌≤◌, ◌<◌, ◌≡◌, ◌⊎◌, refl, true, false, none, some, List, [], ◌∷◌, ok, err, os_error,
  arith, length,
}
use fatun.Base.Runs.{Runs, here, later}
use fatun.Conn.Channel.{client}
use fatun.Conn.Handshake.{
  Config, Answers, Secured, State, working, announcing, joining, start, check, exchange_key, secure,
  Progress, lead, follow, wake, succeed, announce, fail, read, give_packet, Step, progress,
  returned, leads, has_error, break, join,
}
use fatun.Conn.Handshake.Passing.{IsSecured, passed-IsSecured}
use fatun.Conn.Handshake.Releasing.{succeeded_releases, failed_handshake_strands}
use fatun.Conn.Handshake.Silent.{succeeded_handshake_waits}
use fatun.Conn.Handshake.Failing.{failed_handshake_hangs}

abbrev over_tls : Config
over_tls = record { role = client; tls = true }

abbrev key : List ℕ
key = 1 ∷ 2 ∷ 3 ∷ 4 ∷ 5 ∷ 6 ∷ 7 ∷ 8 ∷ 9 ∷ 10 ∷ 11 ∷ 12 ∷ 13 ∷ 14 ∷ 15 ∷ 16 ∷ []

-- Everything works, and the server sends its key.
abbrev answers : Answers
answers = record {
  dial = none;
  tls_handshake = none;
  rand_count = 16;
  rand_error = none;
  rand_key = key;
  write = none;
  read_full = ok key;
  new_crypto = none;
}

abbrev secured : Secured
secured = record { over_tls = true; key = some key }

works : secure over_tls answers ≡ ok secured
unfolding secure check exchange_key
works = refl

abbrev led : State
led = record start { handshaked = true; leader = working; serving = true }

abbrev followed : State
followed = record led { waiting = 1 }

abbrev ready : State
ready = record followed { reading = true }

abbrev announced : State
announced = record ready { secured = some secured; leader = announcing }

abbrev succeeded : State
succeeded = record announced { notified = true; leader = joining none }

-- The service goes into its read, and the leader succeeds.
succeeding : Runs (Step over_tls) start succeeded
unfolding start
succeeding =
    later
      (later
        (later (later (later here (progress (lead refl refl))) (progress (follow refl refl)))
          (progress (read refl refl refl refl)))
        (progress (succeed answers secured refl works refl)))
      (progress (announce refl refl))

abbrev woken : State
woken = record succeeded { waiting = 0; passed = 1 }

leading : Runs (Progress over_tls) start led
unfolding start
leading = later here (lead refl refl)

following : Runs (Progress over_tls) start followed
unfolding start
following = later leading (follow refl refl)

passing : Runs (Step over_tls) start woken
unfolding start
passing = later succeeding (progress (wake refl (omega arith) refl))

passed-IsSecured_example :
    ((woken.passed ≡ 0) ⊎ IsSecured over_tls woken.secured) × (length woken.queue ≤ 8)
unfolding start
passed-IsSecured_example = passed-IsSecured over_tls woken passing

-- The dial fails.
abbrev unreachable : Answers
unreachable = record answers { dial = some (os_error 111) }

fails : secure over_tls unreachable ≡ err (os_error 111)
unfolding secure check
fails = refl

abbrev failed : State
failed = record ready { leader = joining (some (os_error 111)) }

failing : Runs (Progress over_tls) start failed
unfolding start
failing =
    later (later following (read refl refl refl refl))
      (fail unreachable (os_error 111) refl fails refl)

abbrev received : State
received = record failed { reading = false; datagrams = 1; inbox = (1 ∷ []) ∷ [] }

receiving : Runs (Progress over_tls) failed received
unfolding start
receiving = later here (give_packet (1 ∷ []) refl refl refl)

failed_handshake_hangs_example :
    (received.leader ≡ joining (some (os_error 111)))
    × (received.passed ≡ 0)
    × (failed.waiting ≤ received.waiting)
unfolding start
failed_handshake_hangs_example =
    failed_handshake_hangs over_tls (os_error 111) failed received failing refl receiving

waking : Runs (Progress over_tls) succeeded woken
unfolding start
waking = later here (wake refl (omega arith) refl)

succeeded_handshake_waits_example :
    (succeeded.datagrams < woken.datagrams)
    ⊎ ((woken.leader ≡ joining none) × (woken.service_ended ≡ false))
unfolding start
succeeded_handshake_waits_example =
    succeeded_handshake_waits over_tls succeeded woken succeeding refl refl waking

succeeded_releases_example :
    (t : State) × Runs (Progress over_tls) succeeded t
    × (t.leader ≡ returned none)
    × (t.waiting ≡ 0)
    × (succeeded.passed + succeeded.waiting ≤ t.passed)
    × (t.datagrams ≤ succeeded.datagrams + 1)
succeeded_releases_example = succeeded_releases over_tls succeeded succeeding refl

-- The connection breaks, and the leader returns its error.
abbrev broken : State
broken = record failed { serving = false; reading = false; service_ended = true; closed = true }

abbrev left : State
left = record broken { leader = returned (some (os_error 111)); passed = 0 }

failing_step : Runs (Step over_tls) start failed
unfolding start
failing_step =
    later
      (later (later (later here (progress (lead refl refl))) (progress (follow refl refl)))
        (progress (read refl refl refl refl)))
      (progress (fail unreachable (os_error 111) refl fails refl))

breaking : Runs (Step over_tls) failed left
unfolding start leads has_error
breaking =
    later (later here (break refl refl refl)) (progress (join (some (os_error 111)) refl refl refl))

failed_handshake_strands_example : (failed.waiting ≤ left.waiting) × (left.passed ≡ 0)
unfolding start
failed_handshake_strands_example =
    failed_handshake_strands over_tls (os_error 111) failed left failing_step refl breaking
