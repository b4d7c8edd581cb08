-- ===== src/Client/Capture/Order.antt =====
-- client_windows.go, Capture: which packets go on, and which one is captured.
use fatun.Base.{
  ℕ, ◌≡◌, ◌≢◌, ◌⊎◌, true, false, refl, sym, ◌∙◌, subst, ap, inl, inr, Bool, none, some, List, [],
  ◌∷◌, ◌++◌, returns, All, arith, Option-cases, Run-cases,
}
use fatun.Net.{Addr, tcp_number}
use fatun.Packet.{HeaderLib}
use fatun.Session.{Session, from_ip}
use fatun.Client.Mss.{TcpLib}
use fatun.Client.Capture.{
  lower_mss, give, named, not_yet, Read, read, read_failed, Answers, Capture, captured, pass, keep,
  broken, judge, finish, capture,
}

-- The packets that are read, without the empty ones.
pub packets : List Read → List (List ℕ)
packets [] = []
packets (read_failed e ∷ rs) = packets rs
packets (read [] ∷ rs) = packets rs
packets (read (b ∷ bs) ∷ rs) = (b ∷ bs) ∷ packets rs

module _ (h : HeaderLib) (tcp : TcpLib) (is_multicast : Addr → Bool) (answers : Answers) where
  -- The packet is for multicast, or of a process that is unknown yet or not the captured one.
  abbrev pub IsForeign : Capture → List ℕ → Type 0
  IsForeign c ip =
      (s : Session) × (n : ℕ) × (from_ip h ip ≡ returns (s, n, none))
      × ((is_multicast s.dst.addr ≡ true)
          ⊎ ((answers.name s.src s.proto ≡ not_yet)
              ⊎ ((p : ℕ) × (answers.name s.src s.proto ≡ named p) × (c.process ≢ some p))))

  -- The packet is of the captured process, and not for multicast.
  abbrev pub IsOwn : Capture → List ℕ → Type 0
  IsOwn c ip =
      (s : Session) × (n : ℕ) × (from_ip h ip ≡ returns (s, n, none))
      × (is_multicast s.dst.addr ≡ false)
      × ((p : ℕ) × (answers.name s.src s.proto ≡ named p) × (c.process ≡ some p))

  -- A TCP packet with its MSS option lowered, and any other packet as it is.
  abbrev pub IsMade : ℕ → Capture → List ℕ → List ℕ → Type 0
  IsMade fuel c ip out =
      (s : Session) × (n : ℕ) × (from_ip h ip ≡ returns (s, n, none))
      × ((s.proto ≡ tcp_number)
          → lower_mss h tcp is_multicast answers fuel c ip ≡ some (returns out))
      × ((s.proto ≢ tcp_number) → out ≡ ip)

  judge-pass :
      (c : Capture) (ip : List ℕ) (s : Session) (n : ℕ)
      → from_ip h ip ≡ returns (s, n, none)
      → judge h tcp is_multicast answers c s ≡ returns pass
      → IsForeign c ip
  unfolding judge
  judge-pass c ip s n good judged = (s, n, good, ground (arith, judged))

  judge-keep :
      (c : Capture) (ip : List ℕ) (s : Session) (n : ℕ)
      → from_ip h ip ≡ returns (s, n, none)
      → judge h tcp is_multicast answers c s ≡ returns keep
      → IsOwn c ip
  unfolding judge
  judge-keep c ip s n good judged = (s, n, good, ground (arith, judged), ground (arith, judged))

  finish-captured :
      (fuel : ℕ) (c : Capture) (ip out : List ℕ) (s : Session) (n : ℕ)
      → from_ip h ip ≡ returns (s, n, none)
      → finish h tcp is_multicast answers fuel c s.proto ip ≡ captured out
      → IsMade fuel c ip out
  unfolding finish give
  finish-captured fuel c ip out s n good ran =
      (s, n, good, λ is. ground (arith, is, ran), λ other. ground (arith, other, ran))

  -- When Capture gives a packet, what it read is some reads, a packet and what is left; it has sent on
  -- all packets of those reads, unchanged and in their order, each of which is for multicast or of
  -- another or an unknown process; the one behind them is of the captured process and not for
  -- multicast, and the packet that it gives is that one, with its MSS option lowered if it is TCP.
  pub capture-packets :
      (fuel : ℕ) (c : Capture) (reads : List Read) (sent : List (List ℕ)) (out : List ℕ)
      → capture h tcp is_multicast answers fuel c reads ≡ (sent, captured out)
      → (before : List Read) × (ip : List ℕ) × (after : List Read) × (reads
          ≡ before ++ read ip ∷ after)
        × (sent ≡ packets before)
        × All (IsForeign c) sent
        × IsOwn c ip
        × IsMade fuel c ip out
  unfolding capture packets
  capture-packets fuel c [] sent out ran = absurd (ground (arith, ran))
  capture-packets fuel c (read_failed e ∷ rs) sent out ran = absurd (ground (arith, ran))
  capture-packets fuel c (read [] ∷ rs) sent out ran =
      let (before, ip, after, split, all, passes, is, ends) =
        capture-packets fuel c rs sent out ran in
      (read [] ∷ before, ip, after, ap (λ xs. read [] ∷ xs) split, all, passes, is, ends)
  capture-packets fuel c (read (b ∷ bs) ∷ rs) sent out ran = elim (Run-cases (from_ip h (b ∷ bs))) [
    | inl crashed ↦ absurd (ground (arith, crashed, ran))
    | inr ((s, n, some e), bad) ↦ absurd (ground (arith, bad, ran))
    | inr ((s, n, none), good) ↦ elim (Run-cases (judge h tcp is_multicast answers c s)) [
      | inl panicking ↦ absurd (ground (arith, good, panicking, ran))
      | inr (broken e, judged) ↦ absurd (ground (arith, good, judged, ran))
      | inr (keep, judged) ↦ (
        [],
        b ∷ bs,
        rs,
        refl,
        ground (arith, good, judged, ran),
        ground (arith, good, judged, ran),
        judge-keep c (b ∷ bs) s n good judged,
        finish-captured fuel c (b ∷ bs) out s n good (ground (arith, good, judged, ran)),
      )
      | inr (pass, judged) ↦ elim (Option-cases (answers.send (b ∷ bs))) [
        | inr (e, unsent) ↦ absurd (ground (arith, good, judged, unsent, ran))
        | inl went ↦
            let further =
              capture-packets fuel c rs (capture h tcp is_multicast answers fuel c rs).0 out
                (ground (arith, good, judged, went, ran)) in
            let eq : (b ∷ bs) ∷ (capture h tcp is_multicast answers fuel c rs).0 ≡ sent =
              ground (arith, good, judged, went, ran) in
            let (before, ip, after, split, all, passes, is, ends) = further in
            (
              read (b ∷ bs) ∷ before,
              ip,
              after,
              ap (λ xs. read (b ∷ bs) ∷ xs) split,
              sym eq ∙ ap (λ xs. (b ∷ bs) ∷ xs) all,
              subst (All (IsForeign c)) eq (judge-pass c (b ∷ bs) s n good judged, passes),
              is,
              ends,
            )
      ]
    ]
  ]
