-- ===== src/Session/Accepts.antt =====
-- session.go: which packets have a session.
use fatun.Base.{
  ℕ, ◌+◌, ◌≡◌, ◌≢◌, refl, Run-cases, Bool-cases, Bool, true, false, not, ◌&&◌, ◌||◌, Option, none,
  some, List, Error, short_buff, bad_version, Run, returns, panics, arith, ltb, leb, ◌=ᵇ◌, length,
  if◌then◌else◌, ◌⊎◌, inl, inr,
}
use fatun.Net.{Addr, v4, v6, addr_is_valid, tcp_number, udp_number}
use fatun.Packet.{HeaderLib, reads_ip4, reads_ip6}
use fatun.Session.{
  Session, zero_session, session_is_valid, ip6_fixed_header_size, session_of, from_ip4, from_ip6,
  from_ip,
}

abbrev transported : ℕ → Bool
transported proto = (proto =ᵇ tcp_number) || (proto =ᵇ udp_number)

module _ (h : HeaderLib) where
  abbrev is_long4 : List ℕ → Bool
  is_long4 ip = leb (h.ip4_total_length ip) (length ip)

  abbrev is_long6 : List ℕ → Bool
  is_long6 ip = leb (h.ip6_payload_length ip + ip6_fixed_header_size) (length ip)

  abbrev accepted4 : List ℕ → Bool
  accepted4 ip = is_long4 ip && transported (h.ip4_protocol ip)

  abbrev accepted6 : List ℕ → Bool
  accepted6 ip = is_long6 ip && transported (h.ip6_next_protocol ip)

  -- A packet of IPv4 or IPv6 that is as long as its header says and carries TCP or UDP.
  abbrev pub accepted : List ℕ → Bool
  accepted ip =
      if h.ip_version ip =ᵇ 4
      then accepted4 ip
      else if h.ip_version ip =ᵇ 6
      then accepted6 ip
      else false

  abbrev truncated4 : List ℕ → Bool
  truncated4 ip =
      not (h.reads_ip4_total_length ip)
      || (is_long4 ip
          && (not (reads_ip4 h ip)
              || (transported (h.ip4_protocol ip) && not (h.reads_ports (h.ip4_payload ip)))))

  abbrev truncated6 : List ℕ → Bool
  truncated6 ip =
      not (h.reads_ip6_payload_length ip)
      || (is_long6 ip
          && (not (reads_ip6 h ip)
              || (transported (h.ip6_next_protocol ip) && not (h.reads_ports (h.ip6_payload ip)))))

  -- A packet of IPv4 or IPv6 that is too short for what `fromIP` reads of it: its length, and if it is as long
  -- as that says its addresses, its protocol and its payload, and if that is TCP or UDP the ports in it.
  abbrev pub truncated : List ℕ → Bool
  truncated ip =
      if h.ip_version ip =ᵇ 4
      then truncated4 ip
      else if h.ip_version ip =ᵇ 6
      then truncated6 ip
      else false

  -- What a packet that is accepted or not gives.
  abbrev pub Judged : Bool → Session → ℕ → Option Error → Type 0
  Judged true s n e = (e ≡ none) × (session_is_valid s ≡ true)
  Judged false s n e = (e ≢ none) × (s ≡ zero_session) × (n ≡ 0)

  -- A panic for a packet that is too short, and else a result.
  abbrev pub Outcome : Bool → Bool → Run (Session × ℕ × Option Error) → Type 0
  Outcome short good r =
      ((short ≡ true) × (r ≡ panics))
      ⊎ ((s : Session) × (n : ℕ) × (e : Option Error) × (short ≡ false)
          × (r ≡ returns (s, n, e))
          × Judged good s n e)

  session_of-Outcome :
      (src dst : Addr) (proto : ℕ) (hdr : List ℕ) (size : ℕ)
      → addr_is_valid src ≡ true
      → addr_is_valid dst ≡ true
      → Outcome
          (transported proto && not (h.reads_ports hdr))
          (transported proto)
          (session_of h src dst proto hdr size)
  unfolding session_of session_is_valid
  session_of-Outcome src dst proto hdr size vs vd =
      elim (Run-cases (session_of h src dst proto hdr size)) [
        | inl bad ↦ inl (ground (arith, bad), bad)
        | inr ((s, n, e), ran) ↦ inr (
          s,
          n,
          e,
          ground (arith, ran),
          ran,
          elim (Bool-cases (transported proto)) [
            | inl taken ↦ rw taken (ground (arith, taken, ran), ground (arith, taken, ran, vs, vd))
            | inr left ↦
                rw left
                  (ground (arith, left, ran), ground (arith, left, ran), ground (arith, left, ran))
          ],
        )
      ]

  from_ip4-Outcome : (ip : List ℕ) → Outcome (truncated4 ip) (accepted4 ip) (from_ip4 h ip)
  unfolding from_ip4
  from_ip4-Outcome ip = elim (Bool-cases (h.reads_ip4_total_length ip)) [
    | inr unread ↦ rw unread (inl (refl, refl))
    | inl read ↦ elim (Bool-cases (ltb (length ip) (h.ip4_total_length ip))) [
      | inl short ↦
          let cut : is_long4 ip ≡ false = ground (arith, short) in
          rw (read, short, cut)
            (inr (zero_session, 0, some short_buff, refl, refl, (λ e. cc, refl, refl)))
      | inr whole ↦
          let long : is_long4 ip ≡ true = ground (arith, whole) in
          elim (Bool-cases (reads_ip4 h ip)) [
            | inr unread ↦ rw (read, whole, long, unread) (inl (refl, refl))
            | inl fields ↦
                rw (read, whole, long, fields)
                  (session_of-Outcome (v4 (h.ip4_source ip)) (v4 (h.ip4_destination ip))
                    (h.ip4_protocol ip) (h.ip4_payload ip) (h.ip4_header_length ip) refl refl)
          ]
    ]
  ]

  from_ip6-Outcome : (ip : List ℕ) → Outcome (truncated6 ip) (accepted6 ip) (from_ip6 h ip)
  unfolding from_ip6
  from_ip6-Outcome ip = elim (Bool-cases (h.reads_ip6_payload_length ip)) [
    | inr unread ↦ rw unread (inl (refl, refl))
    | inl read ↦
        elim (Bool-cases (ltb (length ip) (h.ip6_payload_length ip + ip6_fixed_header_size))) [
          | inl short ↦
              let cut : is_long6 ip ≡ false = ground (arith, short) in
              rw (read, short, cut)
                (inr (zero_session, 0, some short_buff, refl, refl, (λ e. cc, refl, refl)))
          | inr whole ↦
              let long : is_long6 ip ≡ true = ground (arith, whole) in
              elim (Bool-cases (reads_ip6 h ip)) [
                | inr unread ↦ rw (read, whole, long, unread) (inl (refl, refl))
                | inl fields ↦
                    rw (read, whole, long, fields)
                      (session_of-Outcome (v6 (h.ip6_source ip)) (v6 (h.ip6_destination ip))
                        (h.ip6_next_protocol ip) (h.ip6_payload ip) ip6_fixed_header_size refl refl)
              ]
        ]
  ]

  -- `fromIP` panics exactly for the packets that are too short for what it reads of them, `truncated`.
  -- For any other it returns: without an error and with a valid session, if the packet is of IPv4
  -- or IPv6, as long as its header says, and carries TCP or UDP; else with an error, the zero session and a
  -- header length of 0.
  pub from_ip-accepted : (ip : List ℕ) → Outcome (truncated ip) (accepted ip) (from_ip h ip)
  unfolding from_ip
  from_ip-accepted ip = elim (Bool-cases (h.ip_version ip =ᵇ 4)) [
    | inl four ↦ rw four (from_ip4-Outcome ip)
    | inr not_four ↦ elim (Bool-cases (h.ip_version ip =ᵇ 6)) [
      | inl six ↦ rw (not_four, six) (from_ip6-Outcome ip)
      | inr neither ↦
          rw (not_four, neither)
            (inr (zero_session, 0, some bad_version, refl, refl, (λ e. cc, refl, refl)))
    ]
  ]
