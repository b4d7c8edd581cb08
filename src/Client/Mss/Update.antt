-- ===== src/Client/Mss/Update.antt =====
-- client.go: `UpdateTcpMssOption` as a whole.
use fatun.Base.{
  ℕ, zero, suc, ◌+◌, ◌*◌, ◌%◌, ◌<◌, ◌≤◌, ◌≡◌, sym, ap, ◌∙◌, false, none, some, List, returns, leb,
  ◌=ᵇ◌, Bool-cases, inl, inr, length, get_elem?, arith,
}
use fatun.Client.Mss.{
  TcpLib, Delta, complement, part, updated, is_zero, index, put16, round, scan, mss_option,
  write_mss, update_tcp_mss_option,
}
use fatun.Client.Mss.Scan.{HasLengths, scan_ends, scan_stuck, Rewritten, write_mss_lem}

module _ (lib : TcpLib) where
  -- The call ends on every header in which the byte behind each byte above 2 is not zero, with any
  -- fuel that is above the number of option bytes.
  pub update_tcp_mss_option_ends :
      (fuel : ℕ) (hdr : List ℕ) (delta : Delta)
      → HasLengths hdr
      → lib.data_offset hdr < 20 + fuel
      → 0 < fuel
      → ¬ update_tcp_mss_option lib fuel hdr delta ≡ none
  unfolding update_tcp_mss_option
  update_tcp_mss_option_ends fuel hdr delta h enough pos e =
      let sum = complement (lib.tcp_checksum hdr) in
      ground (arith, e, scan_ends lib fuel hdr (lib.data_offset hdr) delta sum 20 h enough pos)

  -- With an option of an unknown kind at the start of the options whose length byte is zero and
  -- inside the header, and a delta that is not zero, the call does not end on any fuel.
  pub update_tcp_mss_option_stuck :
      (fuel : ℕ) (hdr : List ℕ) (delta : Delta) (kind : ℕ)
      → get_elem? hdr 20 ≡ some kind
      → 2 < kind
      → get_elem? hdr 21 ≡ some 0
      → 21 < lib.data_offset hdr
      → is_zero delta ≡ false
      → update_tcp_mss_option lib fuel hdr delta ≡ none
  unfolding update_tcp_mss_option
  update_tcp_mss_option_stuck fuel hdr delta kind p big q inside moves =
      let sum = complement (lib.tcp_checksum hdr) in
      ground (
        arith,
        scan_stuck lib fuel hdr (lib.data_offset hdr) delta sum 20 kind p big q inside,
        moves,
      )

  scan_nops :
      (k fuel : ℕ) (hdr : List ℕ) (n : ℕ) (delta : Delta) (old_sum i : ℕ)
      → ((j : ℕ) → i ≤ j → j < i + k → get_elem? hdr j ≡ some 1)
      → get_elem? hdr (i + k) ≡ some 2
      → i + k < n
      → k < fuel
      → scan lib fuel hdr n delta old_sum i ≡ some (mss_option lib hdr n delta old_sum (i + k))
  unfolding scan round
  scan_nops k zero hdr n delta old_sum i nops found inside enough = absurd (omega arith)
  scan_nops zero (suc fuel) hdr n delta old_sum i nops found inside enough =
      let same : i + 0 ≡ i = omega arith in
      ground (arith, found, ap (get_elem? hdr) same, ap (mss_option lib hdr n delta old_sum) same)
  scan_nops (suc k) (suc fuel) hdr n delta old_sum i nops found inside enough =
      let next : i + suc k ≡ i + 1 + k = omega arith in
      let rest =
        scan_nops k fuel hdr n delta old_sum (i + 1)
          (λ j low high. nops j (omega arith) (omega arith)) (ap (get_elem? hdr) (sym next) ∙ found)
          (omega arith) (omega arith) in
      ground (
        arith,
        nops i (omega arith) (omega arith),
        rest,
        next,
        ap (mss_option lib hdr n delta old_sum) next,
      )

  write_mss_returns :
      (hdr : List ℕ) (n old_sum i old new : ℕ)
      → n ≤ length hdr
      → (out : List ℕ) × (write_mss lib hdr n old_sum i old new ≡ returns (none, out))
  unfolding write_mss
  write_mss_returns hdr n old_sum i old new fits =
      let v = new % 65536 in
      let hdr' = put16 hdr (i + 2) v in
      let even_sum = lib.combine (lib.combine old_sum (complement old)) v in
      let before = lib.checksum (part hdr (i + 1) (i + 5)) 0 in
      let after = lib.checksum (part hdr' (i + 1) (i + 5)) 0 in
      let odd_sum = lib.combine (lib.combine old_sum (complement before)) after in
      elim (Bool-cases (((i + 2) % 2) =ᵇ 0)) [
        | inl even ↦ (lib.set_checksum (complement even_sum) hdr', ground (arith, even))
        | inr odd ↦ elim (Bool-cases (leb (i + 5) n)) [
          | inl wide ↦ (lib.set_checksum (complement odd_sum) hdr', ground (arith, odd, wide))
          | inr narrow ↦ (hdr, ground (arith, odd, narrow))
        ]
      ]

  mss_option_lem :
      (hdr : List ℕ) (n : ℕ) (delta : Delta) (old_sum i high low new : ℕ)
      → get_elem? hdr (i + 1) ≡ some 4
      → get_elem? hdr (i + 2) ≡ some high
      → get_elem? hdr (i + 3) ≡ some low
      → i + 4 ≤ n
      → updated delta (high * 256 + low) ≡ some new
      → mss_option lib hdr n delta old_sum i ≡ write_mss lib hdr n old_sum i (high * 256 + low) new
  unfolding mss_option index
  mss_option_lem hdr n delta old_sum i high low new len p q inside u = ground (arith, len, p, q, u)

  -- Let `k` NOP options stand at the start of the options and a whole MSS option behind them, in a
  -- header of whole words that the buffer holds. If the delta is not zero and the sum `new` of it
  -- and the old value is positive, then the call ends without an error, on any fuel above `k`; the
  -- option then holds `new` modulo 2^16, and no byte but those two and the checksum is changed.
  pub update_tcp_mss_option_rewrites :
      (k fuel : ℕ) (hdr : List ℕ) (delta : Delta) (high low new : ℕ)
      → ((j : ℕ) → 20 ≤ j → j < 20 + k → get_elem? hdr j ≡ some 1)
      → get_elem? hdr (20 + k) ≡ some 2
      → get_elem? hdr (20 + k + 1) ≡ some 4
      → get_elem? hdr (20 + k + 2) ≡ some high
      → get_elem? hdr (20 + k + 3) ≡ some low
      → 20 + k + 4 ≤ lib.data_offset hdr
      → lib.data_offset hdr ≤ length hdr
      → lib.data_offset hdr % 4 ≡ 0
      → is_zero delta ≡ false
      → updated delta (high * 256 + low) ≡ some new
      → k < fuel
      → (out : List ℕ) × (update_tcp_mss_option lib fuel hdr delta ≡ some (returns (none, out)))
        × Rewritten lib hdr out (20 + k) (new % 65536)
  unfolding update_tcp_mss_option
  update_tcp_mss_option_rewrites k fuel hdr delta high low new nops kind len p q inside fits quarter
        moves u enough =
      let n = lib.data_offset hdr in
      let sum = complement (lib.tcp_checksum hdr) in
      let (out, e) = write_mss_returns hdr n sum (20 + k) (high * 256 + low) new fits in
      let found = scan_nops k fuel hdr n delta sum 20 nops kind (omega arith) enough in
      let written = mss_option_lem hdr n delta sum (20 + k) high low new len p q inside u in
      (
        out,
        ground (arith, found, written, e, moves),
        write_mss_lem lib hdr out n sum (20 + k) (high * 256 + low) new high low quarter inside p q
            e,
      )
