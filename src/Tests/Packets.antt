-- ===== src/Tests/Packets.antt =====
-- The packet handling at concrete inputs.
use fatun.Base.{
  ℕ, zero, suc, ◌+◌, ◌-◌, ◌*◌, ◌%◌, ◌<◌, ◌≤◌, ◌≡◌, refl, ap, subst, ◌∙◌, ◌&&◌, leb, Bool, true,
  false, ◌||◌, not, none, some, List, [], ◌∷◌, ◌++◌, arith, length, replicate, get_elem?,
  if◌then◌else◌, ◌=ᵇ◌, returns,
}
use fatun.Net.{v4, addr_port_has_eq}
use fatun.Session.{from_ip}
use fatun.Session.Accepts.{accepted, truncated, Outcome, from_ip-accepted}
use fatun.Checksum.{complement, client_sum, server_sum}
use fatun.Checksum.Agreement.{server_sum-client_sum, down_to}
use fatun.Client.Mss.{plus, updated, update_tcp_mss_option, is_zero}
use fatun.Client.Mss.Scan.{HasLengths, Rewritten}
use fatun.Client.Mss.Update.{
  update_tcp_mss_option_ends, update_tcp_mss_option_stuck, update_tcp_mss_option_rewrites,
}
use fatun.Server.Filter.{bpf_filter, skip_ins, compact, sort, sort_insert, port_checks}
use fatun.Server.Filter.Verdict.{elem, dst_port, protocol, bpf_filter_verdict}
use fatun.Client.Service.{resum}
use fatun.Conn.Peer.{Peer, is_valid}
use fatun.Tests.Ports.{web}
use fatun.Tests.Wire.{header_views, wire, udp_views, tcp_options, vm}
use fatun.Tests.Sums.{udp_laws}

-- An IPv4 packet with a UDP datagram to port 53.
abbrev datagram : List ℕ
datagram =
    69 ∷ 0 ∷ 0 ∷ 28 ∷ 0 ∷ 0 ∷ 0 ∷ 0 ∷ 64 ∷ 17 ∷ 0 ∷ 0 ∷ 10 ∷ 0 ∷ 0 ∷ 2 ∷ 8 ∷ 8 ∷ 8 ∷ 8 ∷ 15 ∷ 160
    ∷ 0 ∷ 53 ∷ 0 ∷ 8 ∷ 0 ∷ 0 ∷ []

abbrev segment : List ℕ
segment = 15 ∷ 160 ∷ 0 ∷ 53 ∷ 0 ∷ 8 ∷ 0 ∷ 0 ∷ []

from_ip-accepted_example :
    Outcome header_views
      (truncated header_views datagram)
      (accepted header_views datagram)
      (from_ip header_views datagram)
from_ip-accepted_example = from_ip-accepted header_views datagram

abbrev sent : List ℕ
sent =
    server_sum wire udp_views (down_to wire udp_views udp_laws web 17 7 5000)
      (client_sum wire udp_views 17 9 segment)

server_sum-client_sum_example :
    complement (udp_views.transport_checksum sent) % 65535
    ≡ wire.checksum
        (udp_views.set_transport_checksum 0 sent)
        (wire.pseudo_header_checksum 17 7 9 (length segment % 65536))
      % 65535
server_sum-client_sum_example =
    server_sum-client_sum wire udp_views udp_laws web 17 9 7 5000 segment (omega arith)
      (omega arith)

few_none : length (skip_ins (compact (sort []))) < 256
unfolding skip_ins compact sort port_checks
few_none = omega arith

few_dns : length (skip_ins (compact (sort (53 ∷ [])))) < 256
unfolding skip_ins compact sort sort_insert port_checks
few_dns = omega arith

bpf_filter_verdict_example : vm.exec (bpf_filter [] (53 ∷ [])) 0 0 datagram ≡ (
    if protocol vm datagram =ᵇ 6
    then (if elem (dst_port vm datagram) [] then 0 else 0xffff)
    else (if protocol vm datagram =ᵇ 17
        then (if elem (dst_port vm datagram) (53 ∷ []) then 0 else 0xffff)
        else 0))
bpf_filter_verdict_example =
    bpf_filter_verdict vm [] (53 ∷ []) 0 0 datagram (omega arith) (omega arith) few_none few_dns

-- A TCP header of 28 bytes with the given bytes as its options.
abbrev with_options : List ℕ → List ℕ
with_options os = replicate 12 0 ++ 112 ∷ (replicate 7 0 ++ os)

abbrev nops : List ℕ
nops = with_options (1 ∷ 1 ∷ 1 ∷ 1 ∷ 2 ∷ 4 ∷ 5 ∷ 180 ∷ [])

abbrev stuck : List ℕ
stuck = with_options (8 ∷ 0 ∷ 0 ∷ 0 ∷ 0 ∷ 0 ∷ 0 ∷ 0 ∷ [])

moves_one : is_zero (plus 1) ≡ false
unfolding is_zero
moves_one = refl

moves_ten : is_zero (plus 10) ≡ false
unfolding is_zero
moves_ten = refl

raised : updated (plus 10) (5 * 256 + 180) ≡ some 1470
unfolding updated
raised = refl

nop_at : (i : ℕ) → i < 4 → get_elem? nops (20 + i) ≡ some 1
nop_at zero h = refl
nop_at (suc zero) h = refl
nop_at (suc (suc zero)) h = refl
nop_at (suc (suc (suc zero))) h = refl
nop_at (suc (suc (suc (suc i)))) h = absurd (omega arith)

nops_there : (j : ℕ) → 20 ≤ j → j < 24 → get_elem? nops j ≡ some 1
nops_there j low high =
    let same : 20 + (j - 20) ≡ j = omega arith in
    subst (λ k. get_elem? nops k ≡ some 1) same (nop_at (j - 20) (omega arith))

update_tcp_mss_option_stuck_example : update_tcp_mss_option tcp_options 1000 stuck (plus 1) ≡ none
update_tcp_mss_option_stuck_example =
    update_tcp_mss_option_stuck tcp_options 1000 stuck (plus 1) 8 refl (omega arith) refl
      (omega arith) moves_one

-- No byte above 2 stands before a 0.
abbrev lengths_ok : List ℕ → Bool
lengths_ok [] = true
lengths_ok (x ∷ []) = true
lengths_ok (x ∷ y ∷ r) = (leb x 2 || not (y =ᵇ 0)) && lengths_ok (y ∷ r)

the_next : (i : ℕ) → suc (i + 1) ≡ suc i + 1
the_next i = omega arith

lengths_ok-HasLengths : (xs : List ℕ) → lengths_ok xs ≡ true → HasLengths xs
unfolding HasLengths
lengths_ok-HasLengths [] h i kind p big q = ground (arith, p)
lengths_ok-HasLengths (x ∷ []) h zero kind p big q = ground (arith, q)
lengths_ok-HasLengths (x ∷ []) h (suc i) kind p big q = ground (arith, p)
lengths_ok-HasLengths (x ∷ y ∷ r) h zero kind p big q = ground (arith, h, p, big, q)
lengths_ok-HasLengths (x ∷ y ∷ r) h (suc i) kind p big q =
    lengths_ok-HasLengths (y ∷ r) (ground (arith, h)) i kind p big
      (ap (get_elem? (x ∷ y ∷ r)) (the_next i) ∙ q)

-- A timestamp option of 10 bytes and two NOPs, with no 0 behind a byte above 2.
abbrev plain : List ℕ
plain =
    replicate 12 0
    ++ 128 ∷ 2 ∷ (replicate 6 0 ++ 8 ∷ 10 ∷ 1 ∷ 1 ∷ 1 ∷ 1 ∷ 1 ∷ 1 ∷ 1 ∷ 1 ∷ 1 ∷ 1 ∷ [])

update_tcp_mss_option_ends_example : ¬ update_tcp_mss_option tcp_options 13 plain (plus 1) ≡ none
update_tcp_mss_option_ends_example =
    update_tcp_mss_option_ends tcp_options 13 plain (plus 1) (lengths_ok-HasLengths plain refl)
      (omega arith) (omega arith)

update_tcp_mss_option_rewrites_example :
    (out : List ℕ) × (update_tcp_mss_option tcp_options 10 nops (plus 10)
      ≡ some (returns (none, out)))
    × Rewritten tcp_options nops out 24 (1470 % 65536)
update_tcp_mss_option_rewrites_example =
    update_tcp_mss_option_rewrites tcp_options 4 10 nops (plus 10) 5 180 1470 nops_there refl refl
      refl refl (omega arith) (omega arith) (omega arith) moves_ten raised (omega arith)

abbrev peer : Peer
peer = record { proto = 6; dst = v4 16843009 }

peer-is_valid : is_valid (some peer) ≡ true
unfolding is_valid
peer-is_valid = refl

abbrev resummed : List ℕ
resummed = resum wire udp_views 1000 segment
