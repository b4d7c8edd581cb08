-- ===== src/Server/Filter/Verdict.antt =====
-- server_linux.go: which packets the filter lets through.
use fatun.Base.{
  ℕ, ◌+◌, ◌*◌, ◌%◌, ◌<◌, ◌≤◌, ◌≡◌, refl, ap, ◌∙◌, Bool, false, ◌||◌, List, [], ◌∷◌, ◌++◌, arith,
  if◌then◌else◌, ◌=ᵇ◌, length, drop,
}
use mathlib.Core.List.{append_assoc}
use fatun.Server.Filter.{
  Instruction, jump_not_equal, ret_constant, sort_insert, sort, compact, port_checks, skip_ins,
  bpf_skip_ports, bpf_filter,
}
use fatun.Server.Filter.Machine.{Machine}

pub elem : ℕ → List ℕ → Bool
elem a [] = false
elem a (x ∷ xs) = (a =ᵇ x) || elem a xs

elem-sort_insert : (a x : ℕ) (ys : List ℕ) → elem a (sort_insert x ys) ≡ ((a =ᵇ x) || elem a ys)
unfolding elem sort_insert
elem-sort_insert a x [] = refl
elem-sort_insert a x (y ∷ ys) = ground (arith, elem-sort_insert a x ys)

elem-sort : (a : ℕ) (xs : List ℕ) → elem a (sort xs) ≡ elem a xs
unfolding elem sort
elem-sort a [] = refl
elem-sort a (x ∷ xs) = ground (arith, elem-sort_insert a x (sort xs), elem-sort a xs)

elem-compact : (a : ℕ) (xs : List ℕ) → elem a (compact xs) ≡ elem a xs
unfolding elem compact
elem-compact a [] = refl
elem-compact a (x ∷ []) = refl
elem-compact a (x ∷ y ∷ ys) = ground (arith, elem-compact a (y ∷ ys))

drop-append : (xs ys : List Instruction) → drop (length xs) (xs ++ ys) ≡ ys
drop-append [] ys = refl
drop-append (x ∷ xs) ys = drop-append xs ys

module _ (vm : Machine) where
  open vm use {
    exec, load, exec-load_absolute, exec-load_mem_shift, exec-load_indirect, exec-jump_not_equal,
    exec-ret_constant,
  }

  -- The number of bytes in the IPv4 header, the destination port behind it, and the protocol.
  abbrev pub header_length : List ℕ → ℕ
  header_length p = 4 * (load p 0 1 % 16)

  abbrev pub dst_port : List ℕ → ℕ
  dst_port p = load p (header_length p + 2) 2

  abbrev pub protocol : List ℕ → ℕ
  protocol p = load p 9 1

  exec-port_checks :
      (ports : List ℕ) (rest : List Instruction) (a x : ℕ) (p : List ℕ)
      → x + 2 + 2 ≤ length p
      → exec (port_checks ports ++ (ret_constant 0xffff ∷ rest)) a x p
        ≡ (if elem (load p (x + 2) 2) ports then 0 else 0xffff)
  unfolding port_checks elem
  exec-port_checks [] rest a x p h = exec-ret_constant 0xffff rest a x p
  exec-port_checks (e ∷ ports) rest a x p h =
      let later = port_checks ports ++ (ret_constant 0xffff ∷ rest) in
      let d = load p (x + 2) 2 in
      exec-load_indirect 2 2 (jump_not_equal e 1 ∷ (ret_constant 0 ∷ later)) a x p h
      ∙ (exec-jump_not_equal e 1 (ret_constant 0 ∷ later) d x p
          ∙ ground (arith, exec-ret_constant 0 later d x p, exec-port_checks ports rest d x p h))

  -- The instructions for the ports of one protocol, whatever follows them.
  exec-skip_ins :
      (ports : List ℕ) (rest : List Instruction) (a x : ℕ) (p : List ℕ)
      → 10 ≤ length p
      → header_length p + 2 + 2 ≤ length p
      → exec (skip_ins ports ++ rest) a x p ≡ (if elem (dst_port p) ports then 0 else 0xffff)
  unfolding skip_ins
  exec-skip_ins ports rest a x p long wide =
      exec-load_mem_shift 0 ((port_checks ports ++ (ret_constant 0xffff ∷ [])) ++ rest) a x p
        (omega arith)
      ∙ (ap (λ is. exec is a (header_length p) p)
            (append_assoc (port_checks ports) (ret_constant 0xffff ∷ []) rest)
          ∙ exec-port_checks ports rest a (header_length p) p wide)

  -- The verdict of one protocol's part, before what follows it.
  exec-bpf_skip_ports :
      (proto : ℕ) (ports : List ℕ) (rest : List Instruction) (a x : ℕ) (p : List ℕ)
      → 10 ≤ length p
      → header_length p + 2 + 2 ≤ length p
      → length (skip_ins (compact (sort ports))) < 256
      → exec (bpf_skip_ports proto ports ++ rest) a x p ≡ (
          if protocol p =ᵇ proto
          then (if elem (dst_port p) ports then 0 else 0xffff)
          else exec rest (protocol p) x p)
  unfolding bpf_skip_ports
  exec-bpf_skip_ports proto ports rest a x p long wide few =
      let clean = compact (sort ports) in
      let skip = skip_ins clean in
      let same : elem (dst_port p) clean ≡ elem (dst_port p) ports =
        elem-compact (dst_port p) (sort ports) ∙ elem-sort (dst_port p) ports in
      let jump : drop (length skip % 256) (skip ++ rest) ≡ rest =
        ap (λ k. drop k (skip ++ rest)) (omega arith) ∙ drop-append skip rest in
      exec-load_absolute 9 1 (jump_not_equal proto (length skip % 256) ∷ (skip ++ rest)) a x p
        (omega arith)
      ∙ (exec-jump_not_equal proto (length skip % 256) (skip ++ rest) (protocol p) x p
          ∙ ground (
            arith,
            ap (λ is. exec is (protocol p) x p) jump,
            exec-skip_ins clean rest (protocol p) x p long wide,
            same,
          ))

  -- The program of the filter, run on a packet of at least ten bytes that holds the first four
  -- bytes behind its IPv4 header, with fewer than 256 instructions for the ports of each protocol:
  -- a TCP packet is dropped (0) exactly when its destination port is one of the given TCP ports, a
  -- UDP packet exactly when it is one of the given UDP ports, and any other packet is dropped.
  pub bpf_filter_verdict :
      (tcp udp : List ℕ) (a x : ℕ) (p : List ℕ)
      → 10 ≤ length p
      → header_length p + 2 + 2 ≤ length p
      → length (skip_ins (compact (sort tcp))) < 256
      → length (skip_ins (compact (sort udp))) < 256
      → exec (bpf_filter tcp udp) a x p ≡ (
          if protocol p =ᵇ 6
          then (if elem (dst_port p) tcp then 0 else 0xffff)
          else (if protocol p =ᵇ 17 then (if elem (dst_port p) udp then 0 else 0xffff) else 0))
  unfolding bpf_filter
  bpf_filter_verdict tcp udp a x p long wide few_tcp few_udp =
      let last = ret_constant 0 ∷ [] in
      ground (
        arith,
        exec-bpf_skip_ports 6 tcp (bpf_skip_ports 17 udp ++ last) a x p long wide few_tcp,
        exec-bpf_skip_ports 17 udp last (protocol p) x p long wide few_udp,
        exec-ret_constant 0 [] (protocol p) x p,
      )
