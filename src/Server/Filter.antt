-- ===== src/Server/Filter.antt =====
-- server_linux.go: the BPF program of the server's raw socket.
pub mod Machine
pub mod Verdict
use fatun.Base.{ℕ, ◌+◌, ◌%◌, Bool, List, [], ◌∷◌, ◌++◌, if◌then◌else◌, leb, ◌=ᵇ◌, length}

-- The instructions of golang.org/x/net/bpf that the program uses, with their fields.
pub data Instruction : Type 0 where
  load_absolute load_indirect : ℕ → ℕ → Instruction
  load_mem_shift : ℕ → Instruction
  jump_not_equal : ℕ → ℕ → Instruction
  ret_constant : ℕ → Instruction

-- `slices.Sort` of the Go library.
unfoldable pub sort_insert : ℕ → List ℕ → List ℕ
sort_insert x [] = x ∷ []
sort_insert x (y ∷ ys) = let rest = sort_insert x ys in if leb x y then x ∷ y ∷ ys else y ∷ rest

unfoldable pub sort : List ℕ → List ℕ
sort [] = []
sort (x ∷ xs) = sort_insert x (sort xs)

-- `slices.Compact` of the Go library: one of each run of equal values.
unfoldable pub compact : List ℕ → List ℕ
compact [] = []
compact (x ∷ []) = x ∷ []
compact (x ∷ y ∷ ys) = let rest = compact (y ∷ ys) in if x =ᵇ y then rest else x ∷ rest

-- header.TCPDstPortOffset, IPv4ProtocolOffset
abbrev pub dst_port_offset : ℕ
dst_port_offset = 2

abbrev pub ip4_protocol_offset : ℕ
ip4_protocol_offset = 9

-- The instructions for the ports, one port after the other.
unfoldable pub port_checks : List ℕ → List Instruction
port_checks [] = []
port_checks (e ∷ ports) =
    load_indirect dst_port_offset 2 ∷ (jump_not_equal e 1 ∷ (ret_constant 0 ∷ port_checks ports))

-- `skipIns` of `bpfSkipPorts`
unfoldable pub skip_ins : List ℕ → List Instruction
skip_ins ports = load_mem_shift 0 ∷ (port_checks ports ++ ret_constant 0xffff ∷ [])

-- `bpfSkipPorts`; the length of a jump is a byte.
pub bpf_skip_ports : ℕ → List ℕ → List Instruction
bpf_skip_ports proto ports =
    let skip = skip_ins (compact (sort ports)) in
    load_absolute ip4_protocol_offset 1 ∷ (jump_not_equal proto (length skip % 256) ∷ skip)

-- `bpfFilterProtoAndSkipLocalTCPPorts`
pub bpf_filter : List ℕ → List ℕ → List Instruction
bpf_filter tcp_skip_ports udp_skip_ports =
    bpf_skip_ports 6 tcp_skip_ports ++ (bpf_skip_ports 17 udp_skip_ports ++ ret_constant 0 ∷ [])
