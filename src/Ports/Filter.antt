-- ===== src/Ports/Filter.antt =====
-- ports/ports_linux.go and ports/ports_windows.go: the filter that keeps a socket that only holds a port
-- open from receiving. What the system and the assembler answer is an argument.
use fatun.Base.{
  ℕ, ◌≡◌, Bool, true, Option, none, some, List, [], ◌∷◌, Error, Run, panics, if◌then◌else◌, arith,
}
use fatun.Server.Filter.{Instruction, ret_constant}
use fatun.Server.Filter.Machine.{Machine}

-- The answers to one call: of SyscallConn, of Control, which runs the function it is given or does not, of
-- `bpf.Assemble` and of SetsockoptSockFprog.
pub record FilterAnswers : Type 0 where
  pub syscall_conn : Option Error
  pub control : Option Error
  pub control_runs : Bool
  pub assemble : Option Error
  pub setsockopt : Option Error

-- `bpf.RetConstant{Val: 0}`
abbrev pub refuse_all : List Instruction
refuse_all = ret_constant 0 ∷ []

-- The function that Control runs: what it leaves in `e`, and the program that it attached.
pub attach_filter : FilterAnswers → Option Error × Option (List Instruction)
attach_filter a = elim a.assemble [
  | some e ↦ (some e, none)
  | none ↦ elim a.setsockopt [ some e ↦ (some e, none) | none ↦ (none, some refuse_all) ]
]

-- `setFilterAll` on Linux: the error, and the program that is attached then.
pub set_filter_all : FilterAnswers → Option Error × Option (List Instruction)
set_filter_all a = elim a.syscall_conn [
  | some e ↦ (some e, none)
  | none ↦
      let (e, attached) = if a.control_runs then attach_filter a else (none, none) in
      elim a.control [ some bad ↦ (some bad, attached) | none ↦ (e, attached) ]
]

-- `setFilterAll` on Windows.
pub set_filter_all_windows : Run (Option Error)
set_filter_all_windows = panics

-- When `setFilterAll` on Linux returns no error, a program is attached that accepts no byte of any packet;
-- Control runs its function whenever it returns no error.
pub set_filter_all-refuses :
    (vm : Machine) (a : FilterAnswers)
    → (a.control ≡ none → a.control_runs ≡ true)
    → (set_filter_all a).0 ≡ none
    → (is : List Instruction) × ((set_filter_all a).1 ≡ some is)
      × ((acc x : ℕ) (packet : List ℕ) → vm.exec is acc x packet ≡ 0)
unfolding set_filter_all attach_filter
set_filter_all-refuses vm a runs done =
    (refuse_all, ground (arith, done, runs), λ acc x packet. vm.exec-ret_constant 0 [] acc x packet)
