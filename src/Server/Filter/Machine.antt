-- ===== src/Server/Filter/Machine.antt =====
-- The machine that runs a BPF program is the kernel's: a parameter, with what the documentation of
-- golang.org/x/net/bpf says of each instruction.
use fatun.Base.{ℕ, ◌+◌, ◌*◌, ◌%◌, ◌<◌, ◌≤◌, ◌≡◌, List, ◌∷◌, if◌then◌else◌, ◌=ᵇ◌, length, drop}
use fatun.Server.Filter.{
  Instruction, load_absolute, load_mem_shift, load_indirect, jump_not_equal, ret_constant,
}

-- `exec program a x packet` is the verdict of a program with the registers A and X, and
-- `load packet off size` the number in a part of the packet.
pub record Machine : Type 0 where
  pub exec : List Instruction → ℕ → ℕ → List ℕ → ℕ
  pub load : List ℕ → ℕ → ℕ → ℕ
  pub exec-load_absolute :
      (o s : ℕ) (is : List Instruction) (a x : ℕ) (p : List ℕ)
      → o + s ≤ length p
      → exec (load_absolute o s ∷ is) a x p ≡ exec is (load p o s) x p
  pub exec-load_mem_shift :
      (o : ℕ) (is : List Instruction) (a x : ℕ) (p : List ℕ)
      → o < length p
      → exec (load_mem_shift o ∷ is) a x p ≡ exec is a (4 * (load p o 1 % 16)) p
  pub exec-load_indirect :
      (o s : ℕ) (is : List Instruction) (a x : ℕ) (p : List ℕ)
      → x + o + s ≤ length p
      → exec (load_indirect o s ∷ is) a x p ≡ exec is (load p (x + o) s) x p
  pub exec-jump_not_equal :
      (v t : ℕ) (is : List Instruction) (a x : ℕ) (p : List ℕ)
      → exec (jump_not_equal v t ∷ is) a x p
        ≡ (if a =ᵇ v then exec is a x p else exec (drop t is) a x p)
  pub exec-ret_constant :
      (v : ℕ) (is : List Instruction) (a x : ℕ) (p : List ℕ) → exec (ret_constant v ∷ is) a x p ≡ v
