-- ===== src/Ustack/Closing.antt =====
-- ustack/link/list.go, SynClose: waiting for the buffered packets to be taken.
use fatun.Base.{
  ℕ, zero, suc, ◌+◌, ◌<◌, ◌≤◌, ◌≡◌, sym, ap, subst, ◌∙◌, Bool, ◌||◌, Option, none, some, arith, ltb,
  if◌then◌else◌,
}

-- What the loop sees: the size of the list and the time at its `i`-th test, which other threads
-- and the clock decide.
pub record Polls : Type 0 where
  pub size : ℕ → ℕ
  pub now : ℕ → ℕ

-- `for l.list.Size() > 0 || time.Now().Before(dead)`: the index of the test that ends it, or `none`
-- if the fuel runs out first.
unfoldable pub wait_drained : ℕ → Polls → ℕ → ℕ → Option ℕ
wait_drained zero polls dead i = none
wait_drained (suc fuel) polls dead i =
    let later = wait_drained fuel polls dead (i + 1) in
    if ltb 0 (polls.size i) || ltb (polls.now i) dead then later else some i

-- The error of `SynClose` behind the loop, which reads the size once more: `some true` for the
-- timeout error.
pub syn_close : ℕ → Polls → ℕ → Option Bool
syn_close fuel polls dead = elim (wait_drained fuel polls dead 0) [
  | none ↦ none
  | some i ↦ some (ltb 0 (polls.size (i + 1)))
]

-- The loop ends only when the list is empty and the timeout has passed as well.
pub wait_drained_end :
    (fuel : ℕ) (polls : Polls) (dead i k : ℕ)
    → wait_drained fuel polls dead i ≡ some k
    → (polls.size k ≡ 0) × (dead ≤ polls.now k)
unfolding wait_drained
wait_drained_end zero polls dead i k h = absurd (ground arith)
wait_drained_end (suc fuel) polls dead i k h =
    ground (arith, wait_drained_end fuel polls dead (i + 1) k)

-- With fuel for one more test than come before an empty list behind the timeout, the loop returns.
pub wait_drained_returns :
    (fuel : ℕ) (polls : Polls) (dead i k : ℕ)
    → k < fuel
    → polls.size (i + k) ≡ 0
    → dead ≤ polls.now (i + k)
    → ¬ wait_drained fuel polls dead i ≡ none
unfolding wait_drained
wait_drained_returns zero polls dead i k enough empty over e = absurd (omega arith)
wait_drained_returns (suc fuel) polls dead i zero enough empty over e =
    let same : i + 0 ≡ i = omega arith in
    ground (arith, same, empty, over, e, ap polls.size same, ap polls.now same)
wait_drained_returns (suc fuel) polls dead i (suc k) enough empty over e =
    let same : i + suc k ≡ i + 1 + k = omega arith in
    let later =
      wait_drained_returns fuel polls dead (i + 1) k (omega arith)
        (sym (ap polls.size same) ∙ empty) (subst (λ j. dead ≤ polls.now j) same over) in
    ground (arith, later, e)
