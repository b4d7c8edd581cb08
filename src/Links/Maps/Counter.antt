-- ===== src/Links/Maps/Counter.antt =====
-- links/maps/maps.go, type port: the word of a link's port and its count of uses.
use native.Mathlib.Numerals.{add-one}
use fatun.Base.{ℕ, zero, suc, ◌+◌, ◌-◌, ◌*◌, ◌%◌, ◌^◌, ◌<◌, ◌≡◌, ◌∙◌, ap, arith, ◌=ᵇ◌}
use fatun.Links.Maps.{new_port, idle, port}

-- A port that was used `n` times since it was last found idle or made.
abbrev pub used_word : ℕ → ℕ → ℕ
used_word p n = p * 2 ^ 48 + n

pub port_lem :
    (p n : ℕ)
    → p < 2 ^ 16
    → n + 1 < 2 ^ 48
    → ((port (used_word p n)).0 ≡ p) × ((port (used_word p n)).1 ≡ used_word p (n + 1))
unfolding port
port_lem p n hp hn = omega arith

-- The word after `n` calls of `Port`.
pub after_calls : ℕ → ℕ → ℕ
after_calls zero d = d
after_calls (suc n) d = (port (after_calls n d)).1

after_calls-used_word :
    (n p : ℕ) → p < 2 ^ 16 → n < 2 ^ 48 → after_calls n (new_port p) ≡ used_word p n
unfolding after_calls new_port
after_calls-used_word zero p hp hn = omega arith
after_calls-used_word (suc n) p hp hn =
    ap (λ w. (port w).1) (after_calls-used_word n p hp (omega arith))
    ∙ (port_lem p n hp (omega arith)).1
    ∙ ap (used_word p) (add-one n)

idle_test : (p n : ℕ) → n < 2 ^ 48 → (((p * 2 ^ 48 + n) % 2 ^ 48) =ᵇ 0) ≡ (n =ᵇ 0)
idle_test p n h = ground arith

-- A new word of a port below 2^16 gives its port at each of the first 2^48 - 1 calls of `Port`, and
-- is idle exactly if none was made; `Idle` clears the count.
pub port-after_calls :
    (p n : ℕ)
    → p < 2 ^ 16
    → n + 1 < 2 ^ 48
    → ((port (after_calls n (new_port p))).0 ≡ p)
      × ((idle (after_calls n (new_port p))).0 ≡ (n =ᵇ 0))
      × ((idle (after_calls n (new_port p))).1 ≡ new_port p)
unfolding idle new_port
port-after_calls p n hp hn =
    let w = after_calls-used_word n p hp (omega arith) in
    (
      unfold new_port in rw w ((port_lem p n hp hn).0),
      rw w (idle_test p n (omega arith)),
      rw w (omega arith),
    )

-- The count is carried into the port by the 2^48-th call that no `Idle` precedes.
pub port-overflow :
    (p : ℕ) → p + 1 < 2 ^ 16 → (port (after_calls (2 ^ 48 - 1) (new_port p))).0 ≡ p + 1
unfolding port
port-overflow p hp =
    rw (after_calls-used_word (2 ^ 48 - 1) p (omega arith) (omega arith)) (omega arith)
