-- ===== src/Conn/Udp/Queue.antt =====
-- conn/udp/conn.go: the queue of a connection.
use fatun.Base.{
  ℕ, suc, ◌<◌, ◌≤◌, ◌≡◌, refl, inl, inr, some, List, [], ◌∷◌, ◌++◌, if◌then◌else◌, ltb, length,
  take, drop, length-append, arith, Bool-cases,
}
use fatun.Conn.Udp.{AcceptConn, put_loop, put, new_accept_conn}

-- A connection whose queue is within its capacity.
pub Fits : AcceptConn → Type 0
Fits c = length c.buff ≤ 128

pub new_accept_conn-Fits : Fits new_accept_conn
unfolding Fits new_accept_conn
new_accept_conn-Fits = omega arith

-- The queue behind a `put`, and what goes back to the pool.
abbrev pub newest : List (List ℕ) → List ℕ → List (List ℕ)
newest buff s = (if ltb (length buff) 128 then buff else drop 1 buff) ++ s ∷ []

abbrev pub dropped : List (List ℕ) → List (List ℕ)
dropped buff = if ltb (length buff) 128 then [] else take 1 buff

put_loop_room :
    (fuel : ℕ) (s : List ℕ) (buff back : List (List ℕ))
    → length buff < 128
    → put_loop (suc fuel) s buff back ≡ some (buff ++ s ∷ [], back)
unfolding put_loop
put_loop_room fuel s [] back room = refl
put_loop_room fuel s (x ∷ buff) back room = ground arith

newest_fits : (buff : List (List ℕ)) (s : List ℕ) → length buff ≤ 128 → length (newest buff s) ≤ 128
newest_fits [] s fits = ground arith
newest_fits (x ∷ buff) s fits =
    ground (arith, length-append (x ∷ buff) (s ∷ []), length-append buff (s ∷ []))

put_loop_lem :
    (fuel : ℕ) (s : List ℕ) (buff : List (List ℕ))
    → length buff ≤ 128
    → put_loop (suc (suc fuel)) s buff [] ≡ some (newest buff s, dropped buff)
unfolding put_loop
put_loop_lem fuel s [] fits = ground arith
put_loop_lem fuel s (x ∷ buff) fits =
    ground (arith, put_loop_room fuel s buff (x ∷ []) (omega arith))

-- `put` on a queue within its capacity ends within two rounds, and the queue stays within its
-- capacity. An open connection then holds its queue with the segment at the end, without the oldest
-- segment when the queue was full, which is what goes back to the pool; a closed one is left as it
-- is.
pub put-newest :
    (fuel : ℕ) (s : List ℕ) (c : AcceptConn)
    → Fits c
    → (c' : AcceptConn) × (back : List (List ℕ)) × (put (suc (suc fuel)) s c ≡ some (c', back))
      × Fits c'
      × (c'.closing ≡ c.closing)
      × (c'.buff ≡ (if c.closing then c.buff else newest c.buff s))
      × (back ≡ (if c.closing then [] else dropped c.buff))
unfolding put Fits
put-newest fuel s c fits = elim (Bool-cases c.closing) [
  | inl shut ↦ (c, [], ground (arith, shut), fits, refl, ground (arith, shut), ground (arith, shut))
  | inr open_now ↦ (
    record c { buff = newest c.buff s },
    dropped c.buff,
    ground (arith, open_now, put_loop_lem fuel s c.buff fits),
    newest_fits c.buff s fits,
    refl,
    ground (arith, open_now),
    ground (arith, open_now),
  )
]
