-- ===== src/Conn/Handshake/Passing.antt =====
-- conn/conn.go: what holds when a caller passes the handshake.
use fatun.Base.{
  ℕ, ◌<◌, ◌≤◌, ◌≡◌, refl, Bool, true, false, Option, none, some, List, [], ◌∷◌, ok, length,
  length-append, arith, ◌⊎◌, inl, inr, sym, ◌∙◌,
}
use native.Mathlib.Decide.{dec_lt}
use fatun.Base.Runs.{Runs, here, later}
use fatun.Conn.Handshake.{
  Config, Answers, Secured, Leader, idle, working, announcing, joining, returned, State, start,
  secure, check, keep, leads, Progress, lead, follow, wake, succeed, announce, fail, read,
  keep_packet, give_packet, stop, join, Step, progress, break,
}

abbrev has_key : Secured → Bool
has_key x = elim x.key [ none ↦ false | some k ↦ true ]

-- What a leader that is where it is has done: `true` if it closed the channel.
abbrev pub notifies : Leader → Bool
notifies idle = false
notifies working = false
notifies announcing = false
notifies (joining none) = true
notifies (joining (some e)) = false
notifies (returned none) = true
notifies (returned (some e)) = false

-- The builtin connection and the cipher are set, with TLS exactly if it is configured.
abbrev pub IsSecured : Config → Option Secured → Type 0
IsSecured c none = ⊥
IsSecured c (some x) = (has_key x ≡ c.tls) × (x.over_tls ≡ c.tls)

-- Whether the leader has set them.
abbrev sets : Leader → Bool
sets announcing = true
sets l = notifies l

abbrev SecuredIf : Config → Bool → Option Secured → Type 0
SecuredIf c false out = out ≡ none
SecuredIf c true out = IsSecured c out

pub record Inv (c : Config) (s : State) : Type 0 where
  pub by_leader : s.notified ≡ notifies s.leader
  pub set_up : SecuredIf c (sets s.leader) s.secured
  pub after : (0 < s.passed) → s.notified ≡ true
  pub few : length s.queue ≤ 8
  pub first : s.handshaked ≡ false → s.leader ≡ idle

secure-IsSecured :
    (c : Config) (a : Answers) (x : Secured)
    → secure c a ≡ ok x
    → (has_key x ≡ c.tls) × (x.over_tls ≡ c.tls)
unfolding secure check
secure-IsSecured c a x e = ground arith

keep-few : (q : List (List ℕ)) (p : List ℕ) → length q ≤ 8 → length (keep q p) ≤ 8
unfolding keep
keep-few q p h = ground (arith, length-append q (p ∷ []))

pub Progress-Inv : {c : Config} {s t : State} → Progress c s t → Inv c s → Inv c t
unfolding leads
Progress-Inv (lead h e) v = ground arith
Progress-Inv (follow h e) v = ground arith
Progress-Inv (wake h w e) v = ground arith
Progress-Inv {c} (succeed a x h r e) v = ground (arith, secure-IsSecured c a x r)
Progress-Inv (announce h e) v = ground arith
Progress-Inv (read h r n e) v = ground arith
Progress-Inv (fail a x h r e) v = ground arith
Progress-Inv {s} (keep_packet p h r e) v = ground (arith, keep-few s.queue p)
Progress-Inv (give_packet p h r e) v = ground arith
Progress-Inv (stop h r n e) v = ground arith
Progress-Inv (join none h r e) v = ground arith
Progress-Inv (join (some x) h r e) v = ground arith

pub Step-Inv : {c : Config} {s t : State} → Step c s t → Inv c s → Inv c t
Step-Inv (progress p) v = Progress-Inv p v
Step-Inv (break h r e) v = ground arith

pub start-Inv : (c : Config) → Inv c start
unfolding start
start-Inv c = record {
  by_leader = refl;
  set_up = refl;
  after = λ h. absurd (omega arith);
  few = omega arith;
  first = λ h. refl;
}

Runs-Inv : {c : Config} {s : State} → Runs (Step c) start s → Inv c s
Runs-Inv {c} here = start-Inv c
Runs-Inv (later r st) = Step-Inv st (Runs-Inv r)

sets_of_notifies : (l : Leader) → notifies l ≡ true → sets l ≡ true
sets_of_notifies announcing h = refl
sets_of_notifies idle h = h
sets_of_notifies working h = h
sets_of_notifies (joining none) h = refl
sets_of_notifies (joining (some e)) h = h
sets_of_notifies (returned none) h = refl
sets_of_notifies (returned (some e)) h = h

IsSecured-sets :
    (c : Config) (b : Bool) (out : Option Secured) → b ≡ true → SecuredIf c b out → IsSecured c out
IsSecured-sets c true out e h = h
IsSecured-sets c false out e h = absurd (cc)

Inv-IsSecured : {c : Config} {s : State} → Inv c s → 0 < s.passed → IsSecured c s.secured
Inv-IsSecured {c} {s} v pos =
    IsSecured-sets c (sets s.leader) s.secured
      (sets_of_notifies s.leader (sym v.by_leader ∙ v.after pos)) v.set_up

-- In every state that the steps of the handshake lead to, whatever the libraries answer: either no
-- caller of `Recv`, `Send` or `BuiltinConn` has passed the handshake, or the builtin connection is
-- set, it runs over TLS and there is a key exactly if TLS is configured; and in every such state at most
-- eight packets are kept for `Recv`.
pub passed-IsSecured :
    (c : Config) (s : State)
    → Runs (Step c) start s
    → ((s.passed ≡ 0) ⊎ IsSecured c s.secured) × (length s.queue ≤ 8)
passed-IsSecured c s r =
    let v = Runs-Inv r in
    (
      elim (dec_lt 0 s.passed) [
        | yes pos ↦ inr (Inv-IsSecured v pos)
        | no none_yet ↦ inl (omega arith)
      ],
      v.few,
    )
