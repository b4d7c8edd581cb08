-- ===== src/Conn/Udp/Listening.antt =====
-- conn/udp/listen.go: the round of accpetService.
use fatun.Base.{
  ℕ, suc, ◌≤◌, ◌≡◌, sym, ap, subst, ◌∙◌, inl, inr, Bool, true, false, not, ◌&&◌, none, some, List,
  [], ◌∷◌, ◌++◌, if◌then◌else◌, ltb, ◌==◌, length, length-append, arith, Bool-cases, Option-cases,
}
use fatun.Base.Maps.{lookup, insert, lookup-insert}
use fatun.Net.{AddrPort, addr_port_has_eq}
use fatun.Conn.Udp.{AcceptConn, Listener, new_accept_conn, put, offer, receive}
use fatun.Conn.Udp.Queue.{Fits, put-newest, newest, new_accept_conn-Fits}

-- Every queue and the queue of new connections are within their capacities.
pub record IsValid (l : Listener) : Type 0 where
  pub fits : (a : AddrPort) (c : AcceptConn) → lookup a l.conns ≡ some c → Fits c
  pub offered : length l.conn_ch ≤ 32

-- The connection that a segment goes to.
abbrev pub conn_of : Listener → AddrPort → AcceptConn
conn_of l a = elim (lookup a l.conns) [ none ↦ new_accept_conn | some c ↦ c ]

abbrev pub known : Listener → AddrPort → Bool
known l a = elim (lookup a l.conns) [ none ↦ false | some c ↦ true ]

conn_of-Fits : (l : Listener) (a : AddrPort) → IsValid l → Fits (conn_of l a)
conn_of-Fits l a v = elim (Option-cases (lookup a l.conns)) [
  | inl gone ↦ rw (conn_of, gone) new_accept_conn-Fits
  | inr (c, found) ↦ rw (conn_of, found) (v.fits a c found)
]

receive_eq :
    (fuel : ℕ) (a : AddrPort) (seg : List ℕ) (l : Listener) (c : AcceptConn) (back : List (List ℕ))
    → put fuel seg (conn_of l a) ≡ some (c, back)
    → receive fuel a seg l
      ≡ some (offer (known l a) a (record l { conns = insert a c l.conns }), back)
unfolding receive
receive_eq fuel a seg l c back e = elim (Option-cases (lookup a l.conns)) [
  | inl gone ↦ ground (arith, gone, e)
  | inr (old, found) ↦ ground (arith, found, e)
]

-- What a segment changes in a listener.
pub record Delivered (l : Listener) (a : AddrPort) (seg : List ℕ) (l' : Listener) : Type 0 where
  pub valid : IsValid l'
  pub conn : AcceptConn
  pub queue :
      conn.buff
      ≡ (if (conn_of l a).closing then (conn_of l a).buff else newest (conn_of l a).buff seg)
  pub conns : (b : AddrPort) → lookup b l'.conns ≡ (if a == b then some conn else lookup b l.conns)
  pub offered : l'.conn_ch ≡ (
      if not (known l a) && (not l.is_closed && ltb (length l.conn_ch) 32)
      then l.conn_ch ++ a ∷ []
      else l.conn_ch)

insert-Fits :
    (l : Listener) (a b : AddrPort) (c d : AcceptConn)
    → IsValid l
    → Fits c
    → lookup b (insert a c l.conns) ≡ some d
    → Fits d
insert-Fits l a b c d v fits e = elim (Bool-cases (a == b)) [
  | inl same ↦ subst Fits (ground (arith, same, e, lookup-insert a b c l.conns)) fits
  | inr other ↦ v.fits b d (ground (arith, other, e, lookup-insert a b c l.conns))
]

offer-conns : (has : Bool) (a : AddrPort) (l : Listener) → (offer has a l).conns ≡ l.conns
unfolding offer
offer-conns has a l = ground arith

offer-conn_ch :
    (has : Bool) (a : AddrPort) (l : Listener)
    → (offer has a l).conn_ch ≡ (
        if not has && (not l.is_closed && ltb (length l.conn_ch) 32)
        then l.conn_ch ++ a ∷ []
        else l.conn_ch)
unfolding offer
offer-conn_ch has a l = ground arith

offer-bound :
    (has : Bool) (a : AddrPort) (l : Listener)
    → length l.conn_ch ≤ 32
    → length (offer has a l).conn_ch ≤ 32
offer-bound has a l bound = ground (arith, offer-conn_ch has a l, length-append l.conn_ch (a ∷ []))

-- A round of the listener with a segment, during which no other goroutine uses the listener or closes
-- the connection, ends and leaves a valid listener valid. The segment is
-- put at the end of the queue of its sender's connection, unless that connection is closed; no
-- other connection is changed; and the connection is offered to `Accept` exactly if it is new, the
-- listener is open, and fewer than 32 connections wait.
pub receive-Delivered :
    (fuel : ℕ) (a : AddrPort) (seg : List ℕ) (l : Listener)
    → IsValid l
    → (l' : Listener) × (back : List (List ℕ)) × (receive (suc (suc fuel)) a seg l
        ≡ some (l', back))
      × Delivered l a seg l'
receive-Delivered fuel a seg l v =
    let (c, back, ran, fits, shut, queue, gone) =
      put-newest fuel seg (conn_of l a) (conn_of-Fits l a v) in
    let m : Listener = record l { conns = insert a c l.conns } in
    let has = known l a in
    let same = offer-conns has a m in
    (
      offer has a m,
      back,
      receive_eq (suc (suc fuel)) a seg l c back ran,
      record {
        valid = record {
          fits = λ b d e. insert-Fits l a b c d v fits (sym (ap (lookup b) same) ∙ e);
          offered = offer-bound has a m v.offered;
        };
        conn = c;
        queue = queue;
        conns = λ b. ap (lookup b) same ∙ lookup-insert a b c l.conns;
        offered = offer-conn_ch has a m;
      },
    )
