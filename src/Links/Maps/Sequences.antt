-- ===== src/Links/Maps/Sequences.antt =====
-- links/maps/maps.go: the operations of a link manager in any order.
use fatun.Base.{
  ℕ, ◌+◌, ◌/◌, ◌%◌, ◌^◌, ◌<◌, ◌≡◌, sym, subst, inl, inr, Option, none, some, List, arith, Error, ok,
  err, returns, Option-cases, Run-cases,
}
use fatun.Base.Maps.{lookup, insert, lookup-insert}
use fatun.Base.Runs.{Runs, here, later}
use fatun.Ports.Adapter.{get_port}
use fatun.Ports.Adapter.Invariant.{Visits, get_port_cases}
use fatun.Ports.Adapter.Uses.{IsFresh}
use fatun.Links.Heap.Refine.{contents, contents-put}
use fatun.Links.{Uplink, Link, uplink_has_eq, uplink_eq_iff}
use fatun.Links.Maps.{LinkManager, Env, no_key, cleanup, add_link, add, uplink, port}
use fatun.Links.Maps.Registered.{reg, Keys-insert}
use fatun.Links.Maps.Invariant.{IsValid}
use fatun.Links.Maps.Expiry.{cleanup_lem}
use fatun.Links.Maps.Routes.{add-Downlink}

-- The count of an uplink's word stays below 48 bits.
abbrev pub HasRoom : LinkManager → Uplink → Type 0
HasRoom t u = (d : ℕ) → lookup u t.uplink_map ≡ some d → d % 2 ^ 48 + 1 < 2 ^ 48

pub port-reg :
    (d : ℕ)
    → d < 2 ^ 64
    → d % 2 ^ 48 + 1 < 2 ^ 48
    → ((port d).1 / 2 ^ 48 ≡ d / 2 ^ 48) × ((port d).1 < 2 ^ 64)
unfolding port
port-reg d w room = omega arith

-- A word of a registered uplink that keeps its port changes nothing that the invariant reads.
rewrite_word :
    (t : LinkManager) (u : Uplink) (d d' : ℕ)
    → IsValid t
    → lookup u t.uplink_map ≡ some d
    → d' / 2 ^ 48 ≡ d / 2 ^ 48
    → d' < 2 ^ 64
    → IsValid (record t { uplink_map = insert u d' t.uplink_map })
rewrite_word t u d d' v found same word = record {
  adapter = v.adapter;
  ring = v.ring;
  keys = Keys-insert t.uplink_map u d' (contents no_key t.ttl) v.keys;
  words = λ s e at. ground (arith, lookup-insert u s d' t.uplink_map, at, v.words s e, word);
  links = λ w p r.
      let old = v.links w p (was w p r) in
      record { proto_in = old.proto_in; conn = old.conn; back = old.back; used = old.used };
  alone = λ w x p r q. v.alone w x p (was w p r) (was x p q);
}
  where
    was :
        (w : Uplink) (p : ℕ)
        → reg (insert u d' t.uplink_map) w ≡ some p
        → reg t.uplink_map w ≡ some p
    was w p r = ground (arith, lookup-insert u w d' t.uplink_map, r, same, found, uplink_eq_iff u w)

uplink-IsValid : (t : LinkManager) (u : Uplink) → IsValid t → HasRoom t u → IsValid (uplink t u).1
unfolding uplink
uplink-IsValid t u v room = elim (Option-cases (lookup u t.uplink_map)) [
  | inl gone ↦ rw (gone, uplink) v
  | inr (d, found) ↦
      let (same, word) = port-reg d (v.words u d found) (room d found) in
      subst IsValid (ground (arith, found)) (rewrite_word t u d (port d).1 v found same word)
]

-- A failing `Add` leaves what its `Cleanup` left.
pub add_link-err :
    (env : Env) (t t' : LinkManager) (u : Uplink) (conn : ℕ) (e : Error)
    → IsValid t
    → add_link env t u conn ≡ returns (err e, t')
    → t' ≡ t
unfolding add_link
add_link-err env t t' u conn e v ran =
    let (q, queued, _, _) = contents-put no_key t.ttl (record { up = u; start = env.now }) v.ring in
    elim (Run-cases (get_port env.os (env.order t.ap.ports) t.ap u.proto u.server)) [
      | inl bad ↦ absurd (ground (arith, bad, ran))
      | inr ((out, a), got) ↦
          elim (get_port_cases env.os (env.order t.ap.ports) t.ap u.proto u.server out a got) [
            | inl (x, failed, same) ↦ ground (arith, got, failed, same, ran)
            | inr (p, m, good, made, source) ↦ absurd (ground (arith, got, good, queued, ran))
          ]
    ]

-- What one call does to a manager: `Cleanup`, `Uplink` of a link whose count has room, and `Add` of
-- an uplink that is not registered, with or without success. `Downlink` changes nothing.
pub data Step (t t' : LinkManager) : Type 0 where
  cleans :
      (close : ℕ → Option Error) (clock : ℕ → ℕ) (ls : List Link)
      → cleanup close clock t ≡ returns (ls, t')
      → Step t t'
  finds : (u : Uplink) → HasRoom t u → t' ≡ (uplink t u).1 → Step t t'
  adds :
      (env : Env) (u : Uplink) (conn p : ℕ)
      → u.proto < 256
      → p < 2 ^ 16
      → reg t.uplink_map u ≡ none
      → ((ls : List Link) (c : LinkManager)
          → cleanup env.close env.clock t ≡ returns (ls, c)
          → Visits c.ap.ports (env.order c.ap.ports))
      → ((ls : List Link) (c : LinkManager)
          → cleanup env.close env.clock t ≡ returns (ls, c)
          → IsFresh env.os c.ap u.proto)
      → add env t u conn ≡ returns (ok p, t')
      → Step t t'
  adds_none :
      (env : Env) (u : Uplink) (conn : ℕ) (e : Error)
      → add env t u conn ≡ returns (err e, t')
      → Step t t'

cleanup-IsValid :
    (close : ℕ → Option Error) (clock : ℕ → ℕ) (t t' : LinkManager) (ls : List Link)
    → IsValid t
    → cleanup close clock t ≡ returns (ls, t')
    → IsValid t'
cleanup-IsValid close clock t t' ls v ran =
    let (ls', c, ran', clean) = cleanup_lem close clock t v in
    let same : c ≡ t' = ground (arith, ran, ran') in subst IsValid same clean.valid

add-err :
    (env : Env) (t t' : LinkManager) (u : Uplink) (conn : ℕ) (e : Error)
    → IsValid t
    → add env t u conn ≡ returns (err e, t')
    → IsValid t'
unfolding add
add-err env t t' u conn e v ran =
    let (ls, c, cleaned, clean) = cleanup_lem env.close env.clock t v in
    let ran' : add_link env c u conn ≡ returns (err e, t') = rw cleaned at ran in
    subst IsValid (sym (add_link-err env c t' u conn e clean.valid ran')) clean.valid

pub Step-IsValid : {t t' : LinkManager} → Step t t' → IsValid t → IsValid t'
Step-IsValid {t} {t'} (cleans close clock ls ran) v = cleanup-IsValid close clock t t' ls v ran
Step-IsValid {t} {t'} (finds u room same) v = subst IsValid (sym same) (uplink-IsValid t u v room)
Step-IsValid {t} {t'} (adds env u conn p small word unreg visits fresh ran) v =
    (add-Downlink env t u conn p t' v small word unreg visits fresh ran).0
Step-IsValid {t} {t'} (adds_none env u conn e ran) v = add-err env t t' u conn e v ran

-- Every sequence of calls of `Cleanup`, `Uplink`, `Downlink` and `Add` leaves a valid manager valid,
-- when `Add` is called with uplinks that are not registered, protocols are below 2^8 and ports below
-- 2^16, no count of uses reaches 2^48 - 1, the loop of GetPort visits entries of its map, and the
-- system opens ports that no open socket holds. So every registered link keeps its way back and
-- its port, and no two of them share a port for one server.
pub Runs-IsValid : (t t' : LinkManager) → Runs Step t t' → IsValid t → IsValid t'
Runs-IsValid t _ here v = v
Runs-IsValid t t' (later r st) v = Step-IsValid st (Runs-IsValid t _ r v)
