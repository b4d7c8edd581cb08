-- ===== src/Links/Maps/Table.antt =====
-- links/maps/maps.go: what a link manager promises, as a table from uplinks to a local port and a
-- connection, and that its operations keep the promise.
pub mod Answers
use fatun.Base.{
  ℕ, ◌/◌, ◌^◌, ◌<◌, ◌≡◌, ◌≢◌, ◌⊎◌, sym, ap, ◌∙◌, subst, inl, inr, Option, none, some, List, arith,
  ok, returns, Option-cases,
}
use fatun.Base.Maps.{lookup, lookup-insert}
use fatun.Base.Runs.{Runs, here, later}
use fatun.Ports.Adapter.Invariant.{Visits}
use fatun.Ports.Adapter.Uses.{IsFresh}
use fatun.Links.{Uplink, Link, uplink_has_eq, uplink_eq_iff, downlink_has_eq}
use fatun.Links.Maps.{
  new_port, LinkManager, DownKey, Env, cleanup, add, uplink, downlink, port, down_of,
}
use fatun.Links.Maps.Registered.{reg}
use fatun.Links.Maps.Invariant.{IsValid, link_at}
use fatun.Links.Maps.Expiry.{Cleaned, cleanup_lem}
use fatun.Links.Maps.Adding.{Added}
use fatun.Links.Maps.Routes.{add_link_lem, still_none}
use fatun.Links.Maps.Sequences
use fatun.Links.Maps.Sequences.{
  Step, cleans, finds, adds, adds_none, HasRoom, port-reg, add_link-err,
}

-- The local port and the connection of each uplink that is linked.
abbrev pub Table : Type 0
Table = Uplink → Option (ℕ × ℕ)

abbrev way : LinkManager → Uplink → ℕ → Option DownKey
way t u p = lookup (down_of t.addr (link_at t.addr u p)) t.downlink_map

-- The table that a manager stands for.
pub table : LinkManager → Table
table t u = elim (reg t.uplink_map u) [
  | none ↦ none
  | some p ↦ elim (way t u p) [ none ↦ none | some k ↦ some (p, k.conn) ]
]

-- Every link stays as it is or ends.
abbrev pub Keeps : Table → Table → Type 0
Keeps a b = (u : Uplink) → (b u ≡ none) ⊎ (b u ≡ a u)

-- An uplink that has no link is linked, and every other link stays or ends; none that stays shares the
-- port for the same server.
pub record Binds (u : Uplink) (p conn : ℕ) (a b : Table) : Type 0 where
  pub unlinked : a u ≡ none
  pub own : b u ≡ some (p, conn)
  pub others : (w : Uplink) → w ≢ u → (b w ≡ none) ⊎ (b w ≡ a w)
  pub apart :
      (w : Uplink) (c : ℕ) → w ≢ u → w.proto ≡ u.proto → w.server ≡ u.server → b w ≢ some (p, c)

-- What a call does to the table of the links.
abbrev pub Does : {t t' : LinkManager} → Step t t' → Type 0
Does {t} {t'} (cleans close clock ls ran) = Keeps (table t) (table t')
Does {t} {t'} (finds u room same) = (w : Uplink) → table t' w ≡ table t w
Does {t} {t'} (adds env u conn p small word unreg visits fresh ran) =
    Binds u p conn (table t) (table t')
Does {t} {t'} (adds_none env u conn e ran) = Keeps (table t) (table t')

-- Each call of a sequence does so.
abbrev pub AllDo : {t t' : LinkManager} → Runs Step t t' → Type 0
AllDo here = Unit {0}
AllDo (later r st) = AllDo r × Does st

pub table-none : (t : LinkManager) (u : Uplink) → reg t.uplink_map u ≡ none → table t u ≡ none
unfolding table
table-none t u r = ground (arith, r)

pub table-some :
    (t : LinkManager) (u : Uplink) (p : ℕ) (k : DownKey)
    → reg t.uplink_map u ≡ some p
    → way t u p ≡ some k
    → table t u ≡ some (p, k.conn)
unfolding table
table-some t u p k r e = ground (arith, r, e)

reg_of_table :
    (t : LinkManager) (u : Uplink) (p c : ℕ) → table t u ≡ some (p, c) → reg t.uplink_map u ≡ some p
unfolding table
reg_of_table t u p c e = elim (Option-cases (reg t.uplink_map u)) [
  | inl gone ↦ absurd (ground (arith, gone, e))
  | inr (q, there) ↦ elim (Option-cases (way t u q)) [
    | inl lost ↦ absurd (ground (arith, there, lost, e))
    | inr (k, found) ↦ ground (arith, there, found, e)
  ]
]

-- A link that keeps its port and its way back stays in the table.
table_same :
    (t t' : LinkManager) (u : Uplink)
    → reg t'.uplink_map u ≡ reg t.uplink_map u
    → ((p : ℕ) → reg t'.uplink_map u ≡ some p → way t' u p ≡ way t u p)
    → table t' u ≡ table t u
unfolding table
table_same t t' u same ways = elim (Option-cases (reg t'.uplink_map u)) [
  | inl gone ↦ ground (arith, gone, same)
  | inr (p, there) ↦ ground (arith, there, same, ways p there)
]

table_kept :
    (t t' : LinkManager) (u : Uplink)
    → (reg t'.uplink_map u ≡ none) ⊎ (reg t'.uplink_map u ≡ reg t.uplink_map u)
    → ((p : ℕ) → reg t'.uplink_map u ≡ some p → way t' u p ≡ way t u p)
    → (table t' u ≡ none) ⊎ (table t' u ≡ table t u)
table_kept t t' u (inl gone) ways = inl (table-none t' u gone)
table_kept t t' u (inr same) ways = inr (table_same t t' u same ways)

Cleaned-table :
    (t t' : LinkManager) (ls : List Link)
    → Cleaned t ls t'
    → (u : Uplink) → (table t' u ≡ none) ⊎ (table t' u ≡ table t u)
Cleaned-table t t' ls clean u = table_kept t t' u (clean.kept u) (λ p r.
    ap (λ a. lookup (down_of a (link_at a u p)) t'.downlink_map) clean.fixed.0 ∙ clean.ways u p r)

uplink-reg :
    (t : LinkManager) (u w : Uplink)
    → IsValid t
    → HasRoom t u
    → reg (uplink t u).1.uplink_map w ≡ reg t.uplink_map w
unfolding uplink
uplink-reg t u w v room = elim (Option-cases (lookup u t.uplink_map)) [
  | inl gone ↦ ground (arith, gone)
  | inr (d, found) ↦
      let (same, word) = port-reg d (v.words u d found) (room d found) in
      ground (arith, found, same, lookup-insert u w (port d).1 t.uplink_map, uplink_eq_iff u w)
]

uplink-way : (t : LinkManager) (u w : Uplink) (p : ℕ) → way (uplink t u).1 w p ≡ way t w p
unfolding uplink
uplink-way t u w p = elim (Option-cases (lookup u t.uplink_map)) [
  | inl gone ↦ ground (arith, gone)
  | inr (d, found) ↦ ground (arith, found)
]

-- A use of a link changes no table.
uplink-table :
    (t : LinkManager) (u w : Uplink) → IsValid t → HasRoom t u → table (uplink t u).1 w ≡ table t w
uplink-table t u w v room =
    table_same t (uplink t u).1 w (uplink-reg t u w v room) (λ p r. uplink-way t u w p)

Added-own :
    (t t' : LinkManager) (u : Uplink) (conn p : ℕ)
    → p < 2 ^ 16
    → Added t u conn p t'
    → table t' u ≡ some (p, conn)
unfolding new_port
Added-own t t' u conn p word added =
    table-some t' u p (record { conn = conn; client_port = u.process.port })
      (ground (arith, added.registered))
      (ap (λ a. lookup (down_of a (link_at a u p)) t'.downlink_map) added.fixed ∙ added.back)

Added-other :
    (t t' : LinkManager) (u w : Uplink) (conn p : ℕ)
    → w ≢ u
    → Added t u conn p t'
    → table t' w ≡ table t w
Added-other t t' u w conn p other added =
    let same = added.others w other in
    table_same t t' w same (λ n r.
      ap (λ a. lookup (down_of a (link_at a w n)) t'.downlink_map) added.fixed
      ∙ added.ways w n (sym same ∙ r))

add-Binds :
    (env : Env) (t t' : LinkManager) (u : Uplink) (conn p : ℕ)
    → IsValid t
    → u.proto < 256
    → p < 2 ^ 16
    → reg t.uplink_map u ≡ none
    → ((ls : List Link) (c : LinkManager)
        → cleanup env.close env.clock t ≡ returns (ls, c)
        → Visits c.ap.ports (env.order c.ap.ports))
    → ((ls : List Link) (c : LinkManager)
        → cleanup env.close env.clock t ≡ returns (ls, c)
        → IsFresh env.os c.ap u.proto)
    → add env t u conn ≡ returns (ok p, t')
    → Binds u p conn (table t) (table t')
unfolding add
add-Binds env t t' u conn p v small word unreg visits fresh ran =
    let (ls, c, cleaned, clean) = cleanup_lem env.close env.clock t v in
    let added =
      add_link_lem env c u conn p t' clean.valid small word (still_none t c ls u unreg clean)
        (visits ls c cleaned) (fresh ls c cleaned) (rw cleaned at ran) in
    let own = Added-own c t' u conn p word added in
    record {
      unlinked = table-none t u unreg;
      own = own;
      others = λ w other.
          subst (λ x. (x ≡ none) ⊎ (x ≡ table t w)) (sym (Added-other c t' u w conn p other added))
            (Cleaned-table t c ls clean w);
      apart = λ w n other e f there. other (
          added.valid.alone w u p (reg_of_table t' w p n there) (reg_of_table t' u p conn own) e f);
    }

pub Step-Does : {t t' : LinkManager} (st : Step t t') → IsValid t → Does st
unfolding add
Step-Does {t} {t'} (cleans close clock ls ran) v =
    let (ls', c, ran', clean) = cleanup_lem close clock t v in
    Cleaned-table t t' ls' (subst (Cleaned t ls') (ground (arith, ran, ran')) clean)
Step-Does {t} {t'} (finds u room same) v = λ w. ap (λ x. table x w) same ∙ uplink-table t u w v room
Step-Does {t} {t'} (adds env u conn p small word unreg visits fresh ran) v =
    add-Binds env t t' u conn p v small word unreg visits fresh ran
Step-Does {t} {t'} (adds_none env u conn e ran) v =
    let (ls, c, cleaned, clean) = cleanup_lem env.close env.clock t v in
    let same = add_link-err env c t' u conn e clean.valid (rw cleaned at ran) in
    λ w.
      subst (λ x. (table x w ≡ none) ⊎ (table x w ≡ table t w)) (sym same)
        (Cleaned-table t c ls clean w)

-- A link manager is a table of its links. In every sequence of calls that leads from a valid manager
-- to another, each `Uplink` changes no link; each `Cleanup` and each `Add` that fails leaves every link as it is or
-- ends it; and each `Add` that succeeds links its uplink to the port that it answers and to its connection,
-- leaves every other link as it is or ends it, and gives a port that no other link to the same server
-- has. Conditions are those of each call: `Add` is called with uplinks that are not registered,
-- protocols are below 2^8 and ports below 2^16, no count of uses reaches 2^48 - 1, the loop of GetPort
-- visits entries of its map, and the system opens ports that no open socket holds.
pub Runs-AllDo : (t t' : LinkManager) (r : Runs Step t t') → IsValid t → AllDo r
Runs-AllDo t _ here v = tt
Runs-AllDo t t' (later r st) v = (Runs-AllDo t _ r v, Step-Does st (Sequences.Runs-IsValid t _ r v))
