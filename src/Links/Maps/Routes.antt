-- ===== src/Links/Maps/Routes.antt =====
-- links/maps/maps.go: `Add`, `Uplink` and `Downlink` together.
use fatun.Base.{
  ℕ, ◌^◌, ◌<◌, ◌≡◌, sym, ap, ◌∙◌, subst, inl, inr, none, some, List, arith, ok, returns,
}
use fatun.Base.Maps.{lookup}
use fatun.Net.{addr_port_has_eq}
use fatun.Ports.Adapter.{port_key_has_eq}
use fatun.Ports.Adapter.Invariant.{Visits, get_port-IsValid}
use fatun.Ports.Adapter.Uses.{get_port-uses, IsFresh}
use fatun.Links.Heap.Refine.{contents-put}
use fatun.Links.{Uplink, Downlink, Link, uplink_has_eq, downlink_has_eq}
use fatun.Links.Maps.{
  LinkManager, DownKey, Env, no_key, down_of, cleanup, add_link, add, uplink, downlink, new_port,
  port,
}
use fatun.Links.Maps.Registered.{reg}
use fatun.Links.Maps.Invariant.{IsValid, link_at}
use fatun.Links.Maps.Expiry.{Cleaned, cleanup_lem}
use fatun.Links.Maps.Adding.{with_link-Added, Added, add_link_cases}

pub add_link_lem :
    (env : Env) (t : LinkManager) (u : Uplink) (conn p : ℕ) (t' : LinkManager)
    → IsValid t
    → u.proto < 256
    → p < 2 ^ 16
    → reg t.uplink_map u ≡ none
    → Visits t.ap.ports (env.order t.ap.ports)
    → IsFresh env.os t.ap u.proto
    → add_link env t u conn ≡ returns (ok p, t')
    → Added t u conn p t'
add_link_lem env t u conn p t' v small word unreg visits fresh ran =
    let (q, queued, ring, more) =
      contents-put no_key t.ttl (record { up = u; start = env.now }) v.ring in
    let (a, got, same) = add_link_cases env t u conn p t' q queued ran in
    let (unused, changed) =
      get_port-uses env.os (env.order t.ap.ports) t.ap u.proto u.server p a v.adapter visits fresh
        got in
    let adapter =
      get_port-IsValid env.os (env.order t.ap.ports) t.ap u.proto u.server (ok p) a v.adapter visits
        got in
    subst (Added t u conn p) (sym same)
      (with_link-Added t a q u conn p v small unused changed env.now word unreg adapter ring more)

pub still_none :
    (t c : LinkManager) (ls : List Link) (u : Uplink)
    → reg t.uplink_map u ≡ none
    → Cleaned t ls c
    → reg c.uplink_map u ≡ none
still_none t c ls u unreg clean = elim (clean.kept u) [
  | inl none_now ↦ none_now
  | inr same ↦ same ∙ unreg
]

pub uplink-unregistered :
    (t : LinkManager) (u : Uplink) → reg t.uplink_map u ≡ none → uplink t u ≡ (none, t)
unfolding uplink
uplink-unregistered t u e = ground (arith, e)

uplink-new_port :
    (t : LinkManager) (u : Uplink) (p : ℕ)
    → p < 2 ^ 16
    → lookup u t.uplink_map ≡ some (new_port p)
    → (uplink t u).0 ≡ some p
unfolding uplink new_port port
uplink-new_port t u p word found = rw (found, uplink) (ap some (omega arith))

downlink_of_lookup :
    (t : LinkManager) (d : Downlink) (k : DownKey)
    → lookup d t.downlink_map ≡ some k
    → downlink t d ≡ some (k.conn, k.client_port)
unfolding downlink
downlink_of_lookup t d k found = rw (found, downlink)

-- A successful `Add` of an uplink that is not registered, on a valid manager: the manager stays
-- valid, `Uplink` answers the returned port, and a packet from the server to that port is led back
-- by `Downlink` to the connection and the process port that the link was added with. Conditions: the
-- protocol is below 2^8 and the port below 2^16, the loop of GetPort visits entries of its map, and
-- the system opens ports that no open socket holds.
pub add-Downlink :
    (env : Env) (t : LinkManager) (u : Uplink) (conn p : ℕ) (t' : LinkManager)
    → IsValid t
    → u.proto < 256
    → p < 2 ^ 16
    → reg t.uplink_map u ≡ none
    → ((ls : List Link) (c : LinkManager)
        → cleanup env.close env.clock t ≡ returns (ls, c)
        → Visits c.ap.ports (env.order c.ap.ports))
    → ((ls : List Link) (c : LinkManager)
        → cleanup env.close env.clock t ≡ returns (ls, c)
        → IsFresh env.os c.ap u.proto)
    → add env t u conn ≡ returns (ok p, t')
    → IsValid t'
      × ((uplink t' u).0 ≡ some p)
      × (downlink t' (down_of t.addr (link_at t.addr u p)) ≡ some (conn, u.process.port))
unfolding add
add-Downlink env t u conn p t' v small word unreg visits fresh ran =
    let (ls, c, cleaned, clean) = cleanup_lem env.close env.clock t v in
    let gone : reg c.uplink_map u ≡ none = still_none t c ls u unreg clean in
    let ran' : add_link env c u conn ≡ returns (ok p, t') = rw cleaned at ran in
    let added =
      add_link_lem env c u conn p t' clean.valid small word gone (visits ls c cleaned)
        (fresh ls c cleaned) ran' in
    (
      added.valid,
      uplink-new_port t' u p word added.registered,
      downlink_of_lookup t' (down_of t.addr (link_at t.addr u p)) _ (
          subst
            (λ addr.
              lookup (down_of addr (link_at addr u p)) t'.downlink_map
              ≡ some (record { conn = conn; client_port = u.process.port }))
            clean.fixed.0 added.back),
    )
