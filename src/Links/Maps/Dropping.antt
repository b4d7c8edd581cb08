-- ===== src/Links/Maps/Dropping.antt =====
-- links/maps/maps.go, Cleanup: dropping the ways back and the ports of a list of links.
use fatun.Base.{
  ℕ, ◌<◌, ◌≡◌, refl, ◌∙◌, Bool, true, false, not, ◌&&◌, Option, none, List, [], ◌∷◌, arith, All,
  ◌==◌, Error, returns,
}
use fatun.Base.Maps.{GoMap, lookup, delete, lookup-delete}
use fatun.Net.{Addr, AddrPort, addr_port_has_eq, addr_port_eq_iff}
use fatun.Ports.Adapter.{Adapter, PortKey, port_key, port_key_eq_iff, port_key_has_eq}
use fatun.Ports.Adapter.Invariant
use fatun.Ports.Adapter.Uses.{uses}
use fatun.Ports.Adapter.Releases.{del_port-uses}
use fatun.Links.{Uplink, Downlink, Link, downlink_has_eq, downlink_eq_iff}
use fatun.Links.Maps.{DownKey, down_of, drop_downlinks, drop_ports}
use fatun.Links.Maps.Invariant.{link_at}

-- The link uses the port of the key for the remote address.
abbrev pub holds : PortKey → AddrPort → Link → Bool
holds k r l = (port_key l.uplink.proto l.local.port == k) && (l.uplink.server == r)

abbrev pub key_of : Link → PortKey
key_of l = port_key l.uplink.proto l.local.port

abbrev pub Untouched : PortKey → AddrPort → List Link → Type 0
Untouched k r = All (λ l. holds k r l ≡ false)

abbrev pub DistinctUses : List Link → Type 0
DistinctUses [] = Unit {0}
DistinctUses (l ∷ ls) = Untouched (key_of l) l.uplink.server ls × DistinctUses ls

abbrev pub AllUsed : Adapter → List Link → Type 0
AllUsed a = All (λ l. uses a (key_of l) l.uplink.server ≡ true)

-- The links use no port.
abbrev pub Freed : Adapter → List Link → Type 0
Freed a = All (λ l. uses a (key_of l) l.uplink.server ≡ false)

-- The links have no way back.
abbrev pub Unreachable : Addr → GoMap Downlink DownKey → List Link → Type 0
Unreachable addr m = All (λ l. lookup (down_of addr l) m ≡ none)

pub AllUsed-keep :
    (a a' : Adapter) (ls : List Link) (x : Link)
    → ((k : PortKey) (r : AddrPort) → uses a' k r ≡ (not (holds k r x) && uses a k r))
    → Untouched (key_of x) x.uplink.server ls
    → AllUsed a ls
    → AllUsed a' ls
AllUsed-keep a a' [] x h n v = tt
AllUsed-keep a a' (l ∷ ls) x h n v = (
  ground (
    arith,
    h (key_of l) l.uplink.server,
    v.0,
    n.0,
    port_key_eq_iff (key_of l) (key_of x),
    port_key_eq_iff (key_of x) (key_of l),
    addr_port_eq_iff l.uplink.server x.uplink.server,
    addr_port_eq_iff x.uplink.server l.uplink.server,
  ),
  AllUsed-keep a a' ls x h n.1 v.1,
)

-- The third loop cannot panic, ends the uses of the removed links, and no other.
pub drop_ports_lem :
    (close : ℕ → Option Error) (ls : List Link) (a : Adapter)
    → Invariant.IsValid a
    → AllUsed a ls
    → DistinctUses ls
    → (a' : Adapter) × (drop_ports close ls a ≡ returns a')
      × Invariant.IsValid a'
      × ((k : PortKey) (r : AddrPort) → Untouched k r ls → uses a' k r ≡ uses a k r)
      × Freed a' ls
unfolding drop_ports
drop_ports_lem close [] a v used apart = (a, refl, v, (λ k r n. refl), tt)
drop_ports_lem close (l ∷ ls) a v used apart =
    let (e, b, socks, ran, valid, changed) =
      del_port-uses close a l.uplink.proto l.local.port l.uplink.server v used.0 in
    let (a', ran', valid', kept, freed) =
      drop_ports_lem close ls b valid (AllUsed-keep a b ls l changed apart.0 used.1) apart.1 in
    (
      a',
      rw (ran, ran'),
      valid',
      (λ k r n. kept k r n.1 ∙ ground (arith, changed k r, n.0)),
      (
        kept (key_of l) l.uplink.server apart.0
            ∙ ground (
              arith,
              changed (key_of l) l.uplink.server,
              port_key_eq_iff (key_of l) (key_of l),
              addr_port_eq_iff l.uplink.server l.uplink.server,
            ),
        freed,
      ),
    )

-- The second loop deletes the ways back of the removed links, and no other.
pub lookup-drop_downlinks :
    (addr : Addr) (ls : List Link) (d : Downlink) (m : GoMap Downlink DownKey)
    → All (λ l. (down_of addr l == d) ≡ false) ls
    → lookup d (drop_downlinks addr ls m) ≡ lookup d m
unfolding drop_downlinks
lookup-drop_downlinks addr [] d m n = refl
lookup-drop_downlinks addr (l ∷ ls) d m n =
    lookup-drop_downlinks addr ls d (delete (down_of addr l) m) n.1
    ∙ ground (arith, lookup-delete (down_of addr l) d m, n.0)

pub drop_downlinks-none :
    (addr : Addr) (ls : List Link) (d : Downlink) (m : GoMap Downlink DownKey)
    → lookup d m ≡ none
    → lookup d (drop_downlinks addr ls m) ≡ none
unfolding drop_downlinks
drop_downlinks-none addr [] d m e = e
drop_downlinks-none addr (l ∷ ls) d m e =
    drop_downlinks-none addr ls d (delete (down_of addr l) m)
      (ground (arith, lookup-delete (down_of addr l) d m, e))

pub drop_downlinks-Unreachable :
    (addr : Addr) (ls : List Link) (m : GoMap Downlink DownKey)
    → Unreachable addr (drop_downlinks addr ls m) ls
unfolding drop_downlinks
drop_downlinks-Unreachable addr [] m = tt
drop_downlinks-Unreachable addr (l ∷ ls) m = (
  drop_downlinks-none addr ls (down_of addr l) (delete (down_of addr l) m) (
      ground (
        arith,
        lookup-delete (down_of addr l) (down_of addr l) m,
        downlink_eq_iff (down_of addr l) (down_of addr l),
      )),
  drop_downlinks-Unreachable addr ls (delete (down_of addr l) m),
)

pub holds_same :
    (q p : ℕ) (r : AddrPort) (l : Link)
    → q < 256
    → l.uplink.proto < 256
    → holds (port_key q p) r l ≡ true
    → (l.uplink.proto ≡ q) × (l.local.port ≡ p) × (l.uplink.server ≡ r)
holds_same q p r l a b h = ground (arith, addr_port_eq_iff l.uplink.server r)

pub down_same :
    (addr : Addr) (u : Uplink) (p : ℕ) (l : Link)
    → (down_of addr l == down_of addr (link_at addr u p)) ≡ true
    → (l.uplink.proto ≡ u.proto) × (l.local.port ≡ p) × (l.uplink.server ≡ u.server)
down_same addr u p l h = ground (arith, addr_port_eq_iff l.uplink.server u.server)
