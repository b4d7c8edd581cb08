-- ===== src/Links/Maps/Invariant.antt =====
-- links/maps/maps.go: the invariant of a link manager.
use fatun.Base.{ℕ, ◌<◌, ◌≡◌, true, some}
use fatun.Base.Maps.{lookup}
use fatun.Net.{Addr, addr_port_has_eq}
use fatun.Ports.Adapter.{port_key, port_key_has_eq}
use fatun.Ports.Adapter.Invariant
use fatun.Ports.Adapter.Uses.{uses}
use fatun.Links.Heap.Refine
use fatun.Links.Heap.Refine.{contents}
use fatun.Links.{Uplink, Link, downlink_has_eq}
use fatun.Links.Maps.{LinkManager, no_key, down_of}
use fatun.Links.Maps.Registered.{reg, Words, Keys}

-- The link of an uplink through a local port.
abbrev pub link_at : Addr → Uplink → ℕ → Link
link_at addr u p = record { uplink = u; local = record { addr = addr; port = p } }

pub record IsLinked (t : LinkManager) (u : Uplink) (p : ℕ) : Type 0 where
  pub proto_in : u.proto < 256
  pub conn : ℕ
  pub back :
      lookup (down_of t.addr (link_at t.addr u p)) t.downlink_map
      ≡ some (record { conn = conn; client_port = u.process.port })
  pub used : uses t.ap (port_key u.proto p) u.server ≡ true

pub record IsValid (t : LinkManager) : Type 0 where
  pub adapter : Invariant.IsValid t.ap
  pub ring : Refine.IsValid t.ttl
  pub keys : Keys t.uplink_map (contents no_key t.ttl)
  pub words : Words t.uplink_map
  pub links : (u : Uplink) (p : ℕ) → reg t.uplink_map u ≡ some p → IsLinked t u p
  pub alone :
      (u w : Uplink) (p : ℕ)
      → reg t.uplink_map u ≡ some p
      → reg t.uplink_map w ≡ some p
      → u.proto ≡ w.proto
      → u.server ≡ w.server
      → u ≡ w
