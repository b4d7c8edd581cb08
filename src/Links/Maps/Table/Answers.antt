-- ===== src/Links/Maps/Table/Answers.antt =====
-- links/maps/maps.go: what `Uplink` and `Downlink` answer, by the table of the links.
use fatun.Base.{ℕ, ◌/◌, ◌^◌, ◌≡◌, ◌⊎◌, inl, inr, none, some, arith, Option-cases}
use fatun.Base.Maps.{lookup}
use fatun.Links.{Uplink, uplink_has_eq, downlink_has_eq}
use fatun.Links.Maps.{LinkManager, uplink, downlink, port, down_of}
use fatun.Links.Maps.Registered.{reg}
use fatun.Links.Maps.Invariant.{IsValid, link_at}
use fatun.Links.Maps.Sequences.{HasRoom}
use fatun.Links.Maps.Table.{table, table-none, table-some}

-- On a valid manager, `Uplink` of an uplink that is not in the table answers that there is no link; of
-- one that is, it answers the local port that the table has, and `Downlink` leads a packet from the server to that port to the connection that the table has, with the
-- port of the process. The count of the uplink has room.
pub answers-table :
    (t : LinkManager) (u : Uplink)
    → IsValid t
    → HasRoom t u
    → ((table t u ≡ none) × ((uplink t u).0 ≡ none))
      ⊎ ((p : ℕ) × (conn : ℕ) × (table t u ≡ some (p, conn))
          × ((uplink t u).0 ≡ some p)
          × (downlink t (down_of t.addr (link_at t.addr u p)) ≡ some (conn, u.process.port)))
unfolding uplink downlink port
answers-table t u v room = elim (Option-cases (lookup u t.uplink_map)) [
  | inl gone ↦ inl (table-none t u (ground (arith, gone)), ground (arith, gone))
  | inr (d, found) ↦
      let there : reg t.uplink_map u ≡ some (d / 2 ^ 48) = ground (arith, found) in
      let linked = v.links u (d / 2 ^ 48) there in
      inr (
        d / 2 ^ 48,
        linked.conn,
        table-some t u (d / 2 ^ 48) (record { conn = linked.conn; client_port = u.process.port })
            there linked.back,
        ground (arith, found, room d found, v.words u d found),
        ground (arith, linked.back),
      )
]
