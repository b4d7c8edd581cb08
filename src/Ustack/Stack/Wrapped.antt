-- ===== src/Ustack/Stack/Wrapped.antt =====
-- ustack/wrap.go: a wrapper changes nothing but what it is for.
use fatun.Base.{
  ℕ, zero, suc, ◌≡◌, refl, sym, ◌∙◌, ◌≢◌, inl, inr, Option, none, some, List, [], ◌∷◌, ◌++◌, Error,
  returns, if◌then◌else◌, ◌=ᵇ◌, arith, Bool-cases,
}
use mathlib.Core.List.{append_assoc, append-nil}
use fatun.Net.{AddrPort}
use fatun.Packet.{BufferLib, PcapLib}
use fatun.Ustack.Slice.{PacketBuffer}
use fatun.Ustack.Link.{Link, joined, fill, outbound_by}
use fatun.Ustack.Link.Outbound.{rewound}
use fatun.Ustack.Stack.{Shape, plain, not_close, pcap, World, stack_outbound_by}

-- How many of the wrappers write the file `f`.
pub times : ℕ → Shape → ℕ
times f plain = 0
times f (not_close s) = times f s
times f (pcap g s) = if f =ᵇ g then suc (times f s) else times f s

-- The same packet, `n` times.
pub copies : ℕ → List ℕ → List (List ℕ)
copies zero ip = []
copies (suc n) ip = copies n ip ++ ip ∷ []

module _ (buf : BufferLib) (pc : PcapLib) where
  open buf use {lib, set_head_twice, set_head-head, head-with_bytes, bytes-with_bytes}

  abbrev Accepts : Type 0
  Accepts = (f : ℕ) (ip : List ℕ) (fs : pc.Files) → (pc.write_ip f ip fs).0 ≡ none

  restored : (n : ℕ) (t : lib.Packet) → lib.set_head (lib.head t) (lib.set_head n t) ≡ t
  restored n t = set_head_twice (lib.head t) n t ∙ set_head-head t

  files_lem :
      (f g : ℕ) (ip : List ℕ) (s : Shape) (before between : pc.Files)
      → pc.recorded f between ≡ pc.recorded f before ++ copies (times f s) ip
      → (pc.write_ip g ip between).0 ≡ none
      → pc.recorded f (pc.write_ip g ip between).1
        ≡ pc.recorded f before ++ copies (times f (pcap g s)) ip
  unfolding copies times
  files_lem f g ip s before between kept wrote = elim (Bool-cases (f =ᵇ g)) [
    | inl same ↦
        let is : f ≡ g = ground (arith, same) in
        let added = pc.recorded-write_ip g ip between wrote in
        let joins = append_assoc (pc.recorded f before) (copies (times f s) ip) (ip ∷ []) in
        grind (arith, same, is, added, kept, joins)
    | inr other ↦
        let isnt : f ≢ g = ground (arith, other) in
        let stays = pc.recorded-write_ip_other g f ip between isnt in
        ground (arith, other, stays, kept)
  ]

  -- When the link gives its reader a packet without an error and every file accepts what is written, a
  -- read through any nesting of wrappers around the stack gives the same bytes in the same buffer and
  -- leaves the link as a read of the bare stack does; each file has the whole IP packet once more for
  -- each wrapper that writes to it, and nothing else.
  pub stack_outbound_by-copies :
      (ended : Option Error) (dst : AddrPort) (s : Shape) (w : World buf pc) (tcp : lib.Packet)
      (l' : Link) (p : PacketBuffer)
      → Accepts
      → outbound_by buf ended dst w.link tcp ≡ returns (some (none, l', fill buf p tcp))
      → (w' : World buf pc) × (stack_outbound_by buf pc ended dst s w tcp
          ≡ returns (some (none, w', fill buf p tcp)))
        × (w'.link ≡ l')
        × (w'.is_open ≡ w.is_open)
        × ((f : ℕ)
            → pc.recorded f w'.files
              ≡ pc.recorded f w.files ++ copies (times f s) (joined p.slices))
  unfolding stack_outbound_by copies times
  stack_outbound_by-copies ended dst plain w tcp l' p accepts ran = (
    record w { link = l' },
    ground (arith, ran),
    refl,
    refl,
    λ f. sym (append-nil (pc.recorded f w.files)),
  )
  stack_outbound_by-copies ended dst (not_close s) w tcp l' p accepts ran =
      stack_outbound_by-copies ended dst s w tcp l' p accepts ran
  stack_outbound_by-copies ended dst (pcap g s) w tcp l' p accepts ran =
      let (w', later, linked, opened, kept) =
        stack_outbound_by-copies ended dst s w tcp l' p accepts ran in
      let wrote = accepts g (joined p.slices) w'.files in
      let back = rewound buf p tcp in
      let same = restored (lib.head tcp) (fill buf p tcp) in
      (
        record w' { files = (pc.write_ip g (joined p.slices) w'.files).1 },
        ground (arith, later, back, same, wrote),
        linked,
        opened,
        λ f. files_lem f g (joined p.slices) s w.files w'.files (kept f) wrote,
      )
