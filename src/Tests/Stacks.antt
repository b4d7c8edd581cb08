-- ===== src/Tests/Stacks.antt =====
-- The user-space TCP stack's link with one packet, bare and behind two capturing wrappers.
use fatun.Base.{ℕ, ◌≡◌, refl, true, false, none, some, [], ◌∷◌, ◌++◌, returns}
use fatun.Net.{v4}
use fatun.Base.Runs.{Runs}
use fatun.Ustack.Slice.Waiting.{State, Step, Quiet, waiting, start, pick}
use fatun.Ustack.Slice.Waiting.Lost.{lost_wakeup}
use fatun.Ustack.Slice.{
  new_list, new_slice, get_by, take_match, matches, port_matches, addr_matches,
}
use fatun.Ustack.Slice.Laws.{kept, new_list-IsValid}
use fatun.Ustack.Link.{Link, outbound_by, fill, joined}
use fatun.Ustack.Stack.{World, plain, not_close, pcap, stack_outbound_by}
use fatun.Ustack.Stack.Wrapped.{times, copies, stack_outbound_by-copies}
use fatun.Tests.Ports.{web}
use fatun.Tests.Queues.{to_web}
use fatun.Tests.Buffers.{buffers, front_packets, capture_files}

abbrev filled : Link
filled = record {
  queue = record { s = to_web ∷ []; cap = 8 };
  is_closed = false;
  attached = true;
  mtu = 512;
}

abbrev emptied : Link
emptied = record filled { queue = record { s = []; cap = 8 } }

abbrev into : front_packets.Packet
into = (0 ∷ 0 ∷ 0 ∷ 0 ∷ [], [])

took :
    outbound_by buffers none web filled into
    ≡ returns (some (none, emptied, fill buffers to_web into))
unfolding outbound_by get_by take_match matches port_matches addr_matches
took = refl

abbrev world : World buffers capture_files
world = record { addr = v4 7; link = filled; is_open = true; files = λ f. [] }

stack_outbound_by-copies_example :
    (w' : World buffers capture_files) × (stack_outbound_by buffers capture_files none web
        (pcap 1 (not_close (pcap 2 plain)))
        world
        into
      ≡ returns (some (none, w', fill buffers to_web into)))
    × (w'.link ≡ emptied)
    × (w'.is_open ≡ true)
    × ((f : ℕ)
        → w'.files f
          ≡ [] ++ copies (times f (pcap 1 (not_close (pcap 2 plain)))) (joined to_web.slices))
stack_outbound_by-copies_example =
    stack_outbound_by-copies buffers capture_files none web (pcap 1 (not_close (pcap 2 plain)))
      world into emptied to_web (λ f ip files. refl) took

none_yet : pick (some web) (new_list 8) ≡ returns (none, new_list 8)
unfolding pick get_by take_match new_list new_slice
none_yet = refl

lost_wakeup_example :
    (s : State) × Runs (Step (some web)) (start (new_list 8)) s
    × (s.queue.s ≡ kept (new_list 8) ++ to_web ∷ [])
    × ((t : State) → Runs (Quiet (some web)) s t → (t.reader ≡ waiting) × (t.queue ≡ s.queue))
lost_wakeup_example = lost_wakeup (some web) to_web (new_list 8) (new_list-IsValid 8) none_yet
