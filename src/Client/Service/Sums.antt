-- ===== src/Client/Service/Sums.antt =====
-- client.go: what `rechecksum` leaves in a transport header.
use fatun.Base.{ℕ, ◌≤◌, ◌≡◌, sym, ap, ◌∙◌, List, length, arith}
use fatun.Checksum.{TransportLib, Wire, complement}
use fatun.Checksum.Agreement.{SumLaws}
use fatun.Client.Service.{resum}

module _ (w : Wire) (t : TransportLib) (laws : SumLaws w t) where
  -- The checksum that `rechecksum` writes into a whole transport header, whatever was there, passes
  -- the check of a receiver: its complement is the sum of the pseudo header and of the header and
  -- data with the checksum taken as 0.
  pub resum-valid :
      (psum : ℕ) (b : List ℕ)
      → laws.size ≤ length b
      → complement (t.transport_checksum (resum w t psum b))
        ≡ w.checksum (t.set_transport_checksum 0 (resum w t psum b)) psum
  unfolding resum
  resum-valid psum b whole =
      let cleared = t.set_transport_checksum 0 b in
      let sum = w.checksum cleared psum in
      let read =
        laws.transport_checksum-set_transport_checksum (complement sum) cleared
          (omega (arith, laws.length-set_transport_checksum 0 b)) (omega arith) in
      let back : complement (complement sum) ≡ sum =
        omega (arith, laws.checksum_bound cleared psum) in
      ap complement read
      ∙ (back
          ∙ ap (λ y. w.checksum y psum)
              (sym (
                laws.set_transport_checksum_twice 0 (complement sum) cleared
                ∙ laws.set_transport_checksum_twice 0 0 b)))
