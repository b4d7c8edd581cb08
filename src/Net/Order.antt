-- ===== src/Net/Order.antt =====
-- The order of addresses in netip.
use fatun.Base.{◌≡◌, ◌⊎◌, true, false, arith}
use fatun.Net.{Addr, invalid, v4, v6, addr_less}

pub addr_less_irrefl : (a : Addr) → addr_less a a ≡ false
addr_less_irrefl invalid = ground arith
addr_less_irrefl (v4 a) = ground arith
addr_less_irrefl (v6 a) = ground arith

pub addr_less_trans :
    (a b c : Addr) → addr_less a b ≡ true → addr_less b c ≡ true → addr_less a c ≡ true
addr_less_trans a b c h k = ground arith

pub addr_less_total : (a b : Addr) → (addr_less a b ≡ true) ⊎ ((a ≡ b) ⊎ (addr_less b a ≡ true))
addr_less_total a b = ground arith
