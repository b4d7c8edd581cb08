-- ===== src/Tests/Headers.antt =====
-- The laws of IPv4 headers at the concrete header.
use fatun.Base.{
  ℕ, zero, suc, ◌+◌, ◌*◌, ◌/◌, ◌%◌, ◌^◌, ◌<◌, ◌≤◌, ◌≡◌, refl, sym, ap, ◌∙◌, length-take, List, [],
  ◌∷◌, ◌++◌, arith, length, length-append, take, drop, set, get_or, get_or-set_ne,
}
use fatun.Net.{be_bytes}
use fatun.Checksum.{Ip4Fields}
use fatun.Tests.Wire.{write16, wire, number, ip4_header}
use fatun.Tests.Sums.{length-write16}
use fatun.Tunnel.{Holds, HeaderLaws}

number-be_bytes : (a : ℕ) → a < 2 ^ 32 → number 0 (be_bytes 4 a) ≡ a
unfolding be_bytes
number-be_bytes a h = omega arith

length-ip4_header : (f : Ip4Fields) → length (ip4_header f) ≡ 20
unfolding be_bytes
length-ip4_header f = refl

drop_room : (room b : List ℕ) → drop (length room) (room ++ b) ≡ b
drop_room [] b = refl
drop_room (x ∷ room) b = drop_room room b

pub Holds-encode :
    (f : Ip4Fields) (room payload : List ℕ)
    → length room ≡ 20
    → f.src_addr < 2 ^ 32
    → f.dst_addr < 2 ^ 32
    → Holds wire f payload (wire.encode_ip4 f (room ++ payload))
unfolding be_bytes
Holds-encode f room payload size sa da =
    let behind : drop 20 (room ++ payload) ≡ payload =
      ap (λ n. drop n (room ++ payload)) (sym size) ∙ drop_room room payload in
    record {
      header_length = refl;
      protocol = refl;
      source = number-be_bytes f.src_addr sa;
      destination = number-be_bytes f.dst_addr da;
      payload_of = behind;
      whole = omega (arith, ap length behind);
    }

drop_past : (n i v : ℕ) (xs : List ℕ) → i < n → drop n (set xs i v) ≡ drop n xs
drop_past zero i v xs h = absurd (omega arith)
drop_past (suc n) i v [] h = refl
drop_past (suc n) zero v (x ∷ xs) h = refl
drop_past (suc n) (suc i) v (x ∷ xs) h = drop_past n i v xs (omega arith)

drop_sum : (n c : ℕ) (ip : List ℕ) → 11 < n → drop n (write16 10 c ip) ≡ drop n ip
drop_sum n c ip h =
    drop_past n 11 (c % 256) (set ip 10 (c / 256 % 256)) h
    ∙ drop_past n 10 (c / 256 % 256) ip (omega arith)

get_or-sum : (i c : ℕ) (ip : List ℕ) → i < 10 → get_or (write16 10 c ip) i 0 ≡ get_or ip i 0
get_or-sum i c ip h =
    get_or-set_ne (set ip 10 (c / 256 % 256)) 11 i (c % 256) 0 (omega arith)
    ∙ get_or-set_ne ip 10 i (c / 256 % 256) 0 (omega arith)

pub Holds-checksum :
    (f : Ip4Fields) (payload ip : List ℕ) (c : ℕ)
    → Holds wire f payload ip
    → Holds wire f payload (wire.set_ip4_checksum c ip)
Holds-checksum f payload ip c held =
    let first = get_or-sum 0 c ip (omega arith) in
    let size = ap (λ x. 4 * (x % 16)) first in
    record {
      header_length = size ∙ held.header_length;
      protocol = get_or-sum 9 c ip (omega arith) ∙ held.protocol;
      source = ap (λ b. number 0 (take 4 b)) (drop_sum 12 c ip (omega arith)) ∙ held.source;
      destination =
          ap (λ b. number 0 (take 4 b)) (drop_sum 16 c ip (omega arith)) ∙ held.destination;
      payload_of =
          ap (λ n. drop n (write16 10 c ip)) (size ∙ held.header_length)
          ∙ (drop_sum 20 c ip (omega arith)
              ∙ (sym (ap (λ n. drop n ip) held.header_length) ∙ held.payload_of));
      whole = length-write16 10 c ip ∙ held.whole;
    }

-- Reads of the first `n` elements do not see what stands behind them.
get_or-front :
    (n i : ℕ) (xs ys : List ℕ)
    → i < n
    → n ≤ length xs
    → get_or (take n xs ++ ys) i 0 ≡ get_or xs i 0
get_or-front zero i xs ys h size = absurd (omega arith)
get_or-front (suc n) i [] ys h size = absurd (omega arith)
get_or-front (suc n) zero (x ∷ xs) ys h size = refl
get_or-front (suc n) (suc i) (x ∷ xs) ys h size = get_or-front n i xs ys (omega arith) (omega arith)

take_front :
    (n m : ℕ) (xs ys : List ℕ) → m ≤ n → n ≤ length xs → take m (take n xs ++ ys) ≡ take m xs
take_front n zero xs ys h size = refl
take_front zero (suc m) xs ys h size = absurd (omega arith)
take_front (suc n) (suc m) [] ys h size = absurd (omega arith)
take_front (suc n) (suc m) (x ∷ xs) ys h size =
    ap (λ zs. x ∷ zs) (take_front n m xs ys (omega arith) (omega arith))

part_front :
    (k n m : ℕ) (xs ys : List ℕ)
    → k + m ≤ n
    → n ≤ length xs
    → take m (drop k (take n xs ++ ys)) ≡ take m (drop k xs)
part_front zero n m xs ys h size = take_front n m xs ys (omega arith) size
part_front (suc k) zero m xs ys h size = absurd (omega arith)
part_front (suc k) (suc n) m [] ys h size = absurd (omega arith)
part_front (suc k) (suc n) m (x ∷ xs) ys h size = part_front k n m xs ys (omega arith) (omega arith)

pub Holds-payload :
    (f : Ip4Fields) (old new ip : List ℕ)
    → Holds wire f old ip
    → length new ≡ length old
    → Holds wire f new (take 20 ip ++ new)
Holds-payload f old new ip held same =
    let long : 20 ≤ length ip = omega (arith, held.whole) in
    let front : length (take 20 ip) ≡ 20 = omega (arith, length-take 20 ip) in
    let size =
      ap (λ x. 4 * (x % 16)) (get_or-front 20 0 ip new (omega arith) long) ∙ held.header_length in
    record {
      header_length = size;
      protocol = get_or-front 20 9 ip new (omega arith) long ∙ held.protocol;
      source = ap (number 0) (part_front 12 20 4 ip new (omega arith) long) ∙ held.source;
      destination = ap (number 0) (part_front 16 20 4 ip new (omega arith) long) ∙ held.destination;
      payload_of =
          ap (λ n. drop n (take 20 ip ++ new)) (size ∙ sym front) ∙ drop_room (take 20 ip) new;
      whole = length-append (take 20 ip) new ∙ ap (λ n. n + length new) front;
    }

abbrev pub header_laws : HeaderLaws wire
header_laws = record {
  Holds-encode_ip4 =
      λ f room payload size total short proto sa da. Holds-encode f room payload size sa da;
  Holds-set_ip4_checksum = Holds-checksum;
  Holds-append = Holds-payload;
}
