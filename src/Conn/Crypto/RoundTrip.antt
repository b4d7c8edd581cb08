-- ===== src/Conn/Crypto/RoundTrip.antt =====
-- conn/crypto.go: `encrypt` and `decrypt` together.
use fatun.Base.{
  ℕ, zero, suc, ◌+◌, ◌≤◌, ◌≡◌, refl, ap, List, [], ◌∷◌, ◌++◌, none, some, returns, length, take,
  drop, length-take, length-drop, length-append, arith,
}
use fatun.Conn.Crypto.{AeadLib, encrypt, decrypt}

take-append_self : (xs ys : List ℕ) (n : ℕ) → length xs ≡ n → take n (xs ++ ys) ≡ xs
take-append_self [] ys zero h = refl
take-append_self [] ys (suc n) h = absurd (omega arith)
take-append_self (x ∷ xs) ys zero h = absurd (omega arith)
take-append_self (x ∷ xs) ys (suc n) h = ap (λ zs. x ∷ zs) (take-append_self xs ys n (omega arith))

drop-append_self : (xs ys : List ℕ) (n : ℕ) → length xs ≡ n → drop n (xs ++ ys) ≡ ys
drop-append_self [] ys zero h = refl
drop-append_self [] ys (suc n) h = absurd (omega arith)
drop-append_self (x ∷ xs) ys zero h = absurd (omega arith)
drop-append_self (x ∷ xs) ys (suc n) h = drop-append_self xs ys n (omega arith)

pub take-drop : (n : ℕ) (xs : List ℕ) → take n xs ++ drop n xs ≡ xs
take-drop zero xs = refl
take-drop (suc n) [] = refl
take-drop (suc n) (x ∷ xs) = ap (λ zs. x ∷ zs) (take-drop n xs)

module _ (aead : AeadLib) where
  -- A packet that holds its header is encrypted to one that is 16 bytes longer and has the same
  -- header, and decrypting that gives the packet back without an error.
  pub decrypt-encrypt :
      (header_size : ℕ) (b : List ℕ)
      → header_size ≤ length b
      → (sealed : List ℕ) × (encrypt aead header_size b ≡ returns sealed)
        × (length sealed ≡ length b + 16)
        × (take header_size sealed ≡ take header_size b)
        × (decrypt aead header_size sealed ≡ (none, b))
  unfolding encrypt decrypt
  decrypt-encrypt header_size b long =
      let nonce = take header_size b in
      let text = drop header_size b in
      let tail = aead.seal nonce text in
      let whole = nonce ++ tail in
      let size : length nonce ≡ header_size = omega (arith, length-take header_size b) in
      let total : length whole ≡ length b + 16 = omega (
        arith,
        size,
        length-append nonce tail,
        aead.length-seal nonce text,
        length-drop header_size b,
      ) in
      let front = take-append_self nonce tail header_size size in
      let back = drop-append_self nonce tail header_size size in
      let opened : aead.open_sealed (take header_size whole) (drop header_size whole) ≡ some text =
        rw (front, back) (aead.open_sealed-seal nonce text) in
      (
        whole,
        ground arith,
        total,
        front,
        ground (arith, total, opened, front, take-drop header_size b),
      )
