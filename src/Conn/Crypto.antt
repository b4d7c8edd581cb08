-- ===== src/Conn/Crypto.antt =====
-- conn/crypto.go: encryption of a packet behind its header, which serves as the nonce.
pub mod RoundTrip
use fatun.Base.{
  ℕ, ◌+◌, ◌≡◌, List, ◌++◌, Option, none, some, Error, short_cipher, bad_cipher, Run, returns,
  panics, if◌then◌else◌, ltb, length, take, drop,
}

-- cipher.AEAD of the Go library with no additional data: sealing adds a tag of 16 bytes, and opening
-- with the same nonce gives the text back. When opening fails, the text may be overwritten.
pub record AeadLib : Type 0 where
  pub seal : List ℕ → List ℕ → List ℕ
  pub open_sealed : List ℕ → List ℕ → Option (List ℕ)
  pub overwritten : List ℕ → List ℕ → List ℕ
  pub length-seal : (nonce text : List ℕ) → length (seal nonce text) ≡ length text + 16
  pub open_sealed-seal : (nonce text : List ℕ) → open_sealed nonce (seal nonce text) ≡ some text

-- The length of the tag, the constant `bytes`.
abbrev pub tag_bytes : ℕ
tag_bytes = 16

module _ (aead : AeadLib) (header_size : ℕ) where
  -- `encrypt`; slicing the header off a packet that is shorter panics.
  pub encrypt : List ℕ → Run (List ℕ)
  encrypt b =
      if ltb (length b) header_size
      then panics
      else returns (take header_size b ++ aead.seal (take header_size b) (drop header_size b))

  -- `decrypt`
  pub decrypt : List ℕ → Option Error × List ℕ
  decrypt b =
      let nonce = take header_size b in
      if ltb (length b) (header_size + tag_bytes)
      then (some short_cipher, b)
      else elim (aead.open_sealed nonce (drop header_size b)) [
        | none ↦ (some bad_cipher, nonce ++ aead.overwritten nonce (drop header_size b))
        | some text ↦ (none, nonce ++ text)
      ]
