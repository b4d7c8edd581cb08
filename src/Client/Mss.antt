-- ===== src/Client/Mss.antt =====
-- client.go: `UpdateTcpMssOption`. A header is its bytes, in a buffer that ends with them; the views
-- of gVisor and its checksum are parameters.
pub mod Scan
pub mod Update
use fatun.Base.{
  ℕ, zero, suc, ◌+◌, ◌-◌, ◌*◌, ◌/◌, ◌%◌, ◌≢◌, ◌≡◌, Bool, true, false, Option, none, some, List,
  ◌&&◌, ◌||◌, Error, invalid_mss, invalid_tcp, Run, returns, panics, ◌>>=◌, if◌then◌else◌, ltb, leb,
  ◌=ᵇ◌, length, get_elem?, set, take, drop,
}

-- gVisor's header.TCP and its checksum package. Setting the checksum writes the bytes 16 and 17.
pub record TcpLib : Type 0 where
  pub data_offset : List ℕ → ℕ
  pub tcp_checksum : List ℕ → ℕ
  pub set_checksum : ℕ → List ℕ → List ℕ
  pub checksum : List ℕ → ℕ → ℕ
  pub combine : ℕ → ℕ → ℕ
  pub get_elem?-set_checksum :
      (c : ℕ) (h : List ℕ) (j : ℕ)
      → j ≢ 16
      → j ≢ 17
      → get_elem? (set_checksum c h) j ≡ get_elem? h j

-- The `int` that is added to the option.
pub data Delta : Type 0 where
  plus minus : ℕ → Delta

unfoldable pub is_zero : Delta → Bool
is_zero (plus n) = n =ᵇ 0
is_zero (minus n) = n =ᵇ 0

-- `new := int(old) + delta`, or `none` when it is not positive.
unfoldable pub updated : Delta → ℕ → Option ℕ
updated (plus n) old = if (old + n) =ᵇ 0 then none else some (old + n)
updated (minus n) old = if leb old n then none else some (old - n)

-- `^x` of a uint16
abbrev pub complement : ℕ → ℕ
complement x = 65535 - x

-- `hdr[i]`
pub index : List ℕ → ℕ → Run ℕ
index hdr i = elim (get_elem? hdr i) [ none ↦ panics | some b ↦ returns b ]

-- `binary.BigEndian.PutUint16(hdr[i:], v)`
pub put16 : List ℕ → ℕ → ℕ → List ℕ
put16 hdr i v = set (set hdr i (v / 256 % 256)) (i + 1) (v % 256)

-- `hdr[i:j]`
abbrev pub part : List ℕ → ℕ → ℕ → List ℕ
part hdr i j = take (j - i) (drop i hdr)

-- The error that prints `hdr[:n]`.
pub invalid_packet : List ℕ → ℕ → Run (Option Error × List ℕ)
invalid_packet hdr n = if leb n (length hdr) then returns (some invalid_tcp, hdr) else panics

-- A round of the loop returns, or goes on at another offset.
pub data Round : Type 0 where
  done : Run (Option Error × List ℕ) → Round
  goto : ℕ → Round

-- header.TCPMinimumSize
abbrev pub tcp_minimum_size : ℕ
tcp_minimum_size = 20

module _ (lib : TcpLib) where
  open lib use {data_offset, tcp_checksum, set_checksum, checksum, combine}

  -- The case of an MSS option at `i` whose old value is read.
  pub write_mss : List ℕ → ℕ → ℕ → ℕ → ℕ → ℕ → Run (Option Error × List ℕ)
  write_mss hdr n old_sum i old new =
      let v = new % 65536 in
      let hdr' = put16 hdr (i + 2) v in
      if ((i + 2) % 2) =ᵇ 0
      then returns
          (none, set_checksum (complement (combine (combine old_sum (complement old)) v)) hdr')
      else if leb (i + 5) n
      then (if leb (i + 5) (length hdr)
          then (let sum = combine old_sum (complement (checksum (part hdr (i + 1) (i + 5)) 0)) in
              returns (
                none,
                set_checksum (complement (combine sum (checksum (part hdr' (i + 1) (i + 5)) 0)))
                    hdr',
              ))
          else panics)
      else returns (none, hdr)

  pub mss_option : List ℕ → ℕ → Delta → ℕ → ℕ → Run (Option Error × List ℕ)
  mss_option hdr n delta old_sum i =
      if leb (i + 4) n
      then (index hdr (i + 1) >>= λ len.
          if len =ᵇ 4
          then (index hdr (i + 2) >>= λ high. index hdr (i + 3) >>= λ low.
              elim (updated delta (high * 256 + low)) [
                | none ↦ returns (some invalid_mss, hdr)
                | some new ↦ write_mss hdr n old_sum i (high * 256 + low) new
              ])
          else invalid_packet hdr n)
      else invalid_packet hdr n

  -- One round of the loop at the offset `i`.
  pub round : List ℕ → ℕ → Delta → ℕ → ℕ → Round
  round hdr n delta old_sum i = elim (get_elem? hdr i) [
    | none ↦ done panics
    | some kind ↦
        if kind =ᵇ 2
        then done (mss_option hdr n delta old_sum i)
        else if kind =ᵇ 1
        then goto (i + 1)
        else if kind =ᵇ 0
        then done (returns (none, hdr))
        else if ltb (i + 1) n
        then elim (get_elem? hdr (i + 1)) [ none ↦ done panics | some len ↦ goto (i + len) ]
        else done (invalid_packet hdr n)
  ]

  -- The loop; `none` when it has not returned within the fuel.
  pub scan : ℕ → List ℕ → ℕ → Delta → ℕ → ℕ → Option (Run (Option Error × List ℕ))
  scan zero hdr n delta old_sum i = none
  scan (suc fuel) hdr n delta old_sum i =
      if ltb i n
      then elim (round hdr n delta old_sum i) [
        | done r ↦ some r
        | goto j ↦ scan fuel hdr n delta old_sum j
      ]
      else some (returns (none, hdr))

  -- `UpdateTcpMssOption`
  pub update_tcp_mss_option : ℕ → List ℕ → Delta → Option (Run (Option Error × List ℕ))
  update_tcp_mss_option fuel hdr delta =
      let n = data_offset hdr in
      let rest = scan fuel hdr n delta (complement (tcp_checksum hdr)) tcp_minimum_size in
      elim (ltb tcp_minimum_size n) [
        | true ↦ elim (is_zero delta) [ true ↦ some (returns (none, hdr)) | false ↦ rest ]
        | false ↦ some (returns (none, hdr))
      ]
