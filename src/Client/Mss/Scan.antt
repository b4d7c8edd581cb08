-- ===== src/Client/Mss/Scan.antt =====
-- client.go: the loop of `UpdateTcpMssOption` over the TCP options.
use fatun.Base.{
  ℕ, zero, suc, ◌+◌, ◌/◌, ◌%◌, ◌<◌, ◌≤◌, ◌≢◌, ◌≡◌, ◌||◌, refl, sym, ap, subst, ◌∙◌, none, some,
  List, [], ◌∷◌, returns, if◌then◌else◌, leb, ◌=ᵇ◌, Option-cases, Bool-cases, inl, inr, ◌⊎◌, length,
  get_elem?, set, arith,
}
use fatun.Client.Mss.{
  TcpLib, Delta, complement, part, put16, Round, done, goto, round, scan, write_mss,
}

pub get_elem?-set_ne : (xs : List ℕ) (i j v : ℕ) → i ≢ j → get_elem? (set xs i v) j ≡ get_elem? xs j
get_elem?-set_ne [] i j v h = refl
get_elem?-set_ne (x ∷ xs) zero zero v h = absurd (h refl)
get_elem?-set_ne (x ∷ xs) zero (suc j) v h = refl
get_elem?-set_ne (x ∷ xs) (suc i) zero v h = refl
get_elem?-set_ne (x ∷ xs) (suc i) (suc j) v h = get_elem?-set_ne xs i j v (λ e. h (ap suc e))

get_elem?-set_self :
    (xs : List ℕ) (i v b : ℕ) → get_elem? xs i ≡ some b → get_elem? (set xs i v) i ≡ some v
get_elem?-set_self [] i v b h = ground arith
get_elem?-set_self (x ∷ xs) zero v b h = refl
get_elem?-set_self (x ∷ xs) (suc i) v b h = get_elem?-set_self xs i v b h

Round-cases : (r : Round) → ((a : _) × (r ≡ done a)) ⊎ ((j : ℕ) × (r ≡ goto j))
Round-cases (done a) = inl (a, refl)
Round-cases (goto j) = inr (j, refl)

Nat-cases : (n : ℕ) → (n ≡ 0) ⊎ (0 < n)
Nat-cases zero = inl refl
Nat-cases (suc n) = inr (omega arith)

-- The length byte of each option that has one is not zero.
unfoldable pub HasLengths : List ℕ → Type 0
HasLengths hdr =
    (i kind : ℕ) → get_elem? hdr i ≡ some kind → 2 < kind → get_elem? hdr (i + 1) ≢ some 0

module _ (lib : TcpLib) where
  -- A round that goes on goes forward.
  round-forward :
      (hdr : List ℕ) (n : ℕ) (delta : Delta) (old_sum i j : ℕ)
      → HasLengths hdr
      → round lib hdr n delta old_sum i ≡ goto j
      → i < j
  unfolding round HasLengths
  round-forward hdr n delta old_sum i j h e = elim (Option-cases (get_elem? hdr i)) [
    | inl p ↦ ground (arith, p, e)
    | inr (kind, p) ↦ elim (Option-cases (get_elem? hdr (i + 1))) [
      | inl q ↦ ground (arith, p, q, e)
      | inr (len, q) ↦ ground (arith, p, q, e, h i kind p)
    ]
  ]

  pub scan_ends :
      (fuel : ℕ) (hdr : List ℕ) (n : ℕ) (delta : Delta) (old_sum i : ℕ)
      → HasLengths hdr
      → n < i + fuel
      → 0 < fuel
      → ¬ scan lib fuel hdr n delta old_sum i ≡ none
  unfolding scan
  scan_ends zero hdr n delta old_sum i h enough pos e = absurd (omega arith)
  scan_ends (suc fuel) hdr n delta old_sum i h enough pos e =
      elim (Round-cases (round lib hdr n delta old_sum i)) [
        | inl (r, p) ↦ ground (arith, p, e)
        | inr (j, p) ↦
            let forward : i < j = round-forward hdr n delta old_sum i j h p in
            elim (Nat-cases fuel) [
              | inl z ↦ ground (arith, e, p)
              | inr z ↦ ground (arith, p, e, scan_ends fuel hdr n delta old_sum j h (omega arith) z)
            ]
      ]

  -- An unknown option whose length byte is zero holds the loop where it is.
  pub scan_stuck :
      (fuel : ℕ) (hdr : List ℕ) (n : ℕ) (delta : Delta) (old_sum i kind : ℕ)
      → get_elem? hdr i ≡ some kind
      → 2 < kind
      → get_elem? hdr (i + 1) ≡ some 0
      → i + 1 < n
      → scan lib fuel hdr n delta old_sum i ≡ none
  unfolding scan round
  scan_stuck zero hdr n delta old_sum i kind p big q inside = refl
  scan_stuck (suc fuel) hdr n delta old_sum i kind p big q inside =
      ground (arith, p, q, scan_stuck fuel hdr n delta old_sum i kind p big q inside)

  -- The bytes after the option at `i` was written: only those of the option and of the checksum
  -- may differ.
  pub Rewritten : List ℕ → List ℕ → ℕ → ℕ → Type 0
  Rewritten hdr out i v =
      (j : ℕ)
      → get_elem? out j ≡ (
          if (j =ᵇ 16) || (j =ᵇ 17)
          then get_elem? out j
          else if j =ᵇ (i + 2)
          then some (v / 256 % 256)
          else if j =ᵇ (i + 3)
          then some (v % 256)
          else get_elem? hdr j)

  put16_read :
      (hdr : List ℕ) (i v c high low j : ℕ)
      → get_elem? hdr i ≡ some high
      → get_elem? hdr (i + 1) ≡ some low
      → get_elem? (put16 hdr i v) j ≡ (
          if j =ᵇ i
          then some (v / 256 % 256)
          else if j =ᵇ (i + 1)
          then some (v % 256)
          else get_elem? hdr j)
  unfolding put16
  put16_read hdr i v c high low j p q =
      let first = set hdr i (v / 256 % 256) in
      ground (
        arith,
        get_elem?-set_self hdr i (v / 256 % 256) high p,
        get_elem?-set_self first (i + 1) (v % 256) low
            (get_elem?-set_ne hdr i (i + 1) (v / 256 % 256) (omega arith) ∙ q),
        get_elem?-set_ne first (i + 1) j (v % 256),
        get_elem?-set_ne hdr i j (v / 256 % 256),
      )

  put16_lem :
      (hdr : List ℕ) (i v c high low : ℕ)
      → get_elem? hdr (i + 2) ≡ some high
      → get_elem? hdr (i + 3) ≡ some low
      → Rewritten hdr (lib.set_checksum c (put16 hdr (i + 2) v)) i v
  unfolding Rewritten
  put16_lem hdr i v c high low p q j =
      let next : i + 3 ≡ i + 2 + 1 = omega arith in
      ground (
        arith,
        lib.get_elem?-set_checksum c (put16 hdr (i + 2) v) j,
        put16_read hdr (i + 2) v c high low j p (ap (get_elem? hdr) (sym next) ∙ q),
      )

  write_mss_shape :
      (hdr out : List ℕ) (n old_sum i old new : ℕ)
      → n % 4 ≡ 0
      → i + 4 ≤ n
      → write_mss lib hdr n old_sum i old new ≡ returns (none, out)
      → (c : ℕ) × (lib.set_checksum c (put16 hdr (i + 2) (new % 65536)) ≡ out)
  unfolding write_mss
  write_mss_shape hdr out n old_sum i old new quarter inside e =
      let v = new % 65536 in
      let even_sum = lib.combine (lib.combine old_sum (complement old)) v in
      let before = lib.checksum (part hdr (i + 1) (i + 5)) 0 in
      let after = lib.checksum (part (put16 hdr (i + 2) v) (i + 1) (i + 5)) 0 in
      let odd_sum = lib.combine (lib.combine old_sum (complement before)) after in
      elim (Bool-cases (((i + 2) % 2) =ᵇ 0)) [
        | inl even ↦ (complement even_sum, ground (arith, even, e))
        | inr odd ↦ elim (Bool-cases (leb (i + 5) (length hdr))) [
          | inl fits ↦ (complement odd_sum, ground (arith, odd, fits, e))
          | inr short ↦ absurd (ground (arith, odd, short, e))
        ]
      ]

  pub write_mss_lem :
      (hdr out : List ℕ) (n old_sum i old new high low : ℕ)
      → n % 4 ≡ 0
      → i + 4 ≤ n
      → get_elem? hdr (i + 2) ≡ some high
      → get_elem? hdr (i + 3) ≡ some low
      → write_mss lib hdr n old_sum i old new ≡ returns (none, out)
      → Rewritten hdr out i (new % 65536)
  write_mss_lem hdr out n old_sum i old new high low quarter inside p q e =
      let (c, shape) = write_mss_shape hdr out n old_sum i old new quarter inside e in
      subst (λ o. Rewritten hdr o i (new % 65536)) shape
        (put16_lem hdr i (new % 65536) c high low p q)
