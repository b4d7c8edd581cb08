-- ===== src/Base/Results.antt =====
-- The results of Go calls: a value with or without an error, and a run that may panic.
use mathlib.Core.Path.{◌≡◌, refl}
use mathlib.Core.Logic.{◌⊎◌, inl, inr}
use mathlib.Core.Option.{Option, none, some}

-- A Go `error` that is not nil, by the place that makes it.
pub data Error : Type 0 where
  invalid_remote unknown_proto invalid_peer nil_peer short_packet not_ipv4 bad_version : Error
  not_supported invalid_mss invalid_tcp open_failed closed no_buffer short_buff short_cipher
        bad_cipher close_timeout :
      Error
  -- an error of the operating system or of a library, by its number
  os_error : Prim.Native.Nat.ℕ → Error

-- `(value, nil)` or `(zero, err)`.
pub data Fallible {ℓ} (A : Type ℓ) : Type ℓ where
  ok : A → Fallible A
  err : Error → Fallible A

pub Fallible-cases {ℓ} :
    {A : Type ℓ} (r : Fallible A) → ((a : A) × (r ≡ ok a)) ⊎ ((e : Error) × (r ≡ err e))
Fallible-cases (ok a) = inl (a, refl)
Fallible-cases (err e) = inr (e, refl)

-- A call that returns, or that panics.
pub data Run {ℓ} (A : Type ℓ) : Type ℓ where
  returns : A → Run A
  panics : Run A

infixl 5 ◌>>=◌
abbrev pub ◌>>=◌ {ℓ κ} : {A : Type ℓ} {B : Type κ} → Run A → (A → Run B) → Run B
returns a >>= f = f a
panics >>= f = panics

-- The first error of two, as in `if e := first(); e != nil { return e }`.
abbrev pub last_error : Option Error → Option Error → Option Error
last_error kept none = kept
last_error kept (some e) = some e

pub Run-cases {ℓ} : {A : Type ℓ} (r : Run A) → (r ≡ panics) ⊎ ((a : A) × (r ≡ returns a))
Run-cases (returns a) = inr (a, refl)
Run-cases panics = inl refl
