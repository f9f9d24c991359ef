-- ===== src/Common/Words.antt =====
-- Little-endian words: `to_bytes k v` is a word of k bytes as the machine stores it, and
-- `of_bytes` reads it back. The machine that the program runs on is taken to be little-endian.
use native.Mathlib.Nat.{pow-suc}
use kgl.Common.{
  ℕ, zero, suc, ◌+◌, ◌*◌, ◌/◌, ◌%◌, ◌^◌, ◌<◌, ◌≡◌, refl, ap, List, [], ◌∷◌, arith, length, All,
}

abbrev pub IsByte : ℕ → Type 0
IsByte b = b < 256

abbrev pub IsU32 : ℕ → Type 0
IsU32 v = v < 256 ^ 4

unfoldable pub to_bytes : ℕ → ℕ → List ℕ
to_bytes zero v = []
to_bytes (suc k) v = (v % 256) ∷ to_bytes k (v / 256)

unfoldable pub of_bytes : List ℕ → ℕ
of_bytes [] = 0
of_bytes (b ∷ bs) = b + 256 * of_bytes bs

pub length-to_bytes : (k v : ℕ) → length (to_bytes k v) ≡ k
unfolding to_bytes
length-to_bytes zero v = refl
length-to_bytes (suc k) v = ap suc (length-to_bytes k (v / 256))

pub to_bytes-All : (k v : ℕ) → All IsByte (to_bytes k v)
unfolding to_bytes
to_bytes-All zero v = tt
to_bytes-All (suc k) v = (omega arith, to_bytes-All k (v / 256))

pub of_bytes-to_bytes : (k v : ℕ) → v < 256 ^ k → of_bytes (to_bytes k v) ≡ v
unfolding of_bytes to_bytes
of_bytes-to_bytes zero v h = omega arith
of_bytes-to_bytes (suc k) v h =
    omega (arith, pow-suc 256 k, of_bytes-to_bytes k (v / 256) (omega (arith, pow-suc 256 k)))

pub of_bytes-lt : (bs : List ℕ) → All IsByte bs → of_bytes bs < 256 ^ length bs
unfolding of_bytes
of_bytes-lt [] h = omega arith
of_bytes-lt (b ∷ bs) h = omega (arith, pow-suc 256 (length bs), of_bytes-lt bs h.1, h.0)

pub to_bytes-of_bytes : (bs : List ℕ) → All IsByte bs → to_bytes (length bs) (of_bytes bs) ≡ bs
unfolding of_bytes to_bytes
to_bytes-of_bytes [] h = refl
to_bytes-of_bytes (b ∷ bs) (p, q) =
    let low : (b + 256 * of_bytes bs) % 256 ≡ b = omega arith in
    let high : (b + 256 * of_bytes bs) / 256 ≡ of_bytes bs = omega arith in
    rw (low, high, to_bytes-of_bytes bs q)
