-- ===== src/Words/Bits.antt =====
-- `&`, `|` and `^` at variables, from the recursion on binary digits that the native operations
-- stand for.
use Prim.Native.Nat.{
  min, max, digits, bitwise, bit_and-bitwise, bit_or-bitwise, bit_xor-bitwise, differ,
}
use ventus_gpgpu_sbt_simulat.Prelude.{
  ℕ, zero, suc, ◌+◌, ◌-◌, ◌*◌, ◌/◌, ◌%◌, ◌^◌, ◌≤◌, ◌<◌, ◌≡◌, refl, ap, arith, ◌∙◌, bit_and, bit_or,
  bit_xor, Bool-cases, ==_iff, ◌==◌, inl, inr, sym,
}
use mathlib.Core.Path.{subst}
use native.Mathlib.Nat.{le_refl, pow-suc, one-le-pow}

-- Fuel that covers the first number is as good as that number itself.
module _ (rest : ℕ → ℕ) (op : ℕ → ℕ → ℕ) where
  one_more : (k x y : ℕ) → x ≤ k → digits rest op (suc k) x y ≡ digits rest op k x y
  one_more zero zero y h = refl
  one_more zero (suc x) y h = absurd (omega arith)
  one_more (suc k) zero y h = refl
  one_more (suc k) (suc x) y h =
      ap (λ (t : ℕ). t * 2 + op (suc x % 2) (y % 2)) (one_more k (suc x / 2) (y / 2) (omega arith))

  digits-bitwise : (k x y : ℕ) → x ≤ k → digits rest op k x y ≡ bitwise rest op x y
  digits-bitwise zero zero y h = refl
  digits-bitwise zero (suc x) y h = absurd (omega arith)
  digits-bitwise (suc k) x y h = elim (Bool-cases (x == suc k)) [
    | inl all ↦
        let e : x ≡ suc k = (==_iff x (suc k)).0 all in
        subst (λ t. digits rest op (suc k) t y ≡ bitwise rest op t y) (sym e) refl
    | inr fewer ↦
        let below : x ≤ k = ground arith in one_more k x y below ∙ digits-bitwise k x y below
  ]

  bitwise_low :
      (x y : ℕ)
      → op (suc x % 2) (y % 2) + 2 * bitwise rest op (suc x / 2) (y / 2) ≡ bitwise rest op (suc x) y
  bitwise_low x y = omega (arith, digits-bitwise x (suc x / 2) (y / 2) (omega arith))

pub bit_or_low : (x y : ℕ) → max (x % 2) (y % 2) + 2 * bit_or (x / 2) (y / 2) ≡ bit_or x y
bit_or_low zero y = simp bit_or-bitwise (omega arith)
bit_or_low (suc x) y = simp bit_or-bitwise (bitwise_low (λ t. t) max x y)

pub bit_and_low : (x y : ℕ) → min (x % 2) (y % 2) + 2 * bit_and (x / 2) (y / 2) ≡ bit_and x y
bit_and_low zero y = simp bit_and-bitwise (omega arith)
bit_and_low (suc x) y = simp bit_and-bitwise (bitwise_low (λ t. 0) min x y)

differ-digits : (x y : ℕ) → x < 2 → y < 2 → differ x y ≡ (x + y) % 2
differ-digits zero y p q = omega arith
differ-digits (suc zero) zero p q = refl
differ-digits (suc zero) (suc zero) p q = refl
differ-digits (suc zero) (suc (suc y)) p q = absurd (omega arith)
differ-digits (suc (suc x)) y p q = absurd (omega arith)

bit_xor_low : (x y : ℕ) → differ (x % 2) (y % 2) + 2 * bit_xor (x / 2) (y / 2) ≡ bit_xor x y
bit_xor_low zero y = simp bit_xor-bitwise (omega arith)
bit_xor_low (suc x) y = simp bit_xor-bitwise (bitwise_low (λ t. t) differ x y)

bit_xor_step : (a b : ℕ) → bit_xor a b ≡ bit_xor (a / 2) (b / 2) * 2 + (a % 2 + b % 2) % 2
bit_xor_step a b =
    omega (arith, bit_xor_low a b, differ-digits (a % 2) (b % 2) (omega arith) (omega arith))

-- Induction from the half of a number to the number.
halves_to : (P : ℕ → Type 0) → P 0 → ((x : ℕ) → P (suc x / 2) → P (suc x)) → (k x : ℕ) → x ≤ k → P x
halves_to P base up k zero h = base
halves_to P base up zero (suc x) h = absurd (omega arith)
halves_to P base up (suc k) (suc x) h = up x (halves_to P base up k (suc x / 2) (omega arith))

bit_or-zero : (x : ℕ) → bit_or x 0 ≡ x
bit_or-zero x =
    halves_to (λ t. bit_or t 0 ≡ t) refl (λ t half. omega (arith, half, bit_or_low (suc t) 0)) x x
      (le_refl x)

bit_and-zero : (x : ℕ) → bit_and x 0 ≡ 0
bit_and-zero x =
    halves_to (λ t. bit_and t 0 ≡ 0) refl (λ t half. omega (arith, half, bit_and_low (suc t) 0)) x x
      (le_refl x)

mul-two_pow-suc : (q k : ℕ) → q * 2 ^ suc k ≡ 2 * (q * 2 ^ k)
mul-two_pow-suc q k = omega (arith, ap (λ (t : ℕ). q * t) (pow-suc 2 k))

-- `(q << k) | r` is a sum when `r` fits `k` bits.
pub bit_or_fields : (k q r : ℕ) → r < 2 ^ k → bit_or (q * 2 ^ k) r ≡ q * 2 ^ k + r
bit_or_fields zero q r fits = ground (arith, bit_or-zero q)
bit_or_fields (suc k) q r fits = ground (
  arith,
  bit_or_low (q * 2 ^ suc k) r,
  mul-two_pow-suc q k,
  bit_or_fields k q (r / 2) (omega arith),
)

bit_and_fields : (k q r : ℕ) → r < 2 ^ k → bit_and (q * 2 ^ k + r) (2 ^ k - 1) ≡ r
bit_and_fields zero q r fits = rw (bit_and-zero (q * 1 + r)) (omega arith)
bit_and_fields (suc k) q r fits = ground (
  arith,
  bit_and_low (q * 2 ^ suc k + r) (2 ^ suc k - 1),
  mul-two_pow-suc q k,
  pow-suc 2 k,
  bit_and_fields k q (r / 2) (omega arith),
)

-- A mask of `k` low bits is the remainder by `2 ^ k`.
pub bit_and_mask : (k a : ℕ) → bit_and a (2 ^ k - 1) ≡ a % 2 ^ k
bit_and_mask k a = ground (arith, one-le-pow k 2, bit_and_fields k (a / 2 ^ k) (a % 2 ^ k))

-- The bit above the low `k` of a number of `k + 1` bits is flipped by `^ (1 << k)`.
pub bit_xor_top :
    (k h r : ℕ) → h < 2 → r < 2 ^ k → bit_xor (h * 2 ^ k + r) (2 ^ k) ≡ (1 - h) * 2 ^ k + r
bit_xor_top zero zero zero hb fits = refl
bit_xor_top zero (suc zero) zero hb fits = refl
bit_xor_top zero (suc (suc h)) r hb fits = absurd (omega arith)
bit_xor_top zero h (suc r) hb fits = absurd (omega arith)
bit_xor_top (suc k) h r hb fits = ground (
  arith,
  bit_xor_step (h * 2 ^ suc k + r) (2 ^ suc k),
  mul-two_pow-suc h k,
  mul-two_pow-suc (1 - h) k,
  pow-suc 2 k,
  bit_xor_top k h (r / 2) hb (omega arith),
)

-- `r | (q << k)` is the same sum.
pub bit_or_fields_swap : (k q r : ℕ) → r < 2 ^ k → bit_or r (q * 2 ^ k) ≡ q * 2 ^ k + r
bit_or_fields_swap zero q zero fits = bit_or-bitwise 0 (q * 2 ^ 0) ∙ omega arith
bit_or_fields_swap zero q (suc r) fits = absurd (omega arith)
bit_or_fields_swap (suc k) q r fits = ground (
  arith,
  bit_or_low r (q * 2 ^ suc k),
  mul-two_pow-suc q k,
  bit_or_fields_swap k q (r / 2) (omega arith),
)

-- A mask that is clear in its low `k` bits clears those of the number.
pub bit_and_high :
    (k q r m : ℕ) → r < 2 ^ k → bit_and (q * 2 ^ k + r) (m * 2 ^ k) ≡ bit_and q m * 2 ^ k
bit_and_high zero q zero m fits =
    let e : q * 2 ^ 0 + 0 ≡ q = omega arith in
    let f : m * 2 ^ 0 ≡ m = omega arith in rw (e, f) (omega arith)
bit_and_high zero q (suc r) m fits = absurd (omega arith)
bit_and_high (suc k) q r m fits = ground (
  arith,
  bit_and_low (q * 2 ^ suc k + r) (m * 2 ^ suc k),
  mul-two_pow-suc q k,
  mul-two_pow-suc m k,
  mul-two_pow-suc (bit_and q m) k,
  bit_and_high k q (r / 2) m (omega arith),
)
