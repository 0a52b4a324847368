-- ===== src/Words/Digits.antt =====
-- The binary digit of a word at a position, and what the bit operations do to it.
use Prim.Native.Nat.{min, max}
use ventus_gpgpu_sbt_simulat.Prelude.{
  ℕ, zero, suc, ◌/◌, ◌%◌, ◌^◌, ◌<◌, ◌≡◌, refl, ap, ◌∙◌, sym, arith, ◌==◌, if◌then◌else◌, bit_and,
  bit_or,
}
use ventus_gpgpu_sbt_simulat.Words.Bits.{bit_or_low, bit_and_low}
use native.Mathlib.Nat.{pow-suc, pow-succ', div-div-eq-div-mul}

-- The digit at position `k`, by halving.
pub digit : ℕ → ℕ → ℕ
digit zero x = x % 2
digit (suc k) x = digit k (x / 2)

halve : (k x : ℕ) → x / 2 ^ suc k ≡ x / 2 / 2 ^ k
halve k x = ap (λ (t : ℕ). x / t) (pow-succ' 2 k) ∙ sym (div-div-eq-div-mul x 2 (2 ^ k))

pub digit-shift : (k x : ℕ) → x / 2 ^ k % 2 ≡ digit k x
unfolding digit
digit-shift zero x = omega arith
digit-shift (suc k) x = rw (halve k x) (digit-shift k (x / 2))

pub digit-bit_or : (k a b : ℕ) → digit k (bit_or a b) ≡ max (digit k a) (digit k b)
unfolding digit
digit-bit_or zero a b = omega (arith, bit_or_low a b)
digit-bit_or (suc k) a b =
    ap (digit k)
      (let e : bit_or a b / 2 ≡ bit_or (a / 2) (b / 2) = omega (arith, bit_or_low a b) in e)
    ∙ digit-bit_or k (a / 2) (b / 2)

pub digit-bit_and : (k a b : ℕ) → digit k (bit_and a b) ≡ min (digit k a) (digit k b)
unfolding digit
digit-bit_and zero a b = omega (arith, bit_and_low a b)
digit-bit_and (suc k) a b =
    ap (digit k)
      (let e : bit_and a b / 2 ≡ bit_and (a / 2) (b / 2) = omega (arith, bit_and_low a b) in e)
    ∙ digit-bit_and k (a / 2) (b / 2)

pub digit-zero : (k : ℕ) → digit k 0 ≡ 0
unfolding digit
digit-zero zero = refl
digit-zero (suc k) = digit-zero k

pub digit-pow : (j k : ℕ) → digit j (2 ^ k) ≡ (if j == k then 1 else 0)
unfolding digit
digit-pow zero zero = refl
digit-pow zero (suc k) = grind (arith, pow-suc 2 k)
digit-pow (suc j) zero = digit-zero j ∙ ground arith
digit-pow (suc j) (suc k) =
    ap (digit j) (let e : 2 ^ suc k / 2 ≡ 2 ^ k = omega (arith, pow-suc 2 k) in e)
    ∙ digit-pow j k
    ∙ ground arith

pub digit-lt : (k x : ℕ) → digit k x < 2
unfolding digit
digit-lt zero x = omega arith
digit-lt (suc k) x = digit-lt k (x / 2)
