-- ===== src/Words/Laws.antt =====
-- The bit operations as arithmetic, at the widths that the decoder uses.
use ventus_gpgpu_sbt_simulat.Prelude.{
  ℕ, ◌+◌, ◌-◌, ◌*◌, ◌^◌, ◌<◌, ◌≡◌, arith, ltb, if◌then◌else◌, bit_or, bit_xor,
}
use ventus_gpgpu_sbt_simulat.Words.Bits.{bit_or_fields, bit_xor_top}

-- `a | r` is a sum, where the low `k` bits of `a` are clear and `r` fits them.
pub bit_or-disjoint : (k q : ℕ) {a r : ℕ} → a ≡ q * 2 ^ k → r < 2 ^ k → bit_or a r ≡ a + r
bit_or-disjoint k q {r = r} e fits = rw e (bit_or_fields k q r fits)

-- `x ^ (1 << k)` flips the top bit of a number of `k + 1` bits.
pub bit_xor-top :
    (k x : ℕ)
    → x < 2 ^ k + 2 ^ k
    → bit_xor x (2 ^ k) ≡ (if ltb x (2 ^ k) then x + 2 ^ k else x - 2 ^ k)
bit_xor-top k x fits = ground (arith, bit_xor_top k 0 x, bit_xor_top k 1 (x - 2 ^ k))
