-- ===== src/Decode/Order.antt =====
-- `std::sort` of the patterns in `decode_text`: the masks with the most bits first, and then by
-- name. The comparison of a null name is undefined in the source and reads "" here. `std::sort` may
-- leave patterns of one bit count and one name in any order; here they keep the table's.
use ventus_gpgpu_sbt_simulat.Prelude.{
  ℕ, zero, suc, ◌+◌, ◌/◌, ◌%◌, if◌then◌else◌, ◌==◌, ltb, Bool, true, false, List, [], ◌∷◌,
}
use mathlib.Core.Option
use ventus_gpgpu_sbt_simulat.Prelude.Texts.{text_lt}
use ventus_gpgpu_sbt_simulat.Decode.Types.{Pattern}

-- The one bits among the lowest `k`.
unfoldable pub count_ones : ℕ → ℕ → ℕ
count_ones zero x = 0
count_ones (suc k) x = x % 2 + count_ones k (x / 2)

-- `std::popcount` of a uint32_t.
unfoldable pub popcount : ℕ → ℕ
unfolding count_ones
popcount x = count_ones 32 x

-- The comparison: `a` comes before `b`.
unfoldable pub before : Pattern → Pattern → Bool
before a b =
    let pa = popcount a.mask in
    let pb = popcount b.mask in
    if pa == pb then text_lt (Option.get_or a.name "") (Option.get_or b.name "") else ltb pb pa

unfoldable pub insert_pattern : Pattern → List Pattern → List Pattern
insert_pattern p [] = p ∷ []
insert_pattern p (q ∷ qs) = elim (before q p) [
  | true ↦ q ∷ insert_pattern p qs
  | false ↦ p ∷ q ∷ qs
]

unfoldable pub sort_patterns : List Pattern → List Pattern
unfolding insert_pattern
sort_patterns [] = []
sort_patterns (p ∷ ps) = insert_pattern p (sort_patterns ps)
