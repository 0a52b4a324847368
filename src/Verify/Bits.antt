-- ===== src/Verify/Bits.antt =====
-- BitSet as a set of numbers: what `test` answers after each operation.
use ventus_gpgpu_sbt_simulat.Prelude.{
  ℕ, zero, suc, ◌*◌, ◌/◌, ◌%◌, ◌^◌, ◌<◌, ◌≡◌, ◌≢◌, refl, ap, ◌∙◌, arith, false, ◌&&◌, ◌||◌, List,
  [], ◌∷◌, ◌==◌, length, get_or, set, replicate, bit_and, bit_or, Bool-cases, inl, inr, ==_iff,
}
use ventus_gpgpu_sbt_simulat.Words.{◌<<<◌, bit_and_mask}
use ventus_gpgpu_sbt_simulat.Words.Digits.{
  digit, digit-shift, digit-bit_or, digit-bit_and, digit-pow, digit-lt, digit-zero,
}
use ventus_gpgpu_sbt_simulat.Verify.BitSet.{
  BitSet, word_count, empty_set, test_word, test, set_bit, and_words, intersect,
}

test_word-digit : (w k : ℕ) → test_word w k ≡ (digit k w == 1)
unfolding test_word
test_word-digit w k = ap (λ (t : ℕ). t == 1) (bit_and_mask 1 (w / 2 ^ k) ∙ digit-shift k w)

test_word-set : (w i j : ℕ) → test_word (bit_or w (1 <<< i)) j ≡ (i == j || test_word w j)
test_word-set w i j =
    let e : 1 * 2 ^ i ≡ 2 ^ i = omega arith in
    rw e (
      rw
        (
          test_word-digit (bit_or w (2 ^ i)) j,
          test_word-digit w j,
          digit-bit_or j w (2 ^ i),
          digit-pow j i,
        )
        (ground (arith, digit-lt j w)))

test_word-and : (v w j : ℕ) → test_word (bit_and v w) j ≡ (test_word v j && test_word w j)
test_word-and v w j =
    rw
      (
        test_word-digit (bit_and v w) j,
        test_word-digit v j,
        test_word-digit w j,
        digit-bit_and j v w,
      )
      (ground (arith, digit-lt j v, digit-lt j w))

test_word-zero : (j : ℕ) → test_word 0 j ≡ false
test_word-zero j = rw (test_word-digit 0 j, digit-zero j)

pub get_or-set_self :
    {A : Type 0} (xs : List A) (i : ℕ) (v d : A) → i < length xs → get_or (set xs i v) i d ≡ v
get_or-set_self [] i v d h = absurd (omega arith)
get_or-set_self (x ∷ xs) zero v d h = refl
get_or-set_self (x ∷ xs) (suc i) v d h = get_or-set_self xs i v d (omega arith)

pub get_or-set_ne :
    {A : Type 0} (xs : List A) (i j : ℕ) (v d : A) → i ≢ j → get_or (set xs i v) j d ≡ get_or xs j d
get_or-set_ne [] i j v d ne = refl
get_or-set_ne (x ∷ xs) zero zero v d ne = absurd (ne refl)
get_or-set_ne (x ∷ xs) zero (suc j) v d ne = refl
get_or-set_ne (x ∷ xs) (suc i) zero v d ne = refl
get_or-set_ne (x ∷ xs) (suc i) (suc j) v d ne = get_or-set_ne xs i j v d (λ e. ne (ap suc e))

get_or-replicate : (n i : ℕ) → get_or {A = ℕ} (replicate n 0) i 0 ≡ 0
get_or-replicate zero i = refl
get_or-replicate (suc n) zero = refl
get_or-replicate (suc n) (suc i) = get_or-replicate n i

-- The vector has a word for the flag `i`.
abbrev pub Holds : BitSet → ℕ → Type 0
Holds s i = i / 64 < length s.words

-- Setting a flag that the vector of a BitSet holds sets that flag and no other.
pub test-set_bit : (s : BitSet) (i j : ℕ) → Holds s i → test (set_bit s i) j ≡ (i == j || test s j)
unfolding test set_bit
test-set_bit s i j h = elim (Bool-cases (i / 64 == j / 64)) [
  | inl same ↦
      let q : i / 64 ≡ j / 64 = (==_iff _ _).0 same in
      let v = bit_or (get_or s.words (j / 64) 0) (1 <<< (i % 64)) in
      rw q (
        rw (get_or-set_self s.words (j / 64) v 0 (rw q at h))
          (test_word-set (get_or s.words (j / 64) 0) (i % 64) (j % 64) ∙ ground arith))
  | inr other ↦
      let v = bit_or (get_or s.words (i / 64) 0) (1 <<< (i % 64)) in
      rw (get_or-set_ne s.words (i / 64) (j / 64) v 0 (λ e. ground arith)) (ground arith)
]

pub test-empty_set : (n j : ℕ) → test (empty_set n) j ≡ false
unfolding test empty_set
test-empty_set n j = rw (get_or-replicate (word_count n) (j / 64)) (test_word-zero (j % 64))

get_or-and_words :
    (vs ws : List ℕ) (k : ℕ)
    → k < length vs
    → get_or (and_words vs ws) k 0 ≡ bit_and (get_or vs k 0) (get_or ws k 0)
unfolding and_words
get_or-and_words [] ws k h = absurd (omega arith)
get_or-and_words (v ∷ vs) [] zero h = refl
get_or-and_words (v ∷ vs) (w ∷ ws) zero h = refl
get_or-and_words (v ∷ vs) [] (suc k) h = get_or-and_words vs [] k (omega arith)
get_or-and_words (v ∷ vs) (w ∷ ws) (suc k) h = get_or-and_words vs ws k (omega arith)

-- In an intersection are the flags that both sets hold, among those that the first vector holds.
pub test-intersect :
    (s o : BitSet) (j : ℕ) → Holds s j → test (intersect s o) j ≡ (test s j && test o j)
unfolding test intersect
test-intersect s o j h =
    rw (get_or-and_words s.words o.words (j / 64) h)
      (test_word-and (get_or s.words (j / 64) 0) (get_or o.words (j / 64) 0) (j % 64))
