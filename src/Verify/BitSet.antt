-- ===== src/Verify/BitSet.antt =====
-- The class BitSet: `nbits` flags in words of 64 bits. A word outside the vector is undefined
-- behaviour in the source; a read of one gives 0 here and a write is dropped.
use ventus_gpgpu_sbt_simulat.Prelude.{
  ℕ, ◌+◌, ◌-◌, ◌/◌, ◌%◌, ◌^◌, Bool, true, false, ◌&&◌, List, [], ◌∷◌, ◌==◌, if◌then◌else◌, get_or,
  set, replicate, bit_and, bit_or,
}
use ventus_gpgpu_sbt_simulat.Words.{◌<<<◌, ◌>>>◌}

pub record BitSet : Type 0 where
  pub nbits : ℕ
  pub words : List ℕ

-- `~0ULL`
abbrev pub all_ones : ℕ
all_ones = 2 ^ 64 - 1

abbrev pub word_count : ℕ → ℕ
word_count nbits = (nbits + 63) / 64

unfoldable pub empty_set : ℕ → BitSet
empty_set nbits = record { nbits = nbits; words = replicate (word_count nbits) 0 }

-- `trim` clears the bits of the last word above `nbits`.
unfoldable pub trim_last : ℕ → List ℕ → List ℕ
trim_last mask [] = []
trim_last mask (w ∷ []) = bit_and w mask ∷ []
trim_last mask (w ∷ v ∷ ws) = w ∷ trim_last mask (v ∷ ws)

unfoldable pub full_set : ℕ → BitSet
unfolding trim_last
full_set nbits =
    let filled = replicate (word_count nbits) all_ones in
    record {
      nbits = nbits;
      words = if nbits % 64 == 0 then filled else trim_last ((1 <<< (nbits % 64)) - 1) filled;
    }

unfoldable pub test_word : ℕ → ℕ → Bool
test_word w bi = bit_and (w >>> bi) 1 == 1

unfoldable pub test : BitSet → ℕ → Bool
test s i = test_word (get_or s.words (i / 64) 0) (i % 64)

unfoldable pub set_bit : BitSet → ℕ → BitSet
set_bit s i = record s {
  words = set s.words (i / 64) (bit_or (get_or s.words (i / 64) 0) (1 <<< (i % 64)));
}

-- `w &= ~(1ULL << bi)`
unfoldable pub clear_bit : BitSet → ℕ → BitSet
clear_bit s i = record s {
  words = set s.words (i / 64) (bit_and (get_or s.words (i / 64) 0) (all_ones - (1 <<< (i % 64))));
}

unfoldable pub and_words : List ℕ → List ℕ → List ℕ
and_words [] ws = []
and_words (v ∷ vs) [] = bit_and v 0 ∷ and_words vs []
and_words (v ∷ vs) (w ∷ ws) = bit_and v w ∷ and_words vs ws

-- `operator&=`
unfoldable pub intersect : BitSet → BitSet → BitSet
unfolding and_words
intersect s o = record s { words = and_words s.words o.words }

unfoldable pub same_words : List ℕ → List ℕ → Bool
same_words [] [] = true
same_words (v ∷ vs) (w ∷ ws) = (v == w) && same_words vs ws
same_words _ _ = false

-- `operator==`, which compares the words.
unfoldable pub same_set : BitSet → BitSet → Bool
unfolding same_words
same_set s o = same_words s.words o.words
