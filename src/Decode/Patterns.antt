-- ===== src/Decode/Patterns.antt =====
-- The table of patterns: its order and the search for the first match.
pub mod Best
use ventus_gpgpu_sbt_simulat.Prelude.{
  ℕ, zero, suc, if◌then◌else◌, ◌==◌, String, true, false, Option, none, some, List, [], ◌∷◌,
  bit_and,
}
use mathlib.Core.Option
use ventus_gpgpu_sbt_simulat.Decode.Types.{Pattern}

-- The first pattern of the table that has a name and fits the word.
unfoldable pub match_pattern : ℕ → List Pattern → Option Pattern
match_pattern w [] = none
match_pattern w (p ∷ ps) = elim p.name [
  | none ↦ match_pattern w ps
  | some _ ↦ elim (bit_and w p.mask == p.match) [ true ↦ some p | false ↦ match_pattern w ps ]
]

-- `p->name`. A pattern that `match_pattern` returns has one.
abbrev pub pattern_name : Pattern → String
pattern_name p = Option.get_or p.name ""
