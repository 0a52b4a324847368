-- ===== src/Decode/Patterns/Best.antt =====
-- The pattern that the decoder picks from the sorted table.
use ventus_gpgpu_sbt_simulat.Prelude.{
  ℕ, ◌≡◌, ◌≢◌, ◌≤◌, ◌↔◌, inl, inr, refl, ◌∙◌, ap, arith, true, false, some, none, List, [], ◌∷◌,
  All, In, All-In, Bool, ltb, if◌then◌else◌, Bool-cases, Option-cases, ==_iff, ◌==◌, bit_and,
}
use mathlib.Core.Path.{subst}
use ventus_gpgpu_sbt_simulat.Prelude.Texts.{text_lt_asymm, text_lt_negtrans}
use ventus_gpgpu_sbt_simulat.Decode.Types.{Pattern}
use ventus_gpgpu_sbt_simulat.Decode.Order.{before, popcount, insert_pattern, sort_patterns}
use ventus_gpgpu_sbt_simulat.Decode.Patterns.{match_pattern, pattern_name}

before_asymm : (p q : Pattern) → before p q ≡ true → before q p ≡ false
unfolding before
before_asymm p q h = ground (arith, text_lt_asymm (pattern_name p) (pattern_name q))

before_irrefl : (p : Pattern) → before p p ≡ false
before_irrefl p = elim (Bool-cases (before p p)) [ inl e ↦ before_asymm p p e | inr e ↦ e ]

some_injective : {A : Type 0} {a b : A} → some a ≡ some b → a ≡ b
some_injective h = cc

-- Two keys that are compared one after the other.
lex_negtrans :
    (a b c : ℕ) (s t u : Bool)
    → (s ≡ false → t ≡ false → u ≡ false)
    → (if a == b then s else ltb b a) ≡ false
    → (if b == c then t else ltb c b) ≡ false
    → (if a == c then u else ltb c a) ≡ false
lex_negtrans a b c s t u f h k = ground arith

before_negtrans : (p q r : Pattern) → before p q ≡ false → before q r ≡ false → before p r ≡ false
unfolding before
before_negtrans p q r h k =
    lex_negtrans (popcount p.mask) (popcount q.mask) (popcount r.mask) _ _ _
      (text_lt_negtrans (pattern_name p) (pattern_name q) (pattern_name r)) h k

-- No later pattern belongs before an earlier one.
abbrev pub IsSorted : List Pattern → Type 0
IsSorted [] = Unit
IsSorted (p ∷ ps) = All (λ q. before q p ≡ false) ps × IsSorted ps

module _ (p : Pattern) where
  -- What goes below everything that it is inserted among.
  insert-All :
      (P : Pattern → Type 0) (qs : List Pattern) → P p → All P qs → All P (insert_pattern p qs)
  unfolding insert_pattern
  insert-All P [] h a = (h, tt)
  insert-All P (q ∷ qs) h a = elim (Bool-cases (before q p)) [
    | inl e ↦ rw (e, insert_pattern) (a.0, insert-All P qs h a.1)
    | inr e ↦ rw (e, insert_pattern) (h, a)
  ]

  later :
      (q : Pattern) (rs : List Pattern)
      → before q p ≡ false
      → All (λ r. before r q ≡ false) rs
      → All (λ r. before r p ≡ false) rs
  later q [] e a = tt
  later q (r ∷ rs) e a = (before_negtrans r q p a.0 e, later q rs e a.1)

  insert-IsSorted : (qs : List Pattern) → IsSorted qs → IsSorted (insert_pattern p qs)
  unfolding insert_pattern
  insert-IsSorted [] s = (tt, tt)
  insert-IsSorted (q ∷ qs) s = elim (Bool-cases (before q p)) [
    | inl e ↦
        rw (e, insert_pattern)
          (insert-All (λ r. before r q ≡ false) qs (before_asymm q p e) s.0, insert-IsSorted qs s.1)
    | inr e ↦ rw (e, insert_pattern) ((e, later q qs e s.0), s)
  ]

  insert-In : (qs : List Pattern) (r : Pattern) → In r (insert_pattern p qs) ↔ In r (p ∷ qs)
  unfolding insert_pattern
  insert-In [] r = (λ m. m, λ m. m)
  insert-In (q ∷ qs) r = elim (Bool-cases (before q p)) [
    | inl e ↦ rw (e, insert_pattern) (ground (arith, insert-In qs r))
    | inr e ↦ rw (e, insert_pattern) (λ m. m, λ m. m)
  ]

sort-IsSorted : (ps : List Pattern) → IsSorted (sort_patterns ps)
unfolding sort_patterns
sort-IsSorted [] = tt
sort-IsSorted (p ∷ ps) = insert-IsSorted p (sort_patterns ps) (sort-IsSorted ps)

sort-In : (ps : List Pattern) (r : Pattern) → In r (sort_patterns ps) ↔ In r ps
unfolding sort_patterns
sort-In [] r = (λ m. m, λ m. m)
sort-In (p ∷ ps) r = ground (arith, insert-In p (sort_patterns ps) r, sort-In ps r)

-- A pattern with a name whose mask selects its match bits in the word.
abbrev pub Fits : ℕ → Pattern → Type 0
Fits w p = (p.name ≢ none) × (bit_and w p.mask ≡ p.match)

-- `p` is in the table, fits, and no fitting pattern of the table comes before it.
pub record IsBest (w : ℕ) (ps : List Pattern) (p : Pattern) : Type 0 where
  pub listed : In p ps
  pub fits : Fits w p
  pub first : (q : Pattern) → In q ps → Fits w q → before q p ≡ false

-- Behind a pattern that does not fit, the best of the rest is the best of all.
IsBest-skip :
    (w : ℕ) (q : Pattern) (ps : List Pattern) (p : Pattern)
    → ¬ (Fits w q)
    → IsBest w ps p
    → IsBest w (q ∷ ps) p
IsBest-skip w q ps p unfit b = record {
  listed = inr b.listed;
  fits = b.fits;
  first = λ r m f. elim m [ inl e ↦ absurd (unfit (subst (Fits w) e f)) | inr m' ↦ b.first r m' f ];
}

match-IsBest :
    (w : ℕ) (ps : List Pattern) (p : Pattern)
    → IsSorted ps
    → match_pattern w ps ≡ some p
    → IsBest w ps p
unfolding match_pattern
match-IsBest w [] p s h = absurd (cc)
match-IsBest w (q ∷ ps) p s h = elim (Option-cases q.name) [
  | inl e ↦ IsBest-skip w q ps p (λ f. f.0 e) (match-IsBest w ps p s.1 (rw (e, match_pattern) at h))
  | inr (n, e) ↦ elim (Bool-cases (bit_and w q.mask == q.match)) [
    | inr f ↦
        IsBest-skip w q ps p (λ g. ground arith)
          (match-IsBest w ps p s.1 (rw (e, f, match_pattern) at h))
    | inl f ↦
        let same : q ≡ p = some_injective (rw (e, f, match_pattern) at h) in
        rw (← same) (record {
          listed = inl refl;
          fits = (λ g. ground arith, (==_iff _ _).0 f);
          first = λ r m g. elim m [
            | inl e' ↦ rw e' (before_irrefl q)
            | inr m' ↦ All-In (λ r. before r q ≡ false) ps s.0 m'
          ];
        })
  ]
]

-- A word that some pattern fits finds one, and a word that none fits finds none.
match-eq-none :
    (w : ℕ) (ps : List Pattern) (q : Pattern) → match_pattern w ps ≡ none → In q ps → ¬ (Fits w q)
unfolding match_pattern
match-eq-none w [] q h m f = m
match-eq-none w (p ∷ ps) q h m f = elim (Option-cases p.name) [
  | inl e ↦ elim m [
    | inl same ↦ f.0 (ap (λ (t : Pattern). t.name) same ∙ e)
    | inr m' ↦ match-eq-none w ps q (rw (e, match_pattern) at h) m' f
  ]
  | inr (n, e) ↦ elim (Bool-cases (bit_and w p.mask == p.match)) [
    | inl g ↦ absurd (cc (let found : some p ≡ none = rw (e, g, match_pattern) at h in found))
    | inr g ↦ elim m [
      | inl same ↦ absurd (ground arith)
      | inr m' ↦ match-eq-none w ps q (rw (e, g, match_pattern) at h) m' f
    ]
  ]
]

-- The pattern that match_pattern finds in the sorted table is in the table, has a name, fits the
-- word, and no other fitting pattern of the table comes before it; and when it finds none, none
-- fits.
pub match_pattern-IsBest :
    (w : ℕ) (ps : List Pattern)
    → ((p : Pattern) → match_pattern w (sort_patterns ps) ≡ some p → IsBest w ps p)
      × (match_pattern w (sort_patterns ps) ≡ none → (q : Pattern) → In q ps → ¬ (Fits w q))
match_pattern-IsBest w ps = (
  λ p h.
      let b = match-IsBest w (sort_patterns ps) p (sort-IsSorted ps) h in
      record {
        listed = (sort-In ps p).0 b.listed;
        fits = b.fits;
        first = λ q m f. b.first q ((sort-In ps q).1 m) f;
      },
  λ h q m. match-eq-none w (sort_patterns ps) q h ((sort-In ps q).1 m),
)

-- The mask of the pattern that is found has at least as many bits as the mask of any pattern of the
-- table that has a name and fits the word.
pub match_pattern-popcount :
    (w : ℕ) (ps : List Pattern) (p q : Pattern)
    → match_pattern w (sort_patterns ps) ≡ some p
    → In q ps
    → Fits w q
    → popcount q.mask ≤ popcount p.mask
match_pattern-popcount w ps p q h m f =
    from_before p q (((match_pattern-IsBest w ps).0 p h).first q m f)
  where
    from_before : (p q : Pattern) → before q p ≡ false → popcount q.mask ≤ popcount p.mask
    from_before p q h = unfold before in ground arith
