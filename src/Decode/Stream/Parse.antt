-- ===== src/Decode/Stream/Parse.antt =====
-- The loop succeeds exactly on the layouts of valid items.
use ventus_gpgpu_sbt_simulat.Prelude.{
  ℕ, ◌+◌, ◌≡◌, ◌↔◌, refl, ◌∙◌, sym, ap, arith, true, ◌&&◌, inl, inr, none, some, List, [], ◌∷◌,
  str_eq, Option-cases, Bool-cases,
}
use mathlib.Core.Path.{subst}
use ventus_gpgpu_sbt_simulat.Prelude.Result.{Result, ok, err, ◌>>=◌, >>=-eq-ok}
use ventus_gpgpu_sbt_simulat.Decode.Types.{
  RegextPrefix, DecodedInst, DecodeOptions, Pattern, no_prefix,
}
use ventus_gpgpu_sbt_simulat.Decode.Text.{unknown_instruction, prefix_of, decode_loop}
use ventus_gpgpu_sbt_simulat.Decode.Stream.{
  Item, plain, extended, layout, pc_at, inst_at, IsInst, Parses, done, plain_item, extended_item,
  prefix_of-PrefixFacts,
}

ok_injective : {E A : Type 0} {a b : A} → ◌≡◌ {A = Result E A} (ok a) (ok b) → a ≡ b
ok_injective h = cc

module _ (opt : DecodeOptions) (patterns : List Pattern) (vaddr : ℕ) where
  -- One round on an instruction word.
  loop-inst :
      (off w : ℕ) (ws : List ℕ) (px : RegextPrefix)
      → IsInst opt patterns vaddr off w px
      → decode_loop opt patterns vaddr off (w ∷ ws) px ≡ (
          decode_loop opt patterns vaddr (off + 4) ws no_prefix
          >>= (λ rest. ok (inst_at opt patterns vaddr off w px ∷ rest)))
  unfolding decode_loop
  loop-inst off w ws px h = rw (h.0, h.1, decode_loop)

  -- One round on a prefix word with no prefix pending.
  loop-prefix :
      (off w : ℕ) (ws : List ℕ) (px : RegextPrefix)
      → prefix_of opt patterns (pc_at vaddr off) w ≡ some px
      → decode_loop opt patterns vaddr off (w ∷ ws) no_prefix
        ≡ decode_loop opt patterns vaddr (off + 4) ws px
  unfolding decode_loop
  loop-prefix off w ws px h = rw (h, decode_loop)

  loop-unknown :
      (off w : ℕ) (ws : List ℕ) (px : RegextPrefix)
      → prefix_of opt patterns (pc_at vaddr off) w ≡ none
      → (opt.require_known && str_eq (inst_at opt patterns vaddr off w px).name "unknown") ≡ true
      → decode_loop opt patterns vaddr off (w ∷ ws) px ≡ err (unknown_instruction (pc_at vaddr off))
  unfolding decode_loop
  loop-unknown off w ws px h e = rw (h, e, decode_loop)

  -- What a success says of the first word.
  loop-ok :
      (off w : ℕ) (ws : List ℕ) (px : RegextPrefix) {ds : List DecodedInst}
      → decode_loop opt patterns vaddr off (w ∷ ws) px ≡ ok ds
      → prefix_of opt patterns (pc_at vaddr off) w ≡ none
      → IsInst opt patterns vaddr off w px
        × ((rest : List DecodedInst) × (decode_loop opt patterns vaddr (off + 4) ws no_prefix
              ≡ ok rest)
            × (inst_at opt patterns vaddr off w px ∷ rest ≡ ds))
  loop-ok off w ws px h e =
      elim (Bool-cases
        (opt.require_known && str_eq (inst_at opt patterns vaddr off w px).name "unknown")) [
          | inl unknown ↦ absurd (cc (loop-unknown off w ws px e unknown))
          | inr known ↦
              let (rest, r, f) =
                >>=-eq-ok (decode_loop opt patterns vaddr (off + 4) ws no_prefix)
                  (λ rest. ok (inst_at opt patterns vaddr off w px ∷ rest))
                  (sym (loop-inst off w ws px (e, known)) ∙ h) in
              ((e, known), (rest, r, ok_injective f))
        ]

  -- Every layout of valid items is accepted, with the items' instructions.
  Parses-layout :
      {off : ℕ} {is : List Item} {ds : List DecodedInst}
      → Parses opt patterns vaddr off is ds
      → decode_loop opt patterns vaddr off (layout is) no_prefix ≡ ok ds
  unfolding decode_loop layout
  Parses-layout done = refl
  Parses-layout (plain_item {off} {w} {is} h p) =
      loop-inst off w (layout is) no_prefix h ∙ rw (Parses-layout p)
  Parses-layout (extended_item {off} {p = p} {w} {px} {is} pre h rest) =
      loop-prefix off p (w ∷ layout is) px pre
      ∙ loop-inst (off + 4) w (layout is) px h
      ∙ rw (Parses-layout rest)

  -- A success determines items whose layout the words are.
  Parsed : ℕ → List ℕ → List DecodedInst → Type 0
  Parsed off ws ds = (is : List Item) × (layout is ≡ ws) × Parses opt patterns vaddr off is ds

  add_plain :
      (off w : ℕ) (ws : List ℕ) {ds rest : List DecodedInst}
      → IsInst opt patterns vaddr off w no_prefix
      → inst_at opt patterns vaddr off w no_prefix ∷ rest ≡ ds
      → Parsed (off + 4) ws rest
      → Parsed off (w ∷ ws) ds
  unfolding layout Parsed
  add_plain off w ws inst e (is, f, p) = (plain w ∷ is, ap (◌∷◌ w) f, rw e at (plain_item inst p))

  add_extended :
      (off p w : ℕ) (ws : List ℕ) (px : RegextPrefix) {ds rest : List DecodedInst}
      → prefix_of opt patterns (pc_at vaddr off) p ≡ some px
      → IsInst opt patterns vaddr (off + 4) w px
      → inst_at opt patterns vaddr (off + 4) w px ∷ rest ≡ ds
      → Parsed (off + 4 + 4) ws rest
      → Parsed off (p ∷ w ∷ ws) ds
  unfolding layout Parsed
  add_extended off p w ws px pre inst e (is, f, q) =
      (extended p w ∷ is, ap (λ t. p ∷ w ∷ t) f, rw e at (extended_item pre inst q))

  -- A prefix cannot be the last word, and no prefix may follow it.
  not-dangling :
      (off : ℕ) (px : RegextPrefix) {ds : List DecodedInst}
      → px.valid ≡ true
      → decode_loop opt patterns vaddr off [] px ≡ ok ds
      → ⊥
  unfolding decode_loop
  not-dangling off px v h = ground arith

  not-nested :
      (off w : ℕ) (ws : List ℕ) (px px' : RegextPrefix) {ds : List DecodedInst}
      → px.valid ≡ true
      → prefix_of opt patterns (pc_at vaddr off) w ≡ some px'
      → decode_loop opt patterns vaddr off (w ∷ ws) px ≡ ok ds
      → ⊥
  unfolding decode_loop
  not-nested off w ws px px' v e h = ground arith

  loop-nil :
      (off : ℕ) {ds : List DecodedInst}
      → decode_loop opt patterns vaddr off [] no_prefix ≡ ok ds
      → [] ≡ ds
  unfolding decode_loop
  loop-nil off h = ok_injective h

  loop-Parsed :
      (off : ℕ) (ws : List ℕ) {ds : List DecodedInst}
      → decode_loop opt patterns vaddr off ws no_prefix ≡ ok ds
      → Parsed off ws ds
  unfolding Parsed layout
  loop-Parsed off [] h =
      ([], refl, subst (λ ds. Parses opt patterns vaddr off [] ds) (loop-nil off h) done)
  loop-Parsed off (w ∷ []) h = elim (Option-cases (prefix_of opt patterns (pc_at vaddr off) w)) [
    | inl e ↦
        let (inst, (rest, r, f)) = loop-ok off w [] no_prefix h e in
        add_plain off w [] inst f (loop-Parsed (off + 4) [] r)
    | inr (px, e) ↦ absurd (
        not-dangling (off + 4) px (prefix_of-PrefixFacts opt patterns _ w px e).is_valid
          (sym (loop-prefix off w [] px e) ∙ h))
  ]
  loop-Parsed off (w ∷ w' ∷ ws) h =
      elim (Option-cases (prefix_of opt patterns (pc_at vaddr off) w)) [
        | inl e ↦
            let (inst, (rest, r, f)) = loop-ok off w (w' ∷ ws) no_prefix h e in
            add_plain off w (w' ∷ ws) inst f (loop-Parsed (off + 4) (w' ∷ ws) r)
        | inr (px, e) ↦
            let behind = sym (loop-prefix off w (w' ∷ ws) px e) ∙ h in
            elim (Option-cases (prefix_of opt patterns (pc_at vaddr (off + 4)) w')) [
              | inl e' ↦
                  let (inst, (rest, r, f)) = loop-ok (off + 4) w' ws px behind e' in
                  add_extended off w w' ws px e inst f (loop-Parsed (off + 4 + 4) ws r)
              | inr (px', e') ↦ absurd (
                  not-nested (off + 4) w' ws px px'
                    (prefix_of-PrefixFacts opt patterns _ w px e).is_valid e' behind)
            ]
      ]

  -- From a multiple of four bytes on, with no prefix pending, the loop returns `ds` exactly when the
  -- words are the layout of a sequence of items that decode to `ds`: each prefix word stands in front
  -- of exactly one instruction word, none is nested or left over, and where that is required none of
  -- the instructions is unknown.
  pub decode_loop_iff :
      (off : ℕ) (ws : List ℕ) (ds : List DecodedInst)
      → (decode_loop opt patterns vaddr off ws no_prefix ≡ ok ds)
        ↔ ((is : List Item) × (layout is ≡ ws) × Parses opt patterns vaddr off is ds)
  unfolding Parsed
  decode_loop_iff off ws ds = (loop-Parsed off ws, λ (is, e, p). rw e at (Parses-layout p))
