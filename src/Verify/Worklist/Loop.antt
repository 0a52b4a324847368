-- ===== src/Verify/Worklist/Loop.antt =====
-- The worklist marks exactly what it can reach, and ends within its fuel.
use ventus_gpgpu_sbt_simulat.Prelude.{
  ℕ, zero, suc, ◌+◌, ◌≤◌, ◌<◌, ◌≡◌, ◌↔◌, ◌⊎◌, inl, inr, refl, ap, arith, Bool, true, false, ◌||◌,
  some, List, [], ◌∷◌, ◌++◌, length, ◌==◌, if◌then◌else◌, In, All, In-append, length-append,
  Bool-cases, ==_iff,
}
use mathlib.Core.Path.{subst}
use ventus_gpgpu_sbt_simulat.Verify.Worklist.{Flags, offer, drain}

-- What the loop needs of the flags, for the nodes below `n`.
pub record Lawful {F : Type 0} (ops : Flags F) (n : ℕ) : Type 1 where
  pub Fit : F → Type 0
  pub keeps : (m : F) (i : ℕ) → Fit m → Fit (ops.mark m i)
  pub law : (m : F) (i j : ℕ) → Fit m → i < n → ops.read (ops.mark m i) j ≡ (i == j || ops.read m j)

-- What is reached from a list of nodes without entering a node that is skipped.
pub data Reached (next : ℕ → List ℕ) (skip : ℕ → Bool) (from : List ℕ) : ℕ → Type 0 where
  start : {v : ℕ} → In v from → skip v ≡ false → Reached next skip from v
  step :
      {u v : ℕ}
      → Reached next skip from u
      → In v (next u)
      → skip v ≡ false
      → Reached next skip from v

module _ {F : Type 0} (ops : Flags F) (n : ℕ) (l : Lawful ops n) where
  -- The nodes below `k` that are not marked.
  pub unseen : ℕ → F → ℕ
  unseen zero m = 0
  unseen (suc k) m = (if ops.read m k then 0 else 1) + unseen k m

  pub unseen-le : (k : ℕ) (m : F) → unseen k m ≤ k
  unfolding unseen
  unseen-le zero m = omega arith
  unseen-le (suc k) m = ground (arith, unseen-le k m)

  unseen-mark_above :
      (k i : ℕ) (m : F) → l.Fit m → i < n → k ≤ i → unseen k (ops.mark m i) ≡ unseen k m
  unfolding unseen
  unseen-mark_above zero i m f h p = refl
  unseen-mark_above (suc k) i m f h p = ground (arith, l.law m i k f h, unseen-mark_above k i m f h)

  unseen-mark :
      (k i : ℕ) (m : F)
      → l.Fit m
      → i < n
      → i < k
      → ops.read m i ≡ false
      → suc (unseen k (ops.mark m i)) ≡ unseen k m
  unfolding unseen
  unseen-mark zero i m f h p e = absurd (omega arith)
  unseen-mark (suc k) i m f h p e = elim (Bool-cases (i == k)) [
    | inl same ↦
        let q : i ≡ k = (==_iff _ _).0 same in
        ground (arith, l.law m i k f h, unseen-mark_above k i m f h, ap (ops.read m) q)
    | inr other ↦ ground (arith, l.law m i k f h, unseen-mark k i m f h)
  ]

module _ {F : Type 0} (ops : Flags F) (n : ℕ) (l : Lawful ops n) (next : ℕ → List ℕ)
    (skip : ℕ → Bool) where
  -- What the loop over the successors has done when it has gone from `(m, q)` to `(t, r)`.
  pub record Offered (ss : List ℕ) (m : F) (q : List ℕ) (t : F) (r : List ℕ) : Type 0 where
    pub fit : l.Fit t
    pub work : unseen ops n l n t + length r ≡ unseen ops n l n m + length q
    pub marks :
        (v : ℕ) → (ops.read t v ≡ true) ↔ ((ops.read m v ≡ true) ⊎ (In v ss × (skip v ≡ false)))
    pub queues : (v : ℕ) → In v r ↔ (In v q ⊎ ((ops.read t v ≡ true) × (ops.read m v ≡ false)))

  pub offer-Offered :
      (ss : List ℕ) (m : F) (q : List ℕ)
      → l.Fit m
      → All (λ s. s < n) ss
      → let r = offer ops next skip ss m q in Offered ss m q r.0 r.1
  unfolding offer
  offer-Offered [] m q f a = record {
    fit = f;
    work = refl;
    marks = λ v. (inl, λ h. elim h [ inl x ↦ x | inr (x, _) ↦ absurd x ]);
    queues = λ v. (inl, λ h. elim h [ inl x ↦ x | inr (x, y) ↦ absurd (cc) ]);
  }
  offer-Offered (s ∷ ss) m q f a = elim (Bool-cases (skip s || ops.read m s)) [
    | inl old ↦
        let ih = offer-Offered ss m q f a.1 in
        rw (old, offer)
          (record {
            fit = ih.fit;
            work = ih.work;
            marks = λ v. ground (arith, ih.marks v);
            queues = ih.queues;
          })
    | inr new ↦
        let m' = ops.mark m s in
        let ih = offer-Offered ss m' (q ++ s ∷ []) (l.keeps m s f) a.1 in
        let law = λ (v : ℕ). l.law m s v f a.0 in
        rw (new, offer)
          (record {
            fit = ih.fit;
            work = omega (
              arith,
              ih.work,
              length-append q (s ∷ []),
              unseen-mark ops n l n s m f a.0 a.0 (ground arith),
            );
            marks = λ v. ground (arith, ih.marks v, law v);
            queues = λ v. ground (arith, ih.queues v, ih.marks v, law v, In-append v q (s ∷ []));
          })
  ]

  module _ (from : List ℕ) (indexed : (c : ℕ) → All (λ s. s < n) (next c)) where
    -- What holds of the flags and the queue between two rounds.
    pub record Inv (m : F) (q : List ℕ) : Type 0 where
      pub fit : l.Fit m
      pub started : (v : ℕ) → In v from → skip v ≡ false → ops.read m v ≡ true
      pub queued : (v : ℕ) → In v q → ops.read m v ≡ true
      pub sound : (v : ℕ) → ops.read m v ≡ true → Reached next skip from v
      pub closed :
          (u v : ℕ)
          → ops.read m u ≡ true
          → In v (next u)
          → skip v ≡ false
          → In u q ⊎ (ops.read m v ≡ true)

    move : {u c : ℕ} (v : ℕ) → In v (next u) → u ≡ c → In v (next c)
    move v there e = subst (λ w. In v (next w)) e there

    round-Inv :
        (c : ℕ) (q : List ℕ) (m t : F) (r : List ℕ)
        → Inv m (c ∷ q)
        → Offered (next c) m q t r
        → Inv t r
    round-Inv c q m t r inv o = record {
      fit = o.fit;
      started = λ v h fresh. (o.marks v).1 (inl (inv.started v h fresh));
      queued = λ v h. ground (arith, o.queues v, o.marks v, inv.queued v);
      sound = λ v h. elim ((o.marks v).0 h) [
        | inl old ↦ inv.sound v old
        | inr (there, fresh) ↦ step (inv.sound c (inv.queued c (inl refl))) there fresh
      ];
      closed = λ u v h there fresh. ground (
        arith,
        Bool-cases (ops.read m u),
        o.marks u,
        o.marks v,
        o.queues u,
        inv.closed u v,
        move v there,
      );
    }

    drain-Inv :
        (fuel : ℕ) (m : F) (q : List ℕ)
        → Inv m q
        → unseen ops n l n m + length q ≤ fuel
        → (t : F) × (drain ops next skip fuel m q ≡ some t) × Inv t []
    unfolding drain
    drain-Inv zero m [] inv h = (m, refl, inv)
    drain-Inv (suc fuel) m [] inv h = (m, refl, inv)
    drain-Inv zero m (c ∷ q) inv h = absurd (omega arith)
    drain-Inv (suc fuel) m (c ∷ q) inv h =
        let r = offer ops next skip (next c) m q in
        let o = offer-Offered (next c) m q inv.fit (indexed c) in
        drain-Inv fuel r.0 r.1 (round-Inv c q m r.0 r.1 inv o) (omega (arith, o.work))

    -- At the end exactly the reached nodes are marked.
    pub record Marked (t : F) : Type 0 where
      pub sound : (v : ℕ) → ops.read t v ≡ true → Reached next skip from v
      pub complete : (v : ℕ) → Reached next skip from v → ops.read t v ≡ true

    Inv-Marked : (t : F) → Inv t [] → Marked t
    Inv-Marked t inv = record { sound = inv.sound; complete = λ v. every }
      where
        every : {v : ℕ} → Reached next skip from v → ops.read t v ≡ true
        every (start {v} h fresh) = inv.started v h fresh
        every (step {u} {v} p there fresh) = elim (inv.closed u v (every p) there fresh) [
          | inl waiting ↦ absurd waiting
          | inr m ↦ m
        ]

    pub drain-Marked :
        (fuel : ℕ) (m : F) (q : List ℕ)
        → Inv m q
        → unseen ops n l n m + length q ≤ fuel
        → (t : F) × (drain ops next skip fuel m q ≡ some t) × Marked t
    drain-Marked fuel m q inv h = let (t, e, i) = drain-Inv fuel m q inv h in (t, e, Inv-Marked t i)
