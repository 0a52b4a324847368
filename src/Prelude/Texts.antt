-- ===== src/Prelude/Texts.antt =====
-- The order of texts by their characters' codes.
use Prim.Native.String.{compare}
use Prim.Native.String.compare as clauses
use ventus_gpgpu_sbt_simulat.Prelude.{String, ◌≡◌, refl, Bool, true, false, arith}
use text.Mathlib.Text.{is_lt}

-- std::string_view's `<`.
abbrev pub text_lt : String → String → Bool
text_lt s t = is_lt (compare s t)

-- Of two texts at most one is before the other.
pub text_lt_asymm : (s t : String) → text_lt s t ≡ true → text_lt t s ≡ false
text_lt_asymm String.[] String.[] h = refl
text_lt_asymm String.[] (String.◌∷◌ d t) h = rw (clauses.cons-nil d t)
text_lt_asymm (String.◌∷◌ c s) String.[] h = cc (clauses.cons-nil c s)
text_lt_asymm (String.◌∷◌ c s) (String.◌∷◌ d t) h =
    ground (arith, clauses.cons-cons c d s t, clauses.cons-cons d c t s, text_lt_asymm s t)

-- "Not after" is transitive.
pub text_lt_negtrans :
    (s t u : String) → text_lt s t ≡ false → text_lt t u ≡ false → text_lt s u ≡ false
text_lt_negtrans String.[] String.[] String.[] h k = refl
text_lt_negtrans String.[] String.[] (String.◌∷◌ e u) h k = k
text_lt_negtrans String.[] (String.◌∷◌ d t) u h k = absurd (cc (clauses.nil-cons d t))
text_lt_negtrans (String.◌∷◌ c s) t String.[] h k = rw (clauses.cons-nil c s)
text_lt_negtrans (String.◌∷◌ c s) String.[] (String.◌∷◌ e u) h k =
    absurd (cc (clauses.nil-cons e u))
text_lt_negtrans (String.◌∷◌ c s) (String.◌∷◌ d t) (String.◌∷◌ e u) h k = ground (
  arith,
  clauses.cons-cons c d s t,
  clauses.cons-cons d e t u,
  clauses.cons-cons c e s u,
  text_lt_negtrans s t u,
)
