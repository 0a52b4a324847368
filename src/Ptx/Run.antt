-- ===== src/Ptx/Run.antt =====
-- Running lines of PTX on a lane. An instruction that is not listed is stuck.
pub mod Scalar
pub mod Alu
pub mod Imm
pub mod Mask
pub mod Rounding
pub mod Branch
pub mod Load
pub mod Blob
pub mod Fclass
pub mod Vector
pub mod One
use ventus_gpgpu_sbt_simulat.Prelude.{
  ℕ, zero, suc, ◌+◌, ◌-◌, ◌*◌, ◌/◌, ◌%◌, ◌^◌, String, str_eq, Bool, true, false, not, Option, none,
  some, List, [], ◌∷◌, ◌&&◌, ◌||◌, ◌==◌, ltb, leb, if◌then◌else◌, bit_and, bit_or, bit_xor,
}
use ventus_gpgpu_sbt_simulat.Words.{u32, ◌<<<◌, ◌>>>◌}
use ventus_gpgpu_sbt_simulat.Words.Signed.{
  lt_signed, shift_signed, quotient_signed, remainder_signed, high_signed, extend_signed,
  shift_signed_wide,
}
use ventus_gpgpu_sbt_simulat.Ptx.Lines.{RegFile, Label, Operand, Guard, Line}
use ventus_gpgpu_sbt_simulat.Ptx.Ops.{unary_op, binary_op, compare_op}
use ventus_gpgpu_sbt_simulat.Ptx.Lane.{
  Lane, Outcome, running, jumped, trapped, returned, stuck, update, value, test, write, write_test,
  guard_holds, after, with,
}

-- A word of memory is four bytes, the lowest first.
abbrev pub load_u32 : (ℕ → ℕ) → ℕ → ℕ
load_u32 m a = m a + 2 ^ 8 * m (a + 1) + 2 ^ 16 * m (a + 2) + 2 ^ 24 * m (a + 3)

abbrev pub load_u16 : (ℕ → ℕ) → ℕ → ℕ
load_u16 m a = m a + 2 ^ 8 * m (a + 1)

abbrev pub store_u8 : (ℕ → ℕ) → ℕ → ℕ → ℕ → ℕ
store_u8 m a w = update m a (w % 2 ^ 8)

abbrev pub store_u16 : (ℕ → ℕ) → ℕ → ℕ → ℕ → ℕ
store_u16 m a w = update (update m a (w % 2 ^ 8)) (a + 1) (w / 2 ^ 8 % 2 ^ 8)

abbrev pub store_u32 : (ℕ → ℕ) → ℕ → ℕ → ℕ → ℕ
store_u32 m a w =
    update
      (update (update (update m a (w % 2 ^ 8)) (a + 1) (w / 2 ^ 8 % 2 ^ 8)) (a + 2)
        (w / 2 ^ 16 % 2 ^ 8))
      (a + 3) (w / 2 ^ 24 % 2 ^ 8)

-- The bytes from `a` on are there.
unfoldable pub all_mapped : (ℕ → Bool) → ℕ → ℕ → Bool
all_mapped maps a zero = true
all_mapped maps a (suc n) = maps a && all_mapped maps (a + 1) n

-- An access of `size` bytes has a meaning where its address is a multiple of its size and all of its
-- bytes are there.
unfoldable pub accessible : (ℕ → Bool) → ℕ → ℕ → Bool
accessible maps size a = (a % size == 0) && all_mapped maps a size

abbrev pub access : (ℕ → Bool) → ℕ → ℕ → Outcome → Outcome
access maps size a o = if accessible maps size a then o else stuck

abbrev pub exec_load : String → Operand → ℕ → Lane → Outcome
exec_load n dst a s =
    if str_eq n "ld.shared.u32"
    then access s.maps_shared 4 a (write dst (load_u32 s.shared a) s)
    else if str_eq n "ld.global.u32"
    then access s.maps_global 4 a (write dst (load_u32 s.global a) s)
    else if str_eq n "ld.shared.u16"
    then access s.maps_shared 2 a (write dst (load_u16 s.shared a) s)
    else if str_eq n "ld.global.u16"
    then access s.maps_global 2 a (write dst (load_u16 s.global a) s)
    else if str_eq n "ld.shared.u8"
    then access s.maps_shared 1 a (write dst (s.shared a) s)
    else if str_eq n "ld.global.u8"
    then access s.maps_global 1 a (write dst (s.global a) s)
    else stuck

abbrev pub exec_store : String → ℕ → ℕ → Lane → Outcome
exec_store n a w s =
    if str_eq n "st.shared.u32"
    then access s.maps_shared 4 a (running (record s { shared = store_u32 s.shared a w }))
    else if str_eq n "st.global.u32"
    then access s.maps_global 4 a (running (record s { global = store_u32 s.global a w }))
    else if str_eq n "st.shared.u16"
    then access s.maps_shared 2 a (running (record s { shared = store_u16 s.shared a w }))
    else if str_eq n "st.global.u16"
    then access s.maps_global 2 a (running (record s { global = store_u16 s.global a w }))
    else if str_eq n "st.shared.u8"
    then access s.maps_shared 1 a (running (record s { shared = store_u8 s.shared a w }))
    else if str_eq n "st.global.u8"
    then access s.maps_global 1 a (running (record s { global = store_u8 s.global a w }))
    else stuck

abbrev pub exec_one : String → Operand → Lane → Outcome
exec_one n (Operand.goal l) s = if str_eq n "bra" || str_eq n "bra.uni" then jumped l s else stuck
exec_one n a s =
    if str_eq n "activemask.b32"
    then write a s.active s
    else if str_eq n "bar.warp.sync"
    then running s
    else stuck

abbrev pub exec_two : String → Operand → Operand → Lane → Outcome
exec_two n dst (Operand.at a) s = with (value s a) (λ address. exec_load n dst address s)
exec_two n (Operand.at a) src s =
    with (value s a) (λ address. with (value s src) (λ w. exec_store n address w s))
exec_two n dst src s =
    if str_eq n "not.pred"
    then with (test s src) (λ b. write_test dst (not b) s)
    else with (unary_op n) (λ g. with (value s src) (λ a. write dst (g a) s))

abbrev pub exec_pred : String → Operand → Bool → Bool → Lane → Outcome
exec_pred n dst a b s =
    if str_eq n "and.pred"
    then write_test dst (a && b) s
    else if str_eq n "or.pred"
    then write_test dst (a || b) s
    else if str_eq n "xor.pred"
    then write_test dst (if a then not b else b) s
    else stuck

abbrev pub exec_compare : String → Operand → ℕ → ℕ → Lane → Outcome
exec_compare n dst a b s = with (compare_op n) (λ g. write_test dst (g a b) s)

abbrev pub exec_binary : String → Operand → ℕ → ℕ → Lane → Outcome
exec_binary n dst a b s = with (binary_op n) (λ g. with (g a b) (λ w. write dst w s))

-- `dst` says which kind of instruction it is: one into a predicate or one into another register.
abbrev pub exec_three : String → Operand → Operand → Operand → Lane → Outcome
exec_three n (Operand.reg RegFile.file_p i) (Operand.reg RegFile.file_p j) b s =
    with (test s (Operand.reg RegFile.file_p j))
      (λ c. with (test s b) (λ d. exec_pred n (Operand.reg RegFile.file_p i) c d s))
exec_three n (Operand.reg RegFile.file_p i) a b s =
    with (value s a)
      (λ c. with (value s b) (λ d. exec_compare n (Operand.reg RegFile.file_p i) c d s))
exec_three n dst a b s = with (value s a) (λ c. with (value s b) (λ d. exec_binary n dst c d s))

abbrev pub exec_four : String → Operand → Operand → Operand → Operand → Lane → Outcome
exec_four n dst a b c s =
    if str_eq n "selp.u32"
    then with (value s a)
        (λ d. with (value s b) (λ e. with (test s c) (λ t. write dst (if t then d else e) s)))
    else stuck

abbrev pub exec_op : String → List Operand → Lane → Outcome
exec_op n [] s = if str_eq n "trap" then trapped else if str_eq n "ret" then returned s else stuck
exec_op n (a ∷ []) s = exec_one n a s
exec_op n (a ∷ b ∷ []) s = exec_two n a b s
exec_op n (a ∷ b ∷ c ∷ []) s = exec_three n a b c s
exec_op n (a ∷ b ∷ c ∷ d ∷ []) s = exec_four n a b c d s
exec_op n (a ∷ b ∷ c ∷ d ∷ e ∷ rest) s = stuck

unfoldable pub exec_line : Line → Lane → Outcome
exec_line (Line.inst g n args) s = if guard_holds g s then exec_op n args s else running s
exec_line (Line.label l) s = running s
exec_line (Line.comment c) s = running s
exec_line _ s = stuck

unfoldable pub exec : List Line → Lane → Outcome
exec [] s = running s
exec (l ∷ ls) s = after (exec_line l s) (exec ls)
