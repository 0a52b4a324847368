-- ===== src/Ptx/Text.antt =====
-- The text of the lines, as sbt/ptx_emit.cpp writes it.
use Prim.Native.String.{slice, ◌++◌}
use ventus_gpgpu_sbt_simulat.Prelude.{
  ℕ, zero, suc, ◌+◌, ◌/◌, ◌%◌, String, List, [], ◌∷◌, ltb, if◌then◌else◌,
}
use ventus_gpgpu_sbt_simulat.Prelude.Int.{ℤ, pos, negsuc}
use ventus_gpgpu_sbt_simulat.Ptx.Lines.{RegFile, Label, Operand, Guard, Line, block, temp}

abbrev digit_text : ℕ → String
digit_text d = slice "0123456789abcdef" d (d + 1)

-- The last `count` hexadecimal digits.
unfoldable pub hex_digits : ℕ → ℕ → String
hex_digits zero n = ""
hex_digits (suc count) n = hex_digits count (n / 16) ++ digit_text (n % 16)

unfoldable pub hex8 : ℕ → String
hex8 n = hex_digits 8 n

unfoldable pub hex_u32 : ℕ → String
hex_u32 n = "0x" ++ hex8 n

-- `std::to_string`; a number of the code has at most 20 decimal digits.
unfoldable pub decimal_digits : ℕ → ℕ → String
decimal_digits zero n = ""
decimal_digits (suc fuel) n =
    let rest = decimal_digits fuel (n / 10) in
    (if ltb n 10 then "" else rest) ++ digit_text (n % 10)

unfoldable pub to_string : ℤ → String
to_string (pos n) = decimal_digits 20 n
to_string (negsuc n) = "-" ++ decimal_digits 20 (n + 1)

unfoldable pub label_bb : ℕ → String
label_bb block_start = "BB_" ++ hex8 block_start

abbrev pub file_text : RegFile → String
file_text RegFile.file_r = "%r"
file_text RegFile.file_rd = "%rd"
file_text RegFile.file_p = "%p"
file_text RegFile.file_f = "%f"
file_text RegFile.file_v = "%v"
file_text RegFile.file_x = "%x"
file_text RegFile.file_u8 = "%ub"
file_text RegFile.file_u16 = "%uh"

unfoldable pub label_text : Label → String
label_text (block pc) = label_bb pc
label_text (temp kind n) = "_sbt_" ++ kind ++ "_" ++ to_string (pos n)

unfoldable pub operand_text : Operand → String
operand_text (Operand.reg file i) = file_text file ++ to_string i
operand_text (Operand.num i) = to_string i
operand_text (Operand.hex n) = hex_u32 n
operand_text (Operand.neg_hex n) = "-" ++ hex_u32 n
operand_text (Operand.word s) = s
operand_text (Operand.at a) = "[" ++ operand_text a ++ "]"
operand_text (Operand.param base offset) = "[" ++ base ++ "+" ++ to_string (pos offset) ++ "]"
operand_text (Operand.goal l) = label_text l

unfoldable pub guard_text : Guard → String
guard_text Guard.always = ""
guard_text (Guard.when i) = "@%p" ++ to_string (pos i) ++ " "
guard_text (Guard.unless i) = "@!%p" ++ to_string (pos i) ++ " "

unfoldable pub args_text : List Operand → String
args_text [] = ""
args_text (a ∷ []) = operand_text a
args_text (a ∷ b ∷ rest) = operand_text a ++ ", " ++ args_text (b ∷ rest)

unfoldable pub names_text : List String → String
names_text [] = ""
names_text (s ∷ []) = s
names_text (s ∷ t ∷ rest) = s ++ ", " ++ names_text (t ∷ rest)

-- `emit_line`, `emit_label` and `emit_raw`.
unfoldable pub line_text : Line → String
line_text (Line.inst g name []) = "  " ++ guard_text g ++ name ++ ";\n"
line_text (Line.inst g name (a ∷ args)) =
    "  " ++ guard_text g ++ name ++ " " ++ args_text (a ∷ args) ++ ";\n"
line_text (Line.label l) = label_text l ++ ":\n"
line_text (Line.comment s) = "  " ++ s ++ "\n"
line_text (Line.raw s) = s
line_text (Line.declare kind name n) = "  " ++ kind ++ name ++ "[" ++ to_string (pos n) ++ "];\n"
line_text (Line.call out callee args) =
    "  call.uni (" ++ out ++ "), " ++ callee ++ ", (" ++ names_text args ++ ");\n"

unfoldable pub print : List Line → String
print [] = ""
print (l ∷ ls) = line_text l ++ print ls
