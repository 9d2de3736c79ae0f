-- ===== src/Expr/Compiler/Atoms.antt =====
-- src/expr/compiler.rs: what the compiler reads from atoms, with the standard library's number
-- parsers (an optional plus sign, digits only, and no overflow; a usize has 64 bits).
use rbph_website_backend.Prelude.{
  ℕ, ◌+◌, ◌-◌, ◌*◌, ◌^◌, Str, String, Bool, true, false, ◌&&◌, ◌||◌, Option, none, some, List, [],
  ◌∷◌, Result, ok, err, ◌>>=◌, ltb, leb, ◌==◌, if◌then◌else◌, all, byte_len, is_ascii_digit,
  is_ascii_alphabetic, is_ascii_alphanumeric,
}
use rbph_website_backend.Prelude
use rbph_website_backend.Expr.Parser.{RawSexpr, atom, list}
use rbph_website_backend.Expr.Ast.{PuzzleRef, RoundRef}

pub data CompileError : Type 0 where
  bad_form : String → CompileError
  unknown_op : Str → CompileError
  expected_atom expected_number expected_set_expr expected_value_expr : CompileError

-- Digits onto an accumulator that stays below `bound`.
unfoldable pub parse_digits : ℕ → ℕ → Str → Option ℕ
unfolding is_ascii_digit
parse_digits bound acc [] = some acc
parse_digits bound acc (c ∷ cs) =
    let next = acc * 10 + (c - b'0') in
    let rest = parse_digits bound next cs in
    if is_ascii_digit c && ltb next bound then rest else none

-- `str::parse` to an unsigned type of `bound` values.
unfoldable pub parse_unsigned : ℕ → Str → Option ℕ
unfolding parse_digits
parse_unsigned bound [] = none
parse_unsigned bound (c ∷ []) = parse_digits bound 0 (c ∷ [])
parse_unsigned bound (c ∷ d ∷ cs) =
    if c == b'+' then parse_digits bound 0 (d ∷ cs) else parse_digits bound 0 (c ∷ d ∷ cs)

abbrev pub u32_bound : ℕ
u32_bound = 2 ^ 32

abbrev pub usize_bound : ℕ
usize_bound = 2 ^ 64

-- The function `atom`.
unfoldable pub atom_text : RawSexpr → Result CompileError Str
atom_text (atom a) = ok a
atom_text (list _) = err expected_atom

abbrev number_or_err : Option ℕ → Result CompileError ℕ
number_or_err (some n) = ok n
number_or_err none = err expected_number

unfoldable pub parse_u32 : RawSexpr → Result CompileError ℕ
unfolding atom_text parse_unsigned
parse_u32 s = do a ← atom_text s; number_or_err (parse_unsigned u32_bound a)

unfoldable pub parse_usize : RawSexpr → Result CompileError ℕ
unfolding atom_text parse_unsigned
parse_usize s = do a ← atom_text s; number_or_err (parse_unsigned usize_bound a)

abbrev puzzle_ref_of : Str → Option ℕ → PuzzleRef
puzzle_ref_of a (some id) = PuzzleRef.id id
puzzle_ref_of a none = PuzzleRef.slug a

unfoldable pub parse_puzzle_ref : RawSexpr → Result CompileError PuzzleRef
unfolding atom_text parse_unsigned
parse_puzzle_ref s = do a ← atom_text s; ok (puzzle_ref_of a (parse_unsigned u32_bound a))

abbrev round_ref_of : Str → Option ℕ → RoundRef
round_ref_of a (some id) = RoundRef.id id
round_ref_of a none = RoundRef.slug a

unfoldable pub parse_round_ref : RawSexpr → Result CompileError RoundRef
unfolding atom_text parse_unsigned
parse_round_ref s = do a ← atom_text s; ok (round_ref_of a (parse_unsigned u32_bound a))

unfoldable pub is_key_char : ℕ → Bool
unfolding is_ascii_alphanumeric
is_key_char ch = is_ascii_alphanumeric ch || ch == b'_' || ch == b'-'

-- The characters of a key with their index: only the first one must be a letter.
unfoldable pub key_chars : ℕ → Str → Bool
unfolding is_ascii_alphabetic is_key_char
key_chars index [] = true
key_chars index (ch ∷ chars) =
    (if index == 0 then is_ascii_alphabetic ch else is_key_char ch) && key_chars (index + 1) chars

abbrev is_empty : Str → Bool
is_empty [] = true
is_empty (_ ∷ _) = false

-- `valid_key` of the `triggered` form.
unfoldable pub valid_key : Str → Bool
unfolding key_chars
valid_key key = Prelude.not (is_empty key) && leb (byte_len key) 64 && key_chars 0 key
