-- ===== src/Text.antt =====
-- Rust's `String` and `&str` as lists of code points, with what the analyzer uses of them.
pub mod Utf8
pub mod Utf16
pub mod Find
use Prim.Native.Char.{code}
use Prim.Native.String
use Prim.Native.String.{String}
use mathlib.Core.List.{reverse}
use qq_analyzer.Base.{
  ℕ, zero, suc, ◌+◌, ◌/◌, ◌%◌, List, [], ◌∷◌, ◌++◌, map, Bool, true, false, not, ◌&&◌, ◌||◌, leb,
  ltb, ◌==◌, within, if◌then◌else◌, any, all, length, ◌≡◌, refl, arith,
}

abbrev pub Text : Type 0
Text = List ℕ

-- A literal of the source.
abbrev pub lit : String → Text
lit String.[] = []
lit (String.◌∷◌ c s) = code c ∷ lit s

abbrev pub text_eq : Text → Text → Bool
text_eq [] [] = true
text_eq [] (y ∷ ys) = false
text_eq (x ∷ xs) [] = false
text_eq (x ∷ xs) (y ∷ ys) = x == y && text_eq xs ys

pub text_eq_refl : (t : Text) → text_eq t t ≡ true
text_eq_refl [] = refl
text_eq_refl (x ∷ xs) = ground (arith, text_eq_refl xs)

pub text_eq→eq : (s t : Text) → text_eq s t ≡ true → s ≡ t
text_eq→eq [] [] h = refl
text_eq→eq [] (y ∷ ys) h = ground arith
text_eq→eq (x ∷ xs) [] h = ground arith
text_eq→eq (x ∷ xs) (y ∷ ys) h = ground (arith, text_eq→eq xs ys)

abbrev pub is_empty : Text → Bool
is_empty [] = true
is_empty (c ∷ cs) = false

-- `vec.contains(&text)`.
abbrev pub member : Text → List Text → Bool
member t = any (text_eq t)

abbrev pub starts_with : Text → Text → Bool
starts_with [] text = true
starts_with (p ∷ ps) [] = false
starts_with (p ∷ ps) (c ∷ cs) = p == c && starts_with ps cs

abbrev pub ends_with : Text → Text → Bool
ends_with suffix text = starts_with (reverse suffix) (reverse text)

abbrev pub contains : Text → Text → Bool
contains needle [] = is_empty needle
contains needle (c ∷ cs) = starts_with needle (c ∷ cs) || contains needle cs

-- `char::is_whitespace`: the code points with the property White_Space.
abbrev pub is_whitespace : ℕ → Bool
is_whitespace c =
    within 0x09 0x0d c
    || c == 0x20
    || c == 0x85
    || c == 0xa0
    || c == 0x1680
    || within 0x2000 0x200a c
    || c == 0x2028
    || c == 0x2029
    || c == 0x202f
    || c == 0x205f
    || c == 0x3000

abbrev pub trim_start_by : (ℕ → Bool) → Text → Text
trim_start_by p [] = []
trim_start_by p (c ∷ cs) = let rest = trim_start_by p cs in if p c then rest else c ∷ cs

abbrev pub trim_end_by : (ℕ → Bool) → Text → Text
trim_end_by p text = reverse (trim_start_by p (reverse text))

abbrev pub trim : Text → Text
trim text = trim_end_by is_whitespace (trim_start_by is_whitespace text)

abbrev pub to_ascii_lower : ℕ → ℕ
to_ascii_lower c = if within 65 90 c then c + 32 else c

abbrev pub to_ascii_lowercase : Text → Text
to_ascii_lowercase = map to_ascii_lower

abbrev pub is_ascii_hexdigit : ℕ → Bool
is_ascii_hexdigit c = within 48 57 c || within 65 70 c || within 97 102 c

abbrev pub is_ascii_whitespace : ℕ → Bool
is_ascii_whitespace c = c == 9 || c == 10 || c == 12 || c == 13 || c == 32

-- `text.len()`: the bytes of the UTF-8 form.
abbrev pub utf8_width : ℕ → ℕ
utf8_width c = if ltb c 0x80 then 1 else if ltb c 0x800 then 2 else if ltb c 0x10000 then 3 else 4

abbrev pub utf8_len : Text → ℕ
utf8_len [] = 0
utf8_len (c ∷ cs) = utf8_width c + utf8_len cs

-- `iter().filter(p).count()`.
abbrev pub count_by : (ℕ → Bool) → List ℕ → ℕ
count_by p [] = 0
count_by p (c ∷ cs) = (if p c then 1 else 0) + count_by p cs

-- `n.to_string()` for a 64-bit number, which has 20 digits at most.
abbrev pub decimal_digits : ℕ → ℕ → Text → Text
decimal_digits zero n out = out
decimal_digits (suc fuel) n out =
    let more = decimal_digits fuel (n / 10) ((48 + n % 10) ∷ out) in
    if ltb n 10 then (48 + n) ∷ out else more

unfoldable pub decimal : ℕ → Text
decimal n = decimal_digits 20 n []
