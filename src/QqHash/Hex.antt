-- ===== src/QqHash/Hex.antt =====
-- `decode_hex_16` of qq_hash.rs: 16 bytes from their hex digits.
use qq_analyzer.Base.{
  ℕ, zero, suc, ◌+◌, ◌-◌, ◌*◌, ◌/◌, ◌%◌, ◌≤◌, ◌<◌, List, [], ◌∷◌, Option, none, some, Bool, true,
  false, not, ◌||◌, ◌&&◌, ltb, within, ◌==◌, if◌then◌else◌, length, IsBytes, table, table_entry,
  ◌≡◌, refl, sym, ap, ◌∙◌, arith,
}
use qq_analyzer.Text.{Text, utf8_width, utf8_len, is_ascii_whitespace}
use qq_analyzer.Msg3.Outcome.{Outcome, done, panicked}

abbrev pub is_hex_filler : ℕ → Bool
is_hex_filler c = is_ascii_whitespace c || c == b':' || c == b'-'

abbrev pub cleaned : Text → Text
cleaned [] = []
cleaned (c ∷ cs) = let rest = cleaned cs in if is_hex_filler c then rest else c ∷ rest

-- `char::to_digit(16)`.
abbrev pub hex_digit : ℕ → Option ℕ
hex_digit c =
    if within 48 57 c
    then some (c - 48)
    else if within 65 70 c
    then some (c - 55)
    else if within 97 102 c
    then some (c - 87)
    else none

abbrev both_digits : Option ℕ → Option ℕ → Option ℕ
both_digits none low = none
both_digits (some high) none = none
both_digits (some high) (some low) = some (16 * high + low)

-- `u8::from_str_radix` of two characters of one byte each: a plus sign in front is allowed.
abbrev pub from_radix_16 : ℕ → ℕ → Option ℕ
from_radix_16 c d = if c == b'+' then hex_digit d else both_digits (hex_digit c) (hex_digit d)

abbrev add_byte : ℕ → Outcome (Option (List ℕ)) → Outcome (Option (List ℕ))
add_byte b panicked = panicked
add_byte b (done none) = done none
add_byte b (done (some bs)) = done (some (b ∷ bs))

-- The rounds from one character boundary on. The slice of two bytes is cut inside a character, and
-- panics, unless it holds two characters of one byte, or one of two, which is no hex number.
unfoldable pub hex_rounds : ℕ → Text → Outcome (Option (List ℕ))
hex_rounds zero text = done (some [])
hex_rounds (suc n) [] = panicked
hex_rounds (suc n) (c ∷ []) = if utf8_width c == 2 then done none else panicked
hex_rounds (suc n) (c ∷ d ∷ rest) =
    if utf8_width c == 2
    then done none
    else if not (utf8_width c == 1 && utf8_width d == 1)
    then panicked
    else elim (from_radix_16 c d) [ none ↦ done none | some b ↦ add_byte b (hex_rounds n rest) ]

unfoldable pub decode_hex_16 : Text → Outcome (Option (List ℕ))
decode_hex_16 hex =
    let clean = cleaned hex in if not (utf8_len clean == 32) then done none else hex_rounds 16 clean

-- The digits of a nibble and of bytes, in lower case.
abbrev pub nibble : ℕ → ℕ
nibble n = if ltb n 10 then 48 + n else 87 + n

abbrev pub put_hex : List ℕ → Text
put_hex [] = []
put_hex (b ∷ bs) = nibble (b / 16) ∷ nibble (b % 16) ∷ put_hex bs

abbrev is_byte : ℕ → Option ℕ → Bool
is_byte b none = false
is_byte b (some c) = b == c

byte_table : table (λ b. is_byte b (from_radix_16 (nibble (b / 16)) (nibble (b % 16)))) 256 ≡ true
unfolding table
byte_table = refl

is_byte→eq : (b : ℕ) (o : Option ℕ) → is_byte b o ≡ true → o ≡ some b
is_byte→eq b none h = absurd (ground arith)
is_byte→eq b (some c) h = ground arith

radix-nibbles : (b : ℕ) → b < 256 → from_radix_16 (nibble (b / 16)) (nibble (b % 16)) ≡ some b
radix-nibbles b h = is_byte→eq b _ (table_entry _ 256 b h byte_table)

-- A nibble's digit is a character of one byte and is not filtered out.
nibble-table : table (λ n. utf8_width (nibble n) == 1 && not (is_hex_filler (nibble n))) 16 ≡ true
unfolding table
nibble-table = refl

plain_parts : (w : ℕ) (filler : Bool) → (w == 1 && not filler) ≡ true → (w ≡ 1) × (filler ≡ false)
plain_parts w true h = absurd (ground arith)
plain_parts w false h = (ground arith, refl)

plain_nibble : (n : ℕ) → n < 16 → (utf8_width (nibble n) ≡ 1) × (is_hex_filler (nibble n) ≡ false)
plain_nibble n h =
    let plain =
      table_entry (λ k. utf8_width (nibble k) == 1 && not (is_hex_filler (nibble k))) 16 n h
        nibble-table in
    plain_parts (utf8_width (nibble n)) (is_hex_filler (nibble n)) plain

hex_rounds-put_hex :
    (bs : List ℕ) → IsBytes bs → hex_rounds (length bs) (put_hex bs) ≡ done (some bs)
unfolding hex_rounds
hex_rounds-put_hex [] h = refl
hex_rounds-put_hex (b ∷ bs) h =
    let high = plain_nibble (b / 16) (omega (arith, h.0)) in
    let low = plain_nibble (b % 16) (omega arith) in
    rw (high.0, low.0, radix-nibbles b h.0) (ap (add_byte b) (hex_rounds-put_hex bs h.1))

cleaned-put_hex : (bs : List ℕ) → IsBytes bs → cleaned (put_hex bs) ≡ put_hex bs
cleaned-put_hex [] h = refl
cleaned-put_hex (b ∷ bs) h =
    let high = plain_nibble (b / 16) (omega (arith, h.0)) in
    let low = plain_nibble (b % 16) (omega arith) in
    rw (high.1, low.1) (ap (λ t. nibble (b / 16) ∷ nibble (b % 16) ∷ t) (cleaned-put_hex bs h.1))

utf8_len-put_hex : (bs : List ℕ) → IsBytes bs → utf8_len (put_hex bs) ≡ 2 * length bs
utf8_len-put_hex [] h = omega arith
utf8_len-put_hex (b ∷ bs) h =
    let high = plain_nibble (b / 16) (omega (arith, h.0)) in
    let low = plain_nibble (b % 16) (omega arith) in
    omega (arith, high.0, low.0, utf8_len-put_hex bs h.1)

-- The hex digits of 16 bytes decode to the bytes.
pub decode_hex_16-put_hex :
    (bs : List ℕ) → IsBytes bs → length bs ≡ 16 → decode_hex_16 (put_hex bs) ≡ done (some bs)
unfolding decode_hex_16
decode_hex_16-put_hex bs h l =
    let len : utf8_len (put_hex bs) ≡ 32 = omega (arith, l, utf8_len-put_hex bs h) in
    rw (cleaned-put_hex bs h, len)
      (ap (λ n. hex_rounds n (put_hex bs)) (sym l) ∙ hex_rounds-put_hex bs h)

wide_not : (w k : ℕ) → 3 ≤ w → k < 3 → (w == k) ≡ false
wide_not w k h l = ground arith

wide_lem : (n c : ℕ) (text : Text) → 3 ≤ utf8_width c → hex_rounds (suc n) (c ∷ text) ≡ panicked
unfolding hex_rounds
wide_lem n c [] wide =
    let two : (utf8_width c == 2) ≡ false = wide_not (utf8_width c) 2 wide (omega arith) in
    rw two refl
wide_lem n c (d ∷ rest) wide =
    let two : (utf8_width c == 2) ≡ false = wide_not (utf8_width c) 2 wide (omega arith) in
    let one : (utf8_width c == 1) ≡ false = wide_not (utf8_width c) 1 wide (omega arith) in
    rw (two, one) refl

-- A text of 32 bytes that begins with a character of three bytes or more makes the slice panic.
pub decode_hex_16-panics :
    (c : ℕ) (rest : Text)
    → 3 ≤ utf8_width c
    → is_hex_filler c ≡ false
    → utf8_len (cleaned (c ∷ rest)) ≡ 32
    → decode_hex_16 (c ∷ rest) ≡ panicked
unfolding decode_hex_16
decode_hex_16-panics c rest wide kept len = rw len (rw kept (wide_lem 15 c (cleaned rest) wide))
