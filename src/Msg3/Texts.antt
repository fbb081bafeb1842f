-- ===== src/Msg3/Texts.antt =====
-- Text tests and decoders of the Msg3 parser.
use qq_analyzer.Base.{
  ℕ, ◌+◌, ◌*◌, ◌/◌, List, [], ◌∷◌, Option, none, some, Bool, false, not, ◌&&◌, ◌||◌, ltb, leb,
  within, ◌==◌, if◌then◌else◌, length, any, max,
}
use qq_analyzer.Text.{Text, lit, text_eq, is_empty, starts_with, utf8_len, count_by, trim_end_by}
use qq_analyzer.Text.Utf8.{from_utf8, from_utf8_lossy}
use qq_analyzer.Text.Utf16.{from_utf16_lossy, is_high, is_low}
use qq_analyzer.TxData.Strings.{is_odd_control, is_even}

-- `utf16le_to_string`: zero units and unpaired surrogates are left out.
abbrev kept_units : List ℕ → List ℕ
kept_units [] = []
kept_units (a ∷ []) = []
kept_units (a ∷ b ∷ []) =
    let w = a + 256 * b in if w == 0 || within 0xd800 0xdfff w then [] else w ∷ []
kept_units (a ∷ b ∷ c ∷ []) =
    let w = a + 256 * b in if w == 0 || within 0xd800 0xdfff w then [] else w ∷ []
kept_units (a ∷ b ∷ c ∷ d ∷ rest) =
    let w = a + 256 * b in
    let w2 = c + 256 * d in
    let paired = w ∷ w2 ∷ kept_units rest in
    let dropped = kept_units (c ∷ d ∷ rest) in
    let kept = w ∷ kept_units (c ∷ d ∷ rest) in
    if w == 0
    then dropped
    else if is_high w
    then (if is_low w2 then paired else dropped)
    else if is_low w
    then dropped
    else kept

unfoldable pub utf16le_to_string : List ℕ → Text
utf16le_to_string bytes = from_utf16_lossy (kept_units bytes)

abbrev is_suspicious : ℕ → Bool
is_suspicious c =
    within 0xe000 0xf8ff c
    || within 0xac00 0xd7af c
    || within 0x1200 0x137f c
    || within 0xa000 0xa63f c
    || within 0x2c80 0x2cff c
    || is_odd_control c

unfoldable pub suspicious_score : Text → ℕ
suspicious_score text = count_by is_suspicious text

unfoldable pub reasonable_text : Text → Bool
reasonable_text text =
    if is_empty text || ltb 4096 (utf8_len text)
    then false
    else if length text == 0 || not (count_by is_odd_control text == 0)
    then false
    else leb (suspicious_score text * 20) (length text)

unfoldable pub reasonable_field_text : Text → Bool
reasonable_field_text text =
    if is_empty text || ltb 4096 (utf8_len text)
    then false
    else if any (λ c. c == 0xfffd) text
    then false
    else if ltb (max (length text) 1) (suspicious_score text * 20)
    then false
    else not (any is_odd_control text)

abbrev kept_if_valid : Option Text → Option Text
kept_if_valid none = none
kept_if_valid (some decoded) =
    let text = trim_end_by (λ c. c == 0xfffd) decoded in
    if any (λ c. c == 0xfffd) text then none else if reasonable_text text then some text else none

unfoldable pub valid_utf8_text : List ℕ → Option Text
valid_utf8_text bytes =
    if is_empty bytes || any (λ b. b == 0) bytes then none else kept_if_valid (from_utf8 bytes)

unfoldable pub is_generic_token : Text → Bool
is_generic_token text =
    is_empty text
    || text_eq text (lit "platform")
    || starts_with (lit "com.tencent.") text
    || starts_with (lit "UserDataImage:") text
    || starts_with (lit "UserDataCustomFace:") text
    || starts_with (lit "UserDataRoot:") text
    || starts_with (lit "FaceStore:") text
    || starts_with (lit "GlobalSysTemp:") text
    || starts_with (lit "sysres:") text

-- `plausible_utf16le`: the counts of units, of printable ones and of suspicious ones.
abbrev is_printable_unit : ℕ → Bool
is_printable_unit w = w == 9 || w == 10 || w == 13 || (leb 0x20 w && ltb w 0xd800) || leb 0xe000 w

abbrev is_suspicious_unit : ℕ → Bool
is_suspicious_unit w = within 0xe000 0xf8ff w || within 0xac00 0xd7af w

abbrev one_if : Bool → ℕ
one_if b = if b then 1 else 0

pub record UnitCounts : Type 0 where
  pub chars : ℕ
  pub printable : ℕ
  pub suspicious : ℕ

abbrev count_pair : UnitCounts → UnitCounts
count_pair n = record n { chars = n.chars + 1; printable = n.printable + 1 }

abbrev count_unit : ℕ → UnitCounts → UnitCounts
count_unit w n = if w == 0 then n else record {
  chars = n.chars + 1;
  printable = n.printable + one_if (is_printable_unit w);
  suspicious = n.suspicious + one_if (is_suspicious_unit w);
}

abbrev count_units : List ℕ → UnitCounts → UnitCounts
count_units [] n = n
count_units (a ∷ []) n = n
count_units (a ∷ b ∷ []) n = count_unit (a + 256 * b) n
count_units (a ∷ b ∷ c ∷ []) n = count_unit (a + 256 * b) n
count_units (a ∷ b ∷ c ∷ d ∷ rest) n =
    let paired = count_units rest (count_pair n) in
    let single = count_units (c ∷ d ∷ rest) (count_unit (a + 256 * b) n) in
    if is_high (a + 256 * b) && is_low (c + 256 * d) then paired else single

abbrev plausible_counts : UnitCounts → Bool
plausible_counts n =
    ltb 0 n.chars && leb 90 (n.printable * 100 / n.chars) && leb (n.suspicious * 20) n.chars

unfoldable pub plausible_utf16le : List ℕ → Bool
plausible_utf16le bytes =
    if ltb (length bytes) 2 || not (is_even (length bytes))
    then false
    else plausible_counts (count_units bytes (record { chars = 0; printable = 0; suspicious = 0 }))

abbrev is_plain_byte : ℕ → Bool
is_plain_byte b = b == 9 || b == 10 || b == 13 || within 0x20 0x7e b

unfoldable pub plausible_ascii : List ℕ → Bool
plausible_ascii bytes =
    if ltb (length bytes) 3
    then false
    else leb 90 (count_by is_plain_byte bytes * 100 / length bytes)

abbrev without_zero : List ℕ → List ℕ
without_zero [] = []
without_zero (b ∷ bs) = let rest = without_zero bs in if b == 0 then rest else b ∷ rest

unfoldable pub ascii_text : List ℕ → Text
ascii_text bytes = from_utf8_lossy (without_zero bytes)
