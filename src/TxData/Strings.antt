-- ===== src/TxData/Strings.antt =====
-- Text in TXData values: the plain, the UTF-16 and the wide masked forms.
use qq_analyzer.Base.{
  ℕ, zero, suc, ◌+◌, ◌-◌, ◌*◌, ◌/◌, List, [], ◌∷◌, ◌++◌, Option, none, some, Bool, true, false, not,
  ◌&&◌, ◌||◌, ltb, leb, within, ◌==◌, if◌then◌else◌, length, any, all, bit_xor,
}
use qq_analyzer.Text.{
  Text, lit, member, is_empty, starts_with, ends_with, contains, trim, to_ascii_lowercase,
  is_ascii_hexdigit, utf8_len, count_by,
}
use qq_analyzer.Text.Utf8.{from_utf8}
use qq_analyzer.Text.Utf16.{from_utf16}
use qq_analyzer.TxData.Mask.{decode_txdata_obfuscated_bytes}

unfoldable pub txdata_xor_high_byte : ℕ → Bool
txdata_xor_high_byte hi = within 0x50 0x7f hi || leb 0x80 hi

-- A control character other than newline, return and tab.
abbrev pub is_odd_control : ℕ → Bool
is_odd_control c = ltb c 0x20 && not (c == 10) && not (c == 13) && not (c == 9)

unfoldable pub reasonable_text : Text → Bool
reasonable_text text =
    if is_empty text || ltb 65536 (utf8_len text)
    then false
    else if any (λ c. c == 0xfffd) text
    then false
    else not (any is_odd_control text)

-- `chunks_exact(2)` read as 16-bit units; an odd byte at the end is left out.
abbrev pub units16 : List ℕ → List ℕ
units16 [] = []
units16 (a ∷ []) = []
units16 (a ∷ b ∷ rest) = (a + 256 * b) ∷ units16 rest

abbrev pub is_even : ℕ → Bool
is_even zero = true
is_even (suc n) = not (is_even n)

abbrev kept_if_reasonable : Option Text → Text
kept_if_reasonable none = []
kept_if_reasonable (some text) = if reasonable_text text then text else []

unfoldable pub decode_utf16le_text : List ℕ → Text
decode_utf16le_text bytes =
    if ltb (length bytes) 2 || not (is_even (length bytes))
    then []
    else if any (λ u. u == 0) (units16 bytes)
    then []
    else kept_if_reasonable (from_utf16 (units16 bytes))

abbrev pub txdata_numeric_name : Text → Bool
txdata_numeric_name name =
    starts_with (lit "dw") name
    || starts_with (lit "n") name
    || starts_with (lit "b") name
    || starts_with (lit "c") name
    || starts_with (lit "w") name
    || starts_with (lit "u") name

abbrev struct_exts : List Text
struct_exts =
    lit ".jpg"
    ∷ lit ".jpeg"
    ∷ lit ".png"
    ∷ lit ".gif"
    ∷ lit ".webp"
    ∷ lit ".bmp"
    ∷ lit ".amr"
    ∷ lit ".mp3"
    ∷ lit ".wav"
    ∷ lit ".m4a"
    ∷ lit ".mp4"
    ∷ lit ".mov"
    ∷ lit ".pdf"
    ∷ lit ".doc"
    ∷ lit ".docx"
    ∷ lit ".xls"
    ∷ lit ".xlsx"
    ∷ lit ".zip"
    ∷ lit ".rar"
    ∷ lit ".7z"
    ∷ []

unfoldable pub looks_like_structured_text : Text → Bool
looks_like_structured_text text =
    let trimmed = trim text in
    if ltb (utf8_len trimmed) 4
    then false
    else if starts_with (lit "http://") trimmed
        || starts_with (lit "https://") trimmed
        || starts_with (lit "UserData") trimmed
        || starts_with (lit "OSRoot:") trimmed
        || starts_with (lit "sysres:") trimmed
        || contains (lit "/") trimmed
        || contains (lit "\\") trimmed
    then true
    else if any (λ ext. ends_with ext (to_ascii_lowercase trimmed)) struct_exts
    then true
    else leb 16 (utf8_len trimmed)
      && leb 80 (count_by is_ascii_hexdigit trimmed * 100 / utf8_len trimmed)

abbrev pub is_printable_ascii : ℕ → Bool
is_printable_ascii b = b == 0x09 || b == 0x0a || b == 0x0d || within 0x20 0x7e b

unfoldable pub printable_ascii_text : List ℕ → Text
printable_ascii_text bytes =
    if is_empty bytes || ltb 4096 (length bytes)
    then []
    else if not (all is_printable_ascii bytes)
    then []
    else kept_if_reasonable (from_utf8 bytes)

abbrev first_or_empty : List Text → Text
first_or_empty [] = []
first_or_empty (t ∷ ts) = t

-- Pairs whose high byte is `hi`, unmasked by it, up to a zero or an odd control character.
unfoldable pub high_byte_run : ℕ → List ℕ → List ℕ
high_byte_run hi [] = []
high_byte_run hi (lo ∷ []) = []
high_byte_run hi (lo ∷ h ∷ rest) =
    let c = bit_xor lo hi in
    let more = high_byte_run hi rest in
    if not (h == hi) || c == 0 || (ltb c 0x20 && not (c == 9) && not (c == 10) && not (c == 13))
    then []
    else c ∷ more

abbrev pub push_new : List Text → List Text → List Text
push_new out [] = out
push_new out (t ∷ ts) = push_new (if member t out then out else out ++ (t ∷ [])) ts

-- `encoding_rs::GB18030.decode`: the text, and whether there were errors.
module _ (gb18030 : List ℕ → Text × Bool) where
  abbrev utf8_texts : List ℕ → List Text
  utf8_texts bytes = elim (from_utf8 bytes) [
    | none ↦ []
    | some text ↦ if reasonable_text text then text ∷ [] else []
  ]

  abbrev with_gb18030 : List Text → Text × Bool → List Text
  with_gb18030 out (text, had_errors) =
      if not had_errors && reasonable_text text && not (member text out)
      then out ++ (text ∷ [])
      else out

  unfoldable pub decoded_byte_texts : List ℕ → List Text
  decoded_byte_texts bytes =
      if is_empty bytes || any (λ b. b == 0) bytes
      then []
      else with_gb18030 (utf8_texts bytes) (gb18030 bytes)

  abbrev text_of_plain : List ℕ → Text
  text_of_plain plain =
      let ascii = printable_ascii_text plain in
      let wide = decode_utf16le_text plain in
      if is_empty plain
      then []
      else if not (is_empty ascii)
      then ascii
      else if not (is_empty wide)
      then wide
      else first_or_empty (decoded_byte_texts plain)

  unfoldable pub decode_txdata_string : List ℕ → Text
  decode_txdata_string bytes = text_of_plain (decode_txdata_obfuscated_bytes bytes)

  unfoldable pub decode_fixed_high_byte_string : List ℕ → Text
  decode_fixed_high_byte_string bytes = decode_txdata_string bytes

  -- The scan from one position: where it goes on, as the bytes still to skip, and the texts so far.
  abbrev scan_step : ℕ → ℕ → List ℕ → List Text → ℕ × List Text
  scan_step lo hi rest out =
      let run = high_byte_run hi (lo ∷ hi ∷ rest) in
      if not (txdata_xor_high_byte hi)
      then (0, out)
      else if leb 4 (length run)
      then (2 * length run - 1, push_new out (decoded_byte_texts run))
      else (0, out)

  -- `skip` bytes are passed over; the list is what is left from `i`.
  unfoldable pub scan_high_byte_runs : ℕ → List ℕ → List Text → List Text
  scan_high_byte_runs skip [] out = out
  scan_high_byte_runs (suc skip) (b ∷ rest) out = scan_high_byte_runs skip rest out
  scan_high_byte_runs zero (lo ∷ []) out = out
  scan_high_byte_runs zero (lo ∷ hi ∷ rest) out =
      let next = scan_step lo hi rest out in
      let more = scan_high_byte_runs next.0 (hi ∷ rest) next.1 in
      if ltb (length out) 32 then more else out

  unfoldable pub decode_fixed_high_byte_strings : List ℕ → List Text
  decode_fixed_high_byte_strings bytes =
      let full = decode_txdata_string bytes in
      scan_high_byte_runs 0 bytes (if is_empty full then [] else full ∷ [])
