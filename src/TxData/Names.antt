-- ===== src/TxData/Names.antt =====
-- Round trips of TXData text: masked ASCII, masked UTF-16, and records with ASCII names.
use qq_analyzer.Base.{
  ℕ, ◌/◌, ◌%◌, ◌<◌, ◌≤◌, List, [], ◌∷◌, Bool, true, false, ◌==◌, any, all, length, All, IsBytes,
  ◌≡◌, refl, arith,
}
use qq_analyzer.Text.{Text, utf8_len}
use qq_analyzer.Text.Utf8.{from_utf8-ascii}
use qq_analyzer.Text.Utf16.{encode_utf16, IsScalar, from_utf16-encode_utf16}
use qq_analyzer.TxData.Mask.{decode_txdata_obfuscated_bytes, encode_txdata_string, decode-encode}
use qq_analyzer.TxData.Strings.{
  is_printable_ascii, is_odd_control, reasonable_text, printable_ascii_text, decode_utf16le_text,
  decode_txdata_string, units16, is_even,
}

abbrev pub IsPrintable : Text → Type 0
IsPrintable = All (λ b. is_printable_ascii b ≡ true)

printable-lt : (t : Text) → IsPrintable t → All (λ b. b < 128) t
printable-lt [] h = tt
printable-lt (c ∷ cs) h = (ground arith, printable-lt cs h.1)

pub printable-IsBytes : (t : Text) → IsPrintable t → IsBytes t
printable-IsBytes [] h = tt
printable-IsBytes (c ∷ cs) h = (ground arith, printable-IsBytes cs h.1)

printable-utf8_len : (t : Text) → IsPrintable t → utf8_len t ≡ length t
printable-utf8_len [] h = refl
printable-utf8_len (c ∷ cs) h = ground (arith, printable-utf8_len cs h.1)

printable-no_replacement : (t : Text) → IsPrintable t → any (λ c. c == 0xfffd) t ≡ false
printable-no_replacement [] h = refl
printable-no_replacement (c ∷ cs) h = ground (arith, printable-no_replacement cs h.1)

printable-no_control : (t : Text) → IsPrintable t → any is_odd_control t ≡ false
printable-no_control [] h = refl
printable-no_control (c ∷ cs) h = ground (arith, printable-no_control cs h.1)

printable-all : (t : Text) → IsPrintable t → all is_printable_ascii t ≡ true
printable-all [] h = refl
printable-all (c ∷ cs) h = ground (arith, printable-all cs h.1)

pub reasonable_text-printable :
    (t : Text) → IsPrintable t → 1 ≤ length t → length t ≤ 65536 → reasonable_text t ≡ true
unfolding reasonable_text
reasonable_text-printable [] h l u = absurd (omega arith)
reasonable_text-printable (c ∷ cs) h l u =
    simp (printable-no_replacement (c ∷ cs) h, printable-no_control (c ∷ cs) h)
      (ground (arith, printable-utf8_len (c ∷ cs) h))

pub printable_ascii_text-printable :
    (t : Text) → IsPrintable t → 1 ≤ length t → length t ≤ 4096 → printable_ascii_text t ≡ t
unfolding printable_ascii_text
printable_ascii_text-printable [] h l u = absurd (omega arith)
printable_ascii_text-printable (c ∷ cs) h l u =
    simp
      (
        printable-all (c ∷ cs) h,
        from_utf8-ascii (c ∷ cs) (printable-lt (c ∷ cs) h),
        reasonable_text-printable (c ∷ cs) h l (omega arith),
      )
      (ground arith)

module _ (gb18030 : List ℕ → Text × Bool) where
  -- The text of a masked string is the text of its plain bytes.
  decode_txdata_string-ascii :
      (bytes t : List ℕ)
      → decode_txdata_obfuscated_bytes bytes ≡ t
      → printable_ascii_text t ≡ t
      → 1 ≤ length t
      → decode_txdata_string gb18030 bytes ≡ t
  unfolding decode_txdata_string
  decode_txdata_string-ascii bytes [] e p h = absurd (omega arith)
  decode_txdata_string-ascii bytes (c ∷ cs) e p h = rw (e, p)

  decode_txdata_string-wide :
      (bytes plain : List ℕ) (t : Text)
      → decode_txdata_obfuscated_bytes bytes ≡ plain
      → 1 ≤ length plain
      → printable_ascii_text plain ≡ []
      → decode_utf16le_text plain ≡ t
      → 1 ≤ length t
      → decode_txdata_string gb18030 bytes ≡ t
  unfolding decode_txdata_string
  decode_txdata_string-wide bytes [] t e l p w h = absurd (omega arith)
  decode_txdata_string-wide bytes (b ∷ bs) [] e l p w h = absurd (omega arith)
  decode_txdata_string-wide bytes (b ∷ bs) (c ∷ cs) e l p w h = rw (e, p, w)

  -- A printable ASCII name of 1 to 4096 characters is read back as it was encoded.
  pub decode-encode_ascii :
      (t : Text)
      → IsPrintable t
      → 1 ≤ length t
      → length t ≤ 4096
      → decode_txdata_string gb18030 (encode_txdata_string t) ≡ t
  decode-encode_ascii t h l u =
      decode_txdata_string-ascii (encode_txdata_string t) t
        (decode-encode t (omega arith) (printable-IsBytes t h))
        (printable_ascii_text-printable t h l u) l

-- The little-endian bytes of UTF-16 units.
abbrev pub unit_bytes : List ℕ → List ℕ
unit_bytes [] = []
unit_bytes (u ∷ us) = u % 256 ∷ u / 256 % 256 ∷ unit_bytes us

units16-unit_bytes : (us : List ℕ) → All (λ u. u < 65536) us → units16 (unit_bytes us) ≡ us
units16-unit_bytes [] h = refl
units16-unit_bytes (u ∷ us) h = ground (arith, units16-unit_bytes us h.1)

unit_bytes-IsBytes : (us : List ℕ) → IsBytes (unit_bytes us)
unit_bytes-IsBytes [] = tt
unit_bytes-IsBytes (u ∷ us) = (omega arith, (omega arith, unit_bytes-IsBytes us))

unit_bytes-even : (us : List ℕ) → is_even (length (unit_bytes us)) ≡ true
unit_bytes-even [] = refl
unit_bytes-even (u ∷ us) = ground (arith, unit_bytes-even us)

-- A text that the wide form can hold: scalar values, none of them zero.
abbrev pub IsWide : Text → Type 0
IsWide = All (λ c. IsScalar c × (1 ≤ c))

wide-scalars : (t : Text) → IsWide t → All IsScalar t
wide-scalars [] h = tt
wide-scalars (c ∷ cs) h = (h.0.0, wide-scalars cs h.1)

encode_utf16-units : (t : Text) → IsWide t → All (λ u. u < 65536) (encode_utf16 t)
unfolding encode_utf16
encode_utf16-units [] h = tt
encode_utf16-units (c ∷ cs) h = ground (arith, encode_utf16-units cs h.1)

encode_utf16-no_zero : (t : Text) → IsWide t → any (λ u. u == 0) (encode_utf16 t) ≡ false
unfolding encode_utf16
encode_utf16-no_zero [] h = refl
encode_utf16-no_zero (c ∷ cs) h = ground (arith, encode_utf16-no_zero cs h.1)

encode_utf16-pos : (t : Text) → 1 ≤ length t → 2 ≤ length (unit_bytes (encode_utf16 t))
unfolding encode_utf16
encode_utf16-pos [] h = absurd (omega arith)
encode_utf16-pos (c ∷ cs) h = ground arith

decode_utf16le_text-encode :
    (t : Text)
    → IsWide t
    → 1 ≤ length t
    → reasonable_text t ≡ true
    → decode_utf16le_text (unit_bytes (encode_utf16 t)) ≡ t
unfolding decode_utf16le_text
decode_utf16le_text-encode t wide l ok =
    simp
      (
        unit_bytes-even (encode_utf16 t),
        units16-unit_bytes (encode_utf16 t) (encode_utf16-units t wide),
        encode_utf16-no_zero t wide,
        from_utf16-encode_utf16 t (wide-scalars t wide),
        ok,
      )
      (ground (arith, encode_utf16-pos t l))

module _ (gb18030 : List ℕ → Text × Bool) where
  -- A text of Unicode scalar values is read back from its masked UTF-16 bytes, if it is not empty and
  -- has no zero, is a reasonable text by the reader's own test (so that it has no replacement character
  -- and no control character but tab, newline and return), and its bytes are at most 0xffff and not all
  -- printable ASCII.
  pub decode-encode_wide :
      (t : Text)
      → IsWide t
      → 1 ≤ length t
      → reasonable_text t ≡ true
      → length (unit_bytes (encode_utf16 t)) ≤ 0xffff
      → all is_printable_ascii (unit_bytes (encode_utf16 t)) ≡ false
      → decode_txdata_string gb18030 (encode_txdata_string (unit_bytes (encode_utf16 t))) ≡ t
  decode-encode_wide t wide l ok fits not_ascii =
      let plain : List ℕ = unit_bytes (encode_utf16 t) in
      decode_txdata_string-wide gb18030 (encode_txdata_string plain) plain t
        (decode-encode plain fits (unit_bytes-IsBytes (encode_utf16 t)))
        (omega (arith, encode_utf16-pos t l)) (unfold printable_ascii_text in ground arith)
        (decode_utf16le_text-encode t wide l ok) l
