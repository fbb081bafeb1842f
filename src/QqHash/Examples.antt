-- ===== src/QqHash/Examples.antt =====
-- Runs of the hash codec, and its theorems at concrete inputs.
use qq_analyzer.Base.{ℕ, List, [], ◌∷◌, map, some, none, length, IsBytes, ◌≡◌, refl, arith}
use qq_analyzer.Text.{Text, lit}
use qq_analyzer.Msg3.Outcome.{panicked}
use qq_analyzer.QqHash.Hex.{decode_hex_16, hex_rounds, decode_hex_16-panics}
use qq_analyzer.QqHash.{
  divide, divide_out, digit_of, digits_of, to_ascii_upper, encode_hash, decode_hash,
}
use qq_analyzer.QqHash.RoundTrip.{decode-encode_hash, encode-decode_hash}

-- A hash of the tests of the source.
abbrev group_hash : List ℕ
group_hash =
    0x29 ∷ 0xd0 ∷ 0x46 ∷ 0xbc ∷ 0xf6 ∷ 0xa1 ∷ 0xb4 ∷ 0x29 ∷ 0xd4 ∷ 0xe4 ∷ 0x31 ∷ 0x80 ∷ 0x6c ∷ 0x87
    ∷ 0xb8 ∷ 0x13 ∷ []

abbrev zero_text : Text
zero_text = lit "00000000000000000000000"

abbrev low_text : Text
low_text = lit "a0000000000000000000000"

abbrev ten : List ℕ
ten = 10 ∷ 0 ∷ 0 ∷ 0 ∷ 0 ∷ 0 ∷ 0 ∷ 0 ∷ 0 ∷ 0 ∷ 0 ∷ 0 ∷ 0 ∷ 0 ∷ 0 ∷ 0 ∷ []

low_decodes : decode_hash low_text ≡ some ten
unfolding decode_hash digits_of digit_of divide_out divide
low_decodes = refl

-- The largest text stands for 48 ^ 23 - 1, which does not fit 16 bytes.
too_large : decode_hash (lit "_______________________") ≡ none
unfolding decode_hash digits_of digit_of divide_out divide
too_large = refl

decode-encode_hash_example :
    (text : Text) × (encode_hash group_hash ≡ some text)
    × (length text ≡ 23)
    × (decode_hash text ≡ some group_hash)
decode-encode_hash_example = decode-encode_hash group_hash (omega arith) refl

encode-decode_hash_example :
    (length ten ≡ 16) × IsBytes ten × (encode_hash ten ≡ some (map to_ascii_upper low_text))
encode-decode_hash_example = encode-decode_hash low_text ten low_decodes

-- A euro sign and 29 zeros: 32 bytes.
decode_hex_16-panics_example : decode_hex_16 (lit "€00000000000000000000000000000") ≡ panicked
decode_hex_16-panics_example =
    decode_hex_16-panics 0x20ac (lit "00000000000000000000000000000") (omega arith) refl refl

-- A plus sign before a digit is read as a number of one digit.
plus_test :
    decode_hex_16 (lit "+1000000000000000000000000000000")
    ≡ decode_hex_16 (lit "01000000000000000000000000000000")
unfolding decode_hex_16 hex_rounds
plus_test = refl
