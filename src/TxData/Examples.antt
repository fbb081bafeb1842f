-- ===== src/TxData/Examples.antt =====
-- Runs of the TXData codec, and its theorems at concrete inputs.
use mathlib.Core.Logic.{◌↔◌}
use qq_analyzer.Base.{ℕ, ◌≤◌, List, [], ◌∷◌, map, Bool, true, length, All, ◌≡◌, refl, arith}
use qq_analyzer.Text.{Text, lit}
use qq_analyzer.TxData.Mask.{decode_txdata_obfuscated_bytes, encode_txdata_string, length_key, mask}
use qq_analyzer.TxData.Strings.{
  decode_txdata_string, looks_like_structured_text, decode_fixed_high_byte_string,
  decode_fixed_high_byte_strings, printable_ascii_text, decode_utf16le_text, reasonable_text,
  scan_high_byte_runs, high_byte_run, txdata_xor_high_byte, decoded_byte_texts,
}
use qq_analyzer.Text.Utf8.{from_utf8}
use qq_analyzer.TxData.Fields.{decode_txdata_fields, read_fields, read_field, field_texts}
use qq_analyzer.TxData.Layout.{RawField, Fits}
use qq_analyzer.TxData.Record.{put_record, IsFront, decode-IsFront}
use qq_analyzer.TxData.Complete.{complete_iff}
use qq_analyzer.TxData.Names.{unit_bytes, decode-encode_wide}
use qq_analyzer.TxData.Encode.{
  NamedField, txdata_record, plain_field, IsEncodable, decode-txdata_record,
}
use qq_analyzer.Text.Utf16.{encode_utf16, from_utf16}

-- A GB18030 decoder that reads ASCII bytes as they are and reports an error otherwise.
abbrev no_gb18030 : List ℕ → Text × Bool
no_gb18030 bytes = ([], true)

-- The first test of the source: "@pl 早上好".
wide_test :
    decode_txdata_string no_gb18030 (
      0xb1 ∷ 0xf1 ∷ 0x81 ∷ 0xf1 ∷ 0x9d ∷ 0xf1 ∷ 0xd1 ∷ 0xf1 ∷ 0x18 ∷ 0x94 ∷ 0xfb ∷ 0xbf ∷ 0x8c
      ∷ 0xa8 ∷ [])
    ≡ lit "@pl 早上好"
unfolding decode_txdata_string decode_txdata_obfuscated_bytes mask length_key printable_ascii_text
    decode_utf16le_text from_utf16 reasonable_text
wide_test = refl

-- The test of a string field: header 8, name "bsAbstractText".
abbrev seq_field : NamedField
seq_field = record { header = 6; name = lit "dwMsgSeq"; value = 0xaa ∷ 0x4f ∷ 0x0c ∷ 0 ∷ [] }

abbrev path_field : NamedField
path_field = record {
  header = 9;
  name = lit "bufPicInfoServerPath";
  value = encode_txdata_string (lit "UserDataImage:C2C\\Image2\\abc.png");
}

-- The buffer field keeps its path, as in the test of the source.
path_test :
    map
      (λ t. t.value_texts)
      (decode_txdata_fields no_gb18030 (txdata_record (path_field ∷ []))).fields
    ≡ (lit "UserDataImage:C2C\\Image2\\abc.png" ∷ []) ∷ []
unfolding txdata_record encode_txdata_string decode_txdata_fields read_fields read_field field_texts
    decode_fixed_high_byte_string decode_fixed_high_byte_strings scan_high_byte_runs high_byte_run
    txdata_xor_high_byte decoded_byte_texts decode_txdata_string decode_txdata_obfuscated_bytes mask
    length_key printable_ascii_text decode_utf16le_text from_utf16 from_utf8 reasonable_text
    looks_like_structured_text
path_test = refl

seq-IsEncodable : IsEncodable seq_field
seq-IsEncodable = record {
  header_byte = omega arith;
  printable = (refl, (refl, (refl, (refl, (refl, (refl, (refl, (refl, tt))))))));
  named = omega arith;
  name_fits = omega arith;
  value_fits = omega arith;
}

decode-txdata_record_example :
    decode_txdata_fields no_gb18030 (txdata_record (seq_field ∷ []))
    ≡ record { count = 1; complete = true; fields = plain_field no_gb18030 seq_field ∷ [] }
decode-txdata_record_example =
    decode-txdata_record no_gb18030 (seq_field ∷ []) (omega arith) (seq-IsEncodable, tt)

decode-encode_wide_example :
    decode_txdata_string no_gb18030 (encode_txdata_string (unit_bytes (encode_utf16 (lit "早上好"))))
    ≡ lit "早上好"
decode-encode_wide_example =
    decode-encode_wide no_gb18030 (lit "早上好") (omega arith) (omega arith)
      (unfold reasonable_text in refl) (unfold encode_utf16 in omega arith)
      (unfold encode_utf16 in refl)

-- One field of header 8 with the name bytes 1 2 and no value.
abbrev small_field : RawField
small_field = record { header = 8; raw_name = 1 ∷ 2 ∷ []; value = [] }

complete_iff_example :
    ((decode_txdata_fields no_gb18030 (put_record (small_field ∷ []))).complete ≡ true) ↔ (
      (fs : List RawField) × (length fs ≤ 200)
      × All Fits fs
      × (put_record (small_field ∷ []) ≡ put_record fs))
complete_iff_example = complete_iff no_gb18030 (put_record (small_field ∷ [])) (omega arith)

-- A record that declares two fields and holds one.
abbrev cut_record : List ℕ
cut_record = 2 ∷ 0 ∷ 8 ∷ 2 ∷ 0 ∷ 1 ∷ 2 ∷ 0 ∷ 0 ∷ 0 ∷ 0 ∷ []

decode-IsFront_example : IsFront no_gb18030 cut_record
decode-IsFront_example =
    decode-IsFront no_gb18030 cut_record (omega arith) (omega arith) (omega arith) (omega arith)
