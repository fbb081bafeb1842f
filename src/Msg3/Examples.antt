-- ===== src/Msg3/Examples.antt =====
-- Runs of the Msg3 parser, and its theorems at concrete inputs.
use qq_analyzer.Base.{
  ℕ, ◌+◌, ◌-◌, ◌^◌, ◌≤◌, List, [], ◌∷◌, ◌++◌, map, Bool, true, false, some, length, slice, All, ◌≡◌,
  refl, arith,
}
use qq_analyzer.Text.{Text, lit}
use qq_analyzer.TxData.Fields.{decode_txdata_fields}
use qq_analyzer.TxData.Layout.{RawField, Fits, put_fields, interpret}
use qq_analyzer.TxData.Record.{put_record}
use qq_analyzer.Msg3.Outcome.{panicked, IsDone}
use qq_analyzer.Msg3.Varint.{read_varint, varint_loop, put_varint, read_varint-put_varint}
use qq_analyzer.Msg3.Proto.{looks_like_proto, proto_loop, skip_field, skip_value}
use qq_analyzer.Msg3.ProtoStrings.{collect_proto_strings}
use qq_analyzer.Msg3.ProtoFields.{collect_proto_fields}
use qq_analyzer.Msg3.ProtoSafe.{collect_proto_fields-IsDone}
use qq_analyzer.Msg3.ProtoPanic.{sized_field, collect_proto_strings-panics}
use qq_analyzer.Msg3.Frames.{td_marker, td_record_len, td_fields_end, td_field_len}
use qq_analyzer.Msg3.FrameLayout.{td_record_len-complete}
use qq_analyzer.Msg3.FrameWrite.{td_record_len-put_record}

abbrev no_gb18030 : List ℕ → Text × Bool
no_gb18030 bytes = ([], true)

-- One field, `1: 150`.
proto_test : looks_like_proto (0x08 ∷ 0x96 ∷ 0x01 ∷ []) ≡ true
unfolding looks_like_proto proto_loop skip_field skip_value read_varint varint_loop
proto_test = refl

read_varint-put_varint_example : read_varint (put_varint 9 300 ++ (7 ∷ [])) ≡ (some 300, 7 ∷ [])
read_varint-put_varint_example = read_varint-put_varint 300 (7 ∷ []) (omega arith)

collect_proto_fields-IsDone_example :
    IsDone (collect_proto_fields (0x08 ∷ 0x96 ∷ 0x01 ∷ []) 0 (lit "payload") [])
collect_proto_fields-IsDone_example =
    collect_proto_fields-IsDone (0x08 ∷ 0x96 ∷ 0x01 ∷ []) 0 (lit "payload") [] (omega arith)

-- The bytes 0a ff ff ff ff ff ff ff ff ff 01: field 1 with a length of 2 ^ 64 - 1.
collect_proto_strings-panics_example :
    (looks_like_proto (sized_field 1 (2 ^ 64 - 1) []) ≡ false)
    × (collect_proto_strings (sized_field 1 (2 ^ 64 - 1) []) 0 [] ≡ panicked)
collect_proto_strings-panics_example =
    collect_proto_strings-panics 1 (2 ^ 64 - 1) [] (omega arith) (omega arith) (omega arith)
      (unfold put_varint in omega arith) (omega arith)

abbrev small_field : RawField
small_field = record { header = 8; raw_name = 1 ∷ 2 ∷ []; value = [] }

small-Fits : All Fits (small_field ∷ [])
small-Fits =
    (record { header_byte = omega arith; name_fits = omega arith; value_fits = omega arith }, tt)

td_record_len-put_record_example :
    td_record_len ((7 ∷ []) ++ (td_marker ++ (1 ∷ 0 ∷ put_fields (small_field ∷ []) (9 ∷ [])))) 1
    ≡ some (4 + length (put_record (small_field ∷ [])))
td_record_len-put_record_example =
    td_record_len-put_record (7 ∷ []) (small_field ∷ []) (9 ∷ []) (omega arith) small-Fits

abbrev framed_bytes : List ℕ
framed_bytes = 84 ∷ 68 ∷ 1 ∷ 1 ∷ 1 ∷ 0 ∷ 8 ∷ 2 ∷ 0 ∷ 1 ∷ 2 ∷ 0 ∷ 0 ∷ 0 ∷ 0 ∷ 33 ∷ []

framed_len : td_record_len framed_bytes 0 ≡ some 15
unfolding td_record_len td_fields_end td_field_len
framed_len = refl

td_record_len-complete_example :
    (fs : List RawField) × (length fs ≤ 200)
    × (slice (0 + 4) (0 + 15) framed_bytes ≡ put_record fs)
    × (decode_txdata_fields no_gb18030 (slice (0 + 4) (0 + 15) framed_bytes)
        ≡ record { count = length fs; complete = true; fields = map (interpret no_gb18030) fs })
td_record_len-complete_example =
    td_record_len-complete no_gb18030 framed_bytes 0 15 (omega arith) framed_len
