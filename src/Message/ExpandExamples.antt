-- ===== src/Message/ExpandExamples.antt =====
-- The expansion of a forwarded message at a concrete input.
use qq_analyzer.Base.{ℕ, true, ◌≤◌, List, [], ◌∷◌, ◌++◌, none, length, put16, put32, ◌≡◌, refl}
use qq_analyzer.Text.{lit}
use qq_analyzer.TxData.Mask.{encode_txdata_string, decode_txdata_obfuscated_bytes, length_key, mask}
use qq_analyzer.Msg3.Outcome.{done}
use qq_analyzer.Message.Element.{Crates}
use qq_analyzer.Message.Gaps.{
  exact_utf16le_text, next_standard_element_start, raw_gap_element, raw_record_len,
  standard_element_len_at,
}
use qq_analyzer.Message.Items.{split_items, split_mmp_msgpack_stream}
use qq_analyzer.Message.Parse.{content_loop, content_round, parse_msgcontent}
use qq_analyzer.Message.Summary.{starts_with_td_ta}
use qq_analyzer.Msg3.Elements.{fields_from, parse_fields, valid_element_type}
use qq_analyzer.Msg3.Frames.{td_field_len, td_fields_end, td_record_len}
use qq_analyzer.Msg3.Records.{
  parse_td_ta_records_at, parse_txdata_fields, records_at, records_loop, records_round, td_record,
}
use qq_analyzer.Msg3.Texts.{reasonable_field_text, suspicious_score}
use qq_analyzer.Msg3.WideTexts.{td_xor_wide_texts, wide_loop}
use qq_analyzer.Text.Utf16.{from_utf16}
use qq_analyzer.Text.Utf8.{from_utf8}
use qq_analyzer.TxData.Fields.{decode_txdata_fields, read_field, read_fields}
use qq_analyzer.TxData.Strings.{
  decode_fixed_high_byte_string, decode_txdata_string, printable_ascii_text, reasonable_text,
}
use qq_analyzer.Message.Expand.{
  MmpItems, parse_info_mmp_items, expand_at, items_loop, parse_info_mmp_items_value,
  txdata_lenkey_plain,
}
use qq_analyzer.Message.ExpandLimits.{count, height, items_or_none, parse_info_mmp_items-limits}
use qq_analyzer.Message.ItemsRound.{put_stream}

abbrev bare : Crates
bare = record { gb18030 = λ bytes. ([], true); inflate = λ bytes. none; parse_json = λ text. none }

abbrev short_message : List ℕ
short_message = lit "MSG" ++ 0 ∷ 0 ∷ 0 ∷ 0 ∷ 0 ∷ []

-- A TD record with one field, which holds the stream of two items.
abbrev stream_field : List ℕ → List ℕ
stream_field plain =
    let name = encode_txdata_string (lit "buffMsgPackListStream") in
    let value = encode_txdata_string plain in
    0x54 ∷ 0x44 ∷ 1 ∷ 1 ∷ put16 1 (4 ∷ put16 (length name) (name ++ put32 (length value) value))

abbrev forwarded : List ℕ
forwarded = stream_field (
    put_stream
      ((short_message ++ stream_field (put_stream (short_message ∷ []))) ∷ short_message ∷ []))

abbrev forwarded_items : MmpItems
forwarded_items = items_or_none (parse_info_mmp_items bare forwarded)

forwarded_parses : parse_info_mmp_items bare forwarded ≡ done forwarded_items
unfolding from_utf16 from_utf8 read_field read_fields decode_txdata_fields length_key mask
    decode_txdata_obfuscated_bytes encode_txdata_string reasonable_text printable_ascii_text
    decode_txdata_string decode_fixed_high_byte_string valid_element_type fields_from parse_fields
    td_field_len td_fields_end td_record_len parse_txdata_fields td_record records_round
    records_loop records_at parse_td_ta_records_at suspicious_score reasonable_field_text wide_loop
    td_xor_wide_texts txdata_lenkey_plain items_loop expand_at parse_info_mmp_items_value
    parse_info_mmp_items raw_record_len standard_element_len_at next_standard_element_start
    exact_utf16le_text raw_gap_element split_items split_mmp_msgpack_stream content_round
    content_loop parse_msgcontent starts_with_td_ta
forwarded_parses = refl

parse_info_mmp_items-limits_example : (count forwarded_items ≤ 2000) × (height forwarded_items ≤ 8)
parse_info_mmp_items-limits_example =
    parse_info_mmp_items-limits bare forwarded forwarded_items forwarded_parses
