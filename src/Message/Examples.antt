-- ===== src/Message/Examples.antt =====
-- Runs of the message layer, and its theorems at concrete inputs.
use qq_analyzer.Base.{
  ℕ, ◌+◌, ◌^◌, ◌-◌, List, [], ◌∷◌, ◌++◌, map, none, some, true, false, length, All, ◌≡◌, refl,
  arith, any,
}
use qq_analyzer.Text.{Text, lit}
use qq_analyzer.Msg3.Outcome.{Outcome, done, panicked, ◌>>=◌}
use qq_analyzer.Msg3.Elements.{valid_element_type, parse_fields, fields_from}
use qq_analyzer.Msg3.ProtoPanic.{sized_field}
use qq_analyzer.Msg3.Frames.{marker_record_len}
use qq_analyzer.Message.Labels.{
  has_unresolved_visible_txdata_text, system_message_label, has_transport_metadata,
  is_mmt_transport_index, av_call_label, transport_only_label,
}
use qq_analyzer.Message.Xml.{multi_msg_display_text, structured_txdata_display_text}
use qq_analyzer.Msg3.Proto.{skip_field, skip_value, looks_like_proto, proto_loop}
use qq_analyzer.Message.Runs.{utf16le_embedded_strings}
use qq_analyzer.Message.Named.{first_txdata_named_text, txdata_named_texts, has_txdata_named_field}
use qq_analyzer.Message.Summary.{
  useful_element, useful_element, summarize_element, starts_with_td_ta, first_meaningful_text,
}
use qq_analyzer.Msg3.ProtoFields.{collect_proto_fields, fields_at}
use qq_analyzer.Message.Embedded.{trim_media_path, embedded_visible_elements}
use qq_analyzer.Msg3.Records.{find_markers}
use qq_analyzer.Text.Find.{find}
use qq_analyzer.Msg3.ProtoStrings.{strings_loop, collect_proto_strings, strings_at, strings_round}
use qq_analyzer.Text.Utf16.{from_utf16}
use qq_analyzer.Message.Element.{Crates, Element, tlv_tag_name, tlv_loop, collect_ctx_tlvs}
use qq_analyzer.Message.Parse.{
  parse_msgcontent, with_embedded, content_loop, content_round, collected,
}
use qq_analyzer.Msg3.Varint.{put_varint, read_varint, varint_loop}
use qq_analyzer.Message.Gaps.{
  raw_record_len, next_standard_element_start, standard_element_len_at, raw_gap_element,
}
use qq_analyzer.Message.Prefilter.{filter_loop, filter_round, msgcontent_maybe_contains_multi_msg}
use qq_analyzer.Message.Items.{split_mmp_msgpack_stream}
use qq_analyzer.Message.Written.{Written, IsWritten, put_element, put_elements}
use qq_analyzer.Message.ReadBack.{AreUseful, in_order, parse_msgcontent-put_elements}
use qq_analyzer.Message.Escape.{json_escape}
use qq_analyzer.Message.EscapeRead.{read_string, read_string-json_escape}
use qq_analyzer.Message.Crash.{parse_msgcontent-panics}
use qq_analyzer.Message.Scan.{IsParse, parse_msgcontent-IsParse}
use qq_analyzer.Message.ScanFuel.{content_loop-fuel}
use qq_analyzer.Message.FilterElements.{is_multi_msg, maybe_contains-put_elements}
use qq_analyzer.Message.ItemsRound.{put_stream, IsItem, split_mmp_msgpack_stream-put_stream}
use qq_analyzer.Message.ItemsStream.{IsStream, split_mmp_msgpack_stream-IsStream}

abbrev bare : Crates
bare = record { gb18030 = λ bytes. ([], true); inflate = λ bytes. none; parse_json = λ text. none }

-- A useless element of type 7, whose payload holds an element of type 0x1e with a TLV record.
abbrev hidden : List ℕ
hidden = 7 ∷ 10 ∷ 0 ∷ 255 ∷ 255 ∷ 255 ∷ 30 ∷ 4 ∷ 0 ∷ 29 ∷ 0 ∷ 1 ∷ 5 ∷ []

abbrev elements_of : Outcome (List Element) → List Element
elements_of panicked = []
elements_of (done es) = es

abbrev place_of : Element → ℕ × ℕ
place_of e = (e.offset, e.typ)

hidden_parses : parse_msgcontent bare hidden ≡ done (elements_of (parse_msgcontent bare hidden))
unfolding valid_element_type fields_from parse_fields marker_record_len skip_value skip_field
    proto_loop looks_like_proto fields_at collect_proto_fields strings_round strings_loop strings_at
    collect_proto_strings find_markers varint_loop read_varint tlv_tag_name tlv_loop
    collect_ctx_tlvs raw_record_len standard_element_len_at next_standard_element_start
    raw_gap_element txdata_named_texts first_txdata_named_text collected content_round content_loop
    parse_msgcontent starts_with_td_ta first_meaningful_text summarize_element useful_element
    structured_txdata_display_text multi_msg_display_text
hidden_parses = refl

hidden_found : map place_of (elements_of (parse_msgcontent bare hidden)) ≡ (6, 30) ∷ []
unfolding find from_utf16 valid_element_type fields_from parse_fields marker_record_len skip_value
    skip_field proto_loop looks_like_proto fields_at collect_proto_fields strings_round strings_loop
    strings_at collect_proto_strings find_markers varint_loop read_varint tlv_tag_name tlv_loop
    collect_ctx_tlvs trim_media_path embedded_visible_elements raw_record_len
    standard_element_len_at next_standard_element_start raw_gap_element is_mmt_transport_index
    has_transport_metadata has_unresolved_visible_txdata_text system_message_label av_call_label
    transport_only_label txdata_named_texts first_txdata_named_text has_txdata_named_field collected
    content_round content_loop parse_msgcontent utf16le_embedded_strings starts_with_td_ta
    first_meaningful_text summarize_element useful_element structured_txdata_display_text
    multi_msg_display_text
hidden_found = refl

hidden_missed : msgcontent_maybe_contains_multi_msg hidden ≡ false
unfolding msgcontent_maybe_contains_multi_msg filter_loop filter_round raw_record_len
    valid_element_type
hidden_missed = refl

abbrev header : List ℕ
header = lit "MSG" ++ 0 ∷ 0 ∷ 0 ∷ 0 ∷ 0 ∷ 0 ∷ 0 ∷ 0 ∷ 0 ∷ 0 ∷ 0 ∷ 0 ∷ 0 ∷ 0 ∷ 0 ∷ 0 ∷ 0 ∷ []

abbrev layout_and_text : List Written
layout_and_text = (0x0e, []) ∷ (0x12, 1 ∷ 0 ∷ 0 ∷ []) ∷ []

layout_and_text-IsWritten : All IsWritten layout_and_text
unfolding valid_element_type put_varint
layout_and_text-IsWritten = (
  record { standard = refl; narrow = omega arith; plain = refl },
  (record { standard = refl; narrow = omega arith; plain = refl }, tt),
)

are_useful : AreUseful bare 20 layout_and_text
unfolding fields_from parse_fields marker_record_len skip_field proto_loop looks_like_proto
    fields_at collect_proto_fields strings_round strings_loop strings_at collect_proto_strings
    find_markers varint_loop read_varint tlv_loop collect_ctx_tlvs collected starts_with_td_ta
    summarize_element useful_element
are_useful = (refl, (refl, tt))

parse_msgcontent-put_elements_example :
    parse_msgcontent bare (header ++ put_elements layout_and_text []) ≡ (
      in_order bare 20 layout_and_text (λ end. done [])
      >>= (λ es. done (with_embedded (header ++ put_elements layout_and_text []) es)))
parse_msgcontent-put_elements_example =
    parse_msgcontent-put_elements bare header layout_and_text (refl, refl) layout_and_text-IsWritten
      are_useful

abbrev bad_payload : List ℕ
bad_payload = sized_field 1 (2 ^ 64 - 1) []

bad_payload-IsWritten : IsWritten (0x19, bad_payload)
unfolding valid_element_type put_varint
bad_payload-IsWritten = record { standard = refl; narrow = omega arith; plain = refl }

parse_msgcontent-panics_example :
    parse_msgcontent bare
      (header ++ put_elements layout_and_text (put_element (0x19, bad_payload) (7 ∷ [])))
    ≡ panicked
parse_msgcontent-panics_example =
    parse_msgcontent-panics bare header layout_and_text 0x19 1 (2 ^ 64 - 1) [] (7 ∷ []) (refl, refl)
      layout_and_text-IsWritten are_useful bad_payload-IsWritten (omega arith) (omega arith)
      (omega arith) (unfold put_varint in omega arith)

parse_msgcontent-IsParse_example : IsParse bare hidden (elements_of (parse_msgcontent bare hidden))
parse_msgcontent-IsParse_example =
    parse_msgcontent-IsParse bare hidden (elements_of (parse_msgcontent bare hidden)) (omega arith)
      hidden_parses

content_loop-fuel_example :
    content_loop bare (2 + length hidden) 0 hidden ≡ content_loop bare (length hidden) 0 hidden
content_loop-fuel_example = content_loop-fuel bare 2 0 hidden (omega arith)

abbrev one_multi : List Written
one_multi = (0x0e, []) ∷ (0x1e, 1 ∷ 2 ∷ 3 ∷ []) ∷ []

one_multi-IsWritten : All IsWritten one_multi
unfolding valid_element_type put_varint
one_multi-IsWritten = (
  record { standard = refl; narrow = omega arith; plain = refl },
  (record { standard = refl; narrow = omega arith; plain = refl }, tt),
)

maybe_contains-put_elements_example :
    msgcontent_maybe_contains_multi_msg (header ++ put_elements one_multi [])
    ≡ any is_multi_msg one_multi
maybe_contains-put_elements_example =
    maybe_contains-put_elements header one_multi (refl, refl) one_multi-IsWritten

abbrev two_items : List (List ℕ)
two_items = header ∷ (lit "MSG" ++ 1 ∷ 2 ∷ 3 ∷ 4 ∷ 5 ∷ []) ∷ []

two_items-IsItem : All IsItem two_items
two_items-IsItem = (
  record { long = omega arith; narrow = omega arith; marked = refl },
  (record { long = omega arith; narrow = omega arith; marked = refl }, tt),
)

split_mmp_msgpack_stream-put_stream_example :
    split_mmp_msgpack_stream (put_stream two_items) ≡ two_items
split_mmp_msgpack_stream-put_stream_example =
    split_mmp_msgpack_stream-put_stream two_items (omega arith) (omega arith) (omega arith)
      two_items-IsItem

split_mmp_msgpack_stream-IsStream_example : IsStream (put_stream two_items) two_items
split_mmp_msgpack_stream-IsStream_example =
    split_mmp_msgpack_stream-IsStream (put_stream two_items) header
      ((lit "MSG" ++ 1 ∷ 2 ∷ 3 ∷ 4 ∷ 5 ∷ []) ∷ []) (omega arith)
      (split_mmp_msgpack_stream-put_stream two_items (omega arith) (omega arith) (omega arith)
        two_items-IsItem)

-- A quoted word, a backspace and two control characters without a short form.
abbrev odd_text : Text
odd_text = lit "say \"1\"" ++ 8 ∷ 1 ∷ 0x1f ∷ []

read_string-json_escape_example :
    read_string (json_escape odd_text ++ 34 ∷ lit "]") ≡ some (odd_text, lit "]")
read_string-json_escape_example = read_string-json_escape odd_text (lit "]")

escaped_text : json_escape odd_text ≡ lit "say \\\"1\\\"\\b\\u0001\\u001f"
unfolding json_escape
escaped_text = refl
