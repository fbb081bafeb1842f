-- ===== src/Msg3/RecordExamples.antt =====
-- Runs of the record and element layers of the Msg3 parser, and their theorems at concrete inputs.
use qq_analyzer.Base.{ℕ, List, [], ◌∷◌, map, Bool, true, All, ◌≡◌, refl, arith}
use qq_analyzer.Text.{Text}
use qq_analyzer.TxData.Fields.{decode_txdata_fields, read_fields, read_field}
use qq_analyzer.Msg3.Frames.{td_record_len, td_fields_end, td_field_len}
use qq_analyzer.Msg3.Records.{
  TdRecord, parse_td_records, parse_td_ta_records_at, records_at, records_loop, records_round,
  td_record, parse_txdata_fields,
}
use qq_analyzer.Msg3.RecordsSound.{IsSound, parse_td_records-IsSound}
use qq_analyzer.Msg3.Elements.{fields_from, parse_fields}
use qq_analyzer.Msg3.ElementFields.{IsParsed, parse_fields-IsParsed}

abbrev no_gb18030 : List ℕ → Text × Bool
no_gb18030 bytes = ([], true)

-- A byte, then a TD record of one field whose value is a TD record without fields.
abbrev nested_bytes : List ℕ
nested_bytes =
    7 ∷ 84 ∷ 68 ∷ 1 ∷ 1 ∷ 1 ∷ 0 ∷ 9 ∷ 2 ∷ 0 ∷ 1 ∷ 2 ∷ 6 ∷ 0 ∷ 0 ∷ 0 ∷ 84 ∷ 68 ∷ 1 ∷ 1 ∷ 0 ∷ 0 ∷ []

finds_both : map (λ r. r.offset) (parse_td_records no_gb18030 nested_bytes) ≡ 5 ∷ 1 ∷ []
unfolding parse_td_records parse_td_ta_records_at records_at records_loop records_round
    td_record_len td_fields_end td_field_len td_record parse_txdata_fields decode_txdata_fields
    read_fields read_field
finds_both = refl

parse_td_records-IsSound_example : All IsSound (parse_td_records no_gb18030 nested_bytes)
parse_td_records-IsSound_example = parse_td_records-IsSound no_gb18030 nested_bytes (omega arith)

abbrev no_nested : List ℕ → ℕ → List TdRecord → List TdRecord
no_nested bytes base out = out

parse_fields-IsParsed_example :
    IsParsed 2 (1 ∷ 2 ∷ 0 ∷ 65 ∷ 66 ∷ 9 ∷ []) (parse_fields 2 (1 ∷ 2 ∷ 0 ∷ 65 ∷ 66 ∷ 9 ∷ []))
parse_fields-IsParsed_example = parse_fields-IsParsed 2 (1 ∷ 2 ∷ 0 ∷ 65 ∷ 66 ∷ 9 ∷ []) (omega arith)

parses_one :
    map (λ f. f.value) (parse_fields 2 (1 ∷ 2 ∷ 0 ∷ 65 ∷ 66 ∷ 9 ∷ [])) ≡ (65 ∷ 66 ∷ []) ∷ []
unfolding parse_fields fields_from
parses_one = refl
