-- ===== src/Msg3/Records.antt =====
-- `parse_td_ta_records_at` of msg3_parser.rs and what it calls: the TD and TA records in a payload.
use qq_analyzer.Base.{
  ℕ, zero, suc, ◌+◌, ◌-◌, List, [], ◌∷◌, ◌++◌, Option, none, some, Bool, true, false, not, ◌&&◌,
  ◌||◌, ltb, leb, min, max, if◌then◌else◌, length, take, drop, slice, byte_at, le32,
}
use qq_analyzer.Text.{Text, lit, starts_with, decimal}
use qq_analyzer.Text.Utf8.{from_utf8_lossy}
use qq_analyzer.TxData.Fields.{TxDataField, TxDataRecord, decode_txdata_fields}
use qq_analyzer.Msg3.Frames.{td_marker, ta_marker, td_record_len, ta_record_len, marker_record_len}
use qq_analyzer.Msg3.WideTexts.{td_xor_wide_texts, td_low_byte_candidate}

-- The subtype and the trailer are never set by the functions of this file.
pub record TdRecord : Type 0 where
  pub offset : ℕ
  pub tag : Text
  pub field : ℕ
  pub len : ℕ
  pub len_fits : Bool
  pub payload : List ℕ
  pub low_bytes : List ℕ
  pub decoded_texts : List Text
  pub txdata_field_count : ℕ
  pub txdata_complete : Bool
  pub txdata_fields : List TxDataField
  pub parse_errors : List Text

-- `for i in 0..data.len().saturating_sub(3)`, counting from `i`.
abbrev pub markers_from : ℕ → List ℕ → List (ℕ × Text)
markers_from i [] = []
markers_from i (b ∷ rest) =
    let more = markers_from (suc i) rest in
    elim (marker_record_len (b ∷ rest) 0) [
      | none ↦ more
      | some len ↦ (i, from_utf8_lossy (take 2 (b ∷ rest))) ∷ more
    ]

unfoldable pub find_markers : List ℕ → List (ℕ × Text)
find_markers bytes = markers_from 0 bytes

-- `format!("incomplete TXData record: ..")`.
abbrev pub incomplete_error : ℕ → ℕ → ℕ → Text
incomplete_error declared parsed input_len =
    lit "incomplete TXData record: declared_field_count="
    ++ decimal declared
    ++ lit ", parsed_field_count="
    ++ decimal parsed
    ++ lit ", input_len="
    ++ decimal input_len
    ++ lit "; structured rich parsing will not consume this partial record"

abbrev pub no_fields : List TxDataField → Bool
no_fields [] = true
no_fields (f ∷ fs) = false

abbrev pub with_decoded : TxDataRecord → List ℕ → TdRecord → TdRecord
with_decoded decoded bytes rec = record rec {
  txdata_field_count = decoded.count;
  txdata_complete = decoded.complete;
  txdata_fields = decoded.fields;
  parse_errors =
      if not (no_fields decoded.fields) && not decoded.complete
      then rec.parse_errors
        ++ (incomplete_error decoded.count (length decoded.fields) (length bytes) ∷ [])
      else rec.parse_errors;
}

abbrev pub new_record : ℕ → Text → List ℕ → TdRecord
new_record offset tag payload = record {
  offset = offset;
  tag = tag;
  field = 0;
  len = 0;
  len_fits = true;
  payload = payload;
  low_bytes = [];
  decoded_texts = [];
  txdata_field_count = 0;
  txdata_complete = false;
  txdata_fields = [];
  parse_errors = [];
}

module _ (gb18030 : List ℕ → Text × Bool) where
  unfoldable pub parse_txdata_fields : List ℕ → TdRecord → TdRecord
  parse_txdata_fields bytes rec = with_decoded (decode_txdata_fields gb18030 bytes) bytes rec

  -- The TD record, its nested records aside.
  unfoldable pub td_record : ℕ → List ℕ → TdRecord
  td_record offset payload =
      let rec = parse_txdata_fields payload (new_record offset (lit "TD") payload) in
      record rec {
        low_bytes = td_low_byte_candidate payload;
        decoded_texts =
            if no_fields rec.txdata_fields then td_xor_wide_texts gb18030 payload else [];
      }

  abbrev pub ta_record : ℕ → ℕ → List ℕ → TdRecord
  ta_record offset count payload = record (new_record offset (lit "TA") payload) {
    txdata_complete = true;
    txdata_field_count = min count 65535;
  }

  abbrev pub ta_item : ℕ → ℕ → List ℕ → TdRecord
  ta_item offset header value = record (new_record offset (lit "TA_ITEM") value) {
    field = header;
    len = min (length value) 65535;
    txdata_complete = true;
    decoded_texts = td_xor_wide_texts gb18030 value;
    low_bytes = td_low_byte_candidate value;
  }

  -- `nested` is the call of `parse_td_ta_records_at` one level deeper.
  module _ (nested : List ℕ → ℕ → List TdRecord → List TdRecord) where
    abbrev pub nested_fields : List TxDataField → ℕ → List TdRecord → List TdRecord
    nested_fields [] base out = out
    nested_fields (f ∷ fs) base out = nested_fields fs base (nested f.value base out)

    -- The items of a TA record; `body` is what is left of the record, and `item_offset` is
    -- `base_offset + item_pos`.
    unfoldable pub ta_items : ℕ → List ℕ → ℕ → List TdRecord → List TdRecord
    ta_items zero body item_offset out = out
    ta_items (suc n) body item_offset out =
        let value_len = le32 (drop 1 body) in
        let value = take value_len (drop 5 body) in
        elim (ltb (length body) 5 || ltb (length (drop 5 body)) value_len) [
          | true ↦ out
          | false ↦ ta_items n (drop value_len (drop 5 body)) (item_offset + 5 + value_len) (
              nested value (item_offset + 5)
                (out ++ (ta_item item_offset (byte_at body 0) value ∷ [])))
        ]

    -- What a round at `rest` does, where `offset` is `base_offset + pos`: how far `pos` moves, and
    -- the records.
    abbrev pub td_round : Option ℕ → List ℕ → ℕ → List TdRecord → ℕ × List TdRecord
    td_round none rest offset out = (1, out)
    td_round (some len) rest offset out =
        let rec = td_record offset (slice 4 len rest) in
        (max len 1, nested_fields rec.txdata_fields (offset + 4) out ++ (rec ∷ []))

    abbrev pub ta_round : Option ℕ → List ℕ → ℕ → List TdRecord → ℕ × List TdRecord
    ta_round none rest offset out = (1, out)
    ta_round (some len) rest offset out =
        let count = le32 (drop 4 rest) in
        (
          max len 1,
          ta_items count (slice 8 len rest) (offset + 8)
              (out ++ (ta_record offset count (slice 4 len rest) ∷ [])),
        )

    unfoldable pub records_round : List ℕ → ℕ → List TdRecord → ℕ × List TdRecord
    records_round rest offset out =
        if starts_with td_marker rest
        then td_round (td_record_len rest 0) rest offset out
        else if starts_with ta_marker rest
        then ta_round (ta_record_len rest 0) rest offset out
        else (1, out)

    -- Each round moves on by a byte at least; the fuel is the length of the data.
    unfoldable pub records_loop : ℕ → List ℕ → ℕ → List TdRecord → List TdRecord
    records_loop zero rest offset out = out
    records_loop (suc fuel) rest offset out =
        elim (ltb (length rest) 4 || not (ltb (length out) 400)) [
          | true ↦ out
          | false ↦
              let round = records_round rest offset out in
              records_loop fuel (drop round.0 rest) (offset + round.0) round.1
        ]

  -- `levels` is 9 less the depth.
  unfoldable pub records_at : ℕ → List ℕ → ℕ → List TdRecord → List TdRecord
  records_at zero bytes base_offset out = out
  records_at (suc levels) bytes base_offset out =
      if leb 400 (length out)
      then out
      else records_loop (records_at levels) (length bytes) bytes base_offset out

  unfoldable pub parse_td_ta_records_at : List ℕ → ℕ → ℕ → List TdRecord → List TdRecord
  parse_td_ta_records_at bytes base_offset depth out = records_at (9 - depth) bytes base_offset out

  unfoldable pub parse_td_records : List ℕ → List TdRecord
  parse_td_records bytes = parse_td_ta_records_at bytes 0 0 []
