-- ===== src/TxData/Fields.antt =====
-- The TXData record: a count, then for each field a header, a name and a value.
use qq_analyzer.Base.{
  ℕ, zero, suc, List, [], ◌∷◌, ◌++◌, Option, none, some, Bool, true, false, not, ◌&&◌, ◌||◌, ltb,
  ◌==◌, if◌then◌else◌, length, take, drop, byte_at, le16, le32,
}
use qq_analyzer.Text.{Text, lit, is_empty, starts_with}
use qq_analyzer.TxData.Strings.{
  decode_fixed_high_byte_string, decode_fixed_high_byte_strings, txdata_numeric_name,
  looks_like_structured_text,
}

pub record TxDataField : Type 0 where
  pub header : ℕ
  pub name : Text
  pub value_len : ℕ
  pub value : List ℕ
  pub value_texts : List Text
  pub value_text_len : ℕ

pub record TxDataRecord : Type 0 where
  pub count : ℕ
  pub complete : Bool
  pub fields : List TxDataField

abbrev keep_structured : List Text → List Text
keep_structured [] = []
keep_structured (t ∷ ts) =
    let kept = keep_structured ts in if looks_like_structured_text t then t ∷ kept else kept

abbrev pub is_numeric : ℕ → Text → Bool
is_numeric header name =
    (header == 1 || header == 2 || header == 3 || header == 4 || header == 6)
    && txdata_numeric_name name

abbrev pub finish : ℕ → Bool × List ℕ × List TxDataField → TxDataRecord
finish count (complete, rest, fields) = record {
  count = count;
  complete = complete && length rest == 0;
  fields = fields;
}

module _ (gb18030 : List ℕ → Text × Bool) where
  abbrev string_texts : Text → List ℕ → List Text × ℕ
  string_texts full value = if not (is_empty full) then (full ∷ [], length value) else ([], 0)

  -- `value_texts` and `value_text_len` of a field.
  unfoldable pub field_texts : ℕ → Text → List ℕ → List Text × ℕ
  field_texts header name value =
      if is_numeric header name
      then ([], 0)
      else if header == 8
      then string_texts (decode_fixed_high_byte_string gb18030 value) value
      else if header == 9 || starts_with (lit "buf") name || starts_with (lit "guid") name
      then (keep_structured (decode_fixed_high_byte_strings gb18030 value), 0)
      else ([], 0)

  abbrev pub named_field : ℕ → Text → ℕ → List ℕ → TxDataField
  named_field header name value_len value =
      let texts = field_texts header name value in
      record {
        header = header;
        name = name;
        value_len = value_len;
        value = value;
        value_texts = texts.0;
        value_text_len = texts.1;
      }

  abbrev pub make_field : ℕ → List ℕ → ℕ → List ℕ → TxDataField
  make_field header raw_name value_len value =
      named_field header (decode_fixed_high_byte_string gb18030 raw_name) value_len value

  -- One round of the loop over the bytes from `pos` on; `none` is the `break`.
  unfoldable pub read_field : List ℕ → Option (TxDataField × List ℕ)
  read_field rest =
      if ltb (length rest) 3
      then none
      else let name_len = le16 (drop 1 rest) in
        let named = drop 3 rest in
        if ltb (length named) name_len
        then none
        else let sized = drop name_len named in
          if ltb (length sized) 4
          then none
          else let n = le32 sized in
            let valued = drop 4 sized in
            if ltb (length valued) n
            then none
            else some
                (make_field (byte_at rest 0) (take name_len named) n (take n valued), drop n valued)

  -- `for _ in 0..count`: `complete`, the bytes left and the fields.
  unfoldable pub read_fields : ℕ → List ℕ → List TxDataField → Bool × List ℕ × List TxDataField
  read_fields zero rest fields = (true, rest, fields)
  read_fields (suc k) rest fields = elim (read_field rest) [
    | none ↦ (false, rest, fields)
    | some p ↦ read_fields k p.1 (fields ++ (p.0 ∷ []))
  ]

  unfoldable pub decode_txdata_fields : List ℕ → TxDataRecord
  decode_txdata_fields bytes =
      if ltb (length bytes) 2
      then record { count = 0; complete = false; fields = [] }
      else let count = le16 bytes in
        if count == 0
        then record { count = count; complete = length bytes == 2; fields = [] }
        else if ltb 200 count
        then record { count = count; complete = false; fields = [] }
        else finish count (read_fields count (drop 2 bytes) [])
