-- ===== src/Msg3/RecordsSound.antt =====
-- `parse_td_records` of msg3_parser.rs: the records it returns.
use qq_analyzer.Base.{
  ℕ, zero, suc, ◌+◌, ◌-◌, List, [], ◌∷◌, ◌++◌, map, Option, none, some, Bool, true, false, not,
  ◌&&◌, ◌||◌, ltb, leb, length, take, drop, slice, byte_at, le32, IsByte, IsBytes, All, All-append,
  All-take, All-drop, All-prefix, All-suffix, length-map, Bool-cases, Option-cases, ◌≡◌, ◌⊎◌, inl,
  inr, refl, sym, ap, ap₂, subst, ◌∙◌, arith,
}
use qq_analyzer.Text.{Text, starts_with}
use qq_analyzer.TxData.Fields.{TxDataField, TxDataRecord, decode_txdata_fields}
use qq_analyzer.TxData.Layout.{RawField, put_field, put_fields, interpret}
use qq_analyzer.TxData.Record.{put_record}
use qq_analyzer.Msg3.Frames.{td_marker, ta_marker, td_record_len, ta_record_len}
use qq_analyzer.Msg3.FrameLayout.{td_record_len-complete}
use qq_analyzer.Msg3.Records.{
  TdRecord, no_fields, parse_txdata_fields, td_record, ta_item, nested_fields, ta_items, td_round,
  ta_round, records_round, records_loop, records_at, parse_td_ta_records_at, parse_td_records,
}

-- A record is complete, has no errors, and counts the fields it holds, if it holds any.
pub record IsSound (r : TdRecord) : Type 0 where
  pub complete : r.txdata_complete ≡ true
  pub errors : r.parse_errors ≡ []
  pub counted : (length r.txdata_fields ≡ 0) ⊎ (r.txdata_field_count ≡ length r.txdata_fields)

field-IsBytes :
    (f : RawField) (rest : List ℕ) → IsBytes (put_field f rest) → IsBytes f.value × IsBytes rest
field-IsBytes f rest h =
    let tail = (All-suffix IsByte f.raw_name _ h.1.1.1).1.1.1.1 in
    (All-prefix IsByte f.value rest tail, All-suffix IsByte f.value rest tail)

module _ (gb18030 : List ℕ → Text × Bool) where
  values-IsBytes :
      (fs : List RawField)
      → IsBytes (put_fields fs [])
      → All (λ fld. IsBytes fld.value) (map (interpret gb18030) fs)
  values-IsBytes [] h = tt
  values-IsBytes (f ∷ fs) h =
      let (value, rest) = field-IsBytes f (put_fields fs []) h in (value, values-IsBytes fs rest)

  no_error : (fields : List TxDataField) → (not (no_fields fields) && not true) ≡ false
  no_error [] = refl
  no_error (f ∷ fs) = refl

  -- The record made of a payload that decodes without a loss.
  td_record-IsSound :
      (offset : ℕ) (payload : List ℕ) {d : TxDataRecord}
      → decode_txdata_fields gb18030 payload ≡ d
      → d.complete ≡ true
      → d.count ≡ length d.fields
      → IsSound (td_record gb18030 offset payload)
        × ((td_record gb18030 offset payload).txdata_fields ≡ d.fields)
  unfolding td_record parse_txdata_fields
  td_record-IsSound offset payload {d} e done count =
      let whole : (decode_txdata_fields gb18030 payload).complete ≡ true =
        ap (λ t. t.complete) e ∙ done in
      (
        record {
          complete = whole;
          errors = rw (whole, no_error (decode_txdata_fields gb18030 payload).fields) refl;
          counted = inr (ap (λ t. t.count) e ∙ count ∙ ap (λ t. length t.fields) (sym e));
        },
        ap (λ t. t.fields) e,
      )

  same_slice : (rest : List ℕ) (len : ℕ) → slice (0 + 4) (0 + len) rest ≡ slice 4 len rest
  same_slice rest len =
      let from : 0 + 4 ≡ 4 = omega arith in
      let to : 0 + len ≡ len = omega arith in ap₂ (λ a b. slice a b rest) from to

  -- The payload of a record at the front of `rest` decodes without a loss.
  whole_record :
      (rest : List ℕ) (len : ℕ)
      → IsBytes rest
      → td_record_len rest 0 ≡ some len
      → (fs : List RawField) × IsBytes (put_record fs)
        × (decode_txdata_fields gb18030 (slice 4 len rest)
            ≡ record { count = length fs; complete = true; fields = map (interpret gb18030) fs })
  whole_record rest len ok e =
      let (fs, few, layout, decoded) = td_record_len-complete gb18030 rest 0 len ok e in
      let same = same_slice rest len in
      (
        fs,
        subst IsBytes (sym same ∙ layout)
            (All-take IsByte (len - 4) (drop 4 rest) (All-drop IsByte 4 rest ok)),
        ap (decode_txdata_fields gb18030) (sym same) ∙ decoded,
      )

  module _ (nested : List ℕ → ℕ → List TdRecord → List TdRecord)
      (keeps : (bytes : List ℕ) (base : ℕ) (out : List TdRecord)
        → IsBytes bytes
        → All IsSound out
        → All IsSound (nested bytes base out)) where
    nested_fields-IsSound :
        (fields : List TxDataField) (base : ℕ) (out : List TdRecord)
        → All (λ f. IsBytes f.value) fields
        → All IsSound out
        → All IsSound (nested_fields gb18030 nested fields base out)
    nested_fields-IsSound [] base out ok h = h
    nested_fields-IsSound (f ∷ fs) base out ok h =
        nested_fields-IsSound fs base (nested f.value base out) ok.1 (keeps f.value base out ok.0 h)

    ta_items-IsSound :
        (n : ℕ) (body : List ℕ) (item_offset : ℕ) (out : List TdRecord)
        → IsBytes body
        → All IsSound out
        → All IsSound (ta_items gb18030 nested n body item_offset out)
    unfolding ta_items
    ta_items-IsSound zero body item_offset out ok h = h
    ta_items-IsSound (suc n) body item_offset out ok h =
        let value_len = le32 (drop 1 body) in
        let value = take value_len (drop 5 body) in
        let behind = All-drop IsByte 5 body ok in
        let item = ta_item gb18030 item_offset (byte_at body 0) value in
        elim (Bool-cases (ltb (length body) 5 || ltb (length (drop 5 body)) value_len)) [
          | inl short ↦ rw (short, ta_items) h
          | inr whole ↦
              rw (whole, ta_items)
                (ta_items-IsSound n (drop value_len (drop 5 body)) (item_offset + 5 + value_len)
                  (nested value (item_offset + 5) (out ++ (item ∷ [])))
                  (All-drop IsByte value_len (drop 5 body) behind)
                  (keeps value (item_offset + 5) (out ++ (item ∷ []))
                    (All-take IsByte value_len (drop 5 body) behind)
                    (All-append IsSound out (item ∷ []) h
                      (record { complete = refl; errors = refl; counted = inl refl }, tt))))
        ]

    td_round-IsSound :
        (rest : List ℕ) (offset : ℕ) (out : List TdRecord)
        → IsBytes rest
        → All IsSound out
        → All IsSound (td_round gb18030 nested (td_record_len rest 0) rest offset out).1
    td_round-IsSound rest offset out ok h = elim (Option-cases (td_record_len rest 0)) [
      | inl e ↦ rw e h
      | inr (len, e) ↦
          let (fs, bytes, decoded) = whole_record rest len ok e in
          let payload = slice 4 len rest in
          let (sound, fields) =
            td_record-IsSound offset payload decoded refl
              (sym (length-map (interpret gb18030) fs)) in
          rw e (
            All-append IsSound _ (td_record gb18030 offset payload ∷ [])
              (nested_fields-IsSound (td_record gb18030 offset payload).txdata_fields (offset + 4)
                out (subst (All (λ f. IsBytes f.value)) (sym fields) (values-IsBytes fs bytes.1.1))
                h)
              (sound, tt))
    ]

    ta_round-IsSound :
        (len : Option ℕ) (rest : List ℕ) (offset : ℕ) (out : List TdRecord)
        → IsBytes rest
        → All IsSound out
        → All IsSound (ta_round gb18030 nested len rest offset out).1
    ta_round-IsSound none rest offset out ok h = h
    ta_round-IsSound (some len) rest offset out ok h =
        ta_items-IsSound (le32 (drop 4 rest)) (slice 8 len rest) (offset + 8) _
          (All-take IsByte (len - 8) (drop 8 rest) (All-drop IsByte 8 rest ok))
          (All-append IsSound out _ h
            (record { complete = refl; errors = refl; counted = inl refl }, tt))

    records_round-IsSound :
        (rest : List ℕ) (offset : ℕ) (out : List TdRecord)
        → IsBytes rest
        → All IsSound out
        → All IsSound (records_round gb18030 nested rest offset out).1
    unfolding records_round
    records_round-IsSound rest offset out ok h = elim (Bool-cases (starts_with td_marker rest)) [
      | inl td ↦ rw td (td_round-IsSound rest offset out ok h)
      | inr no_td ↦ elim (Bool-cases (starts_with ta_marker rest)) [
        | inl ta ↦ rw (no_td, ta) (ta_round-IsSound (ta_record_len rest 0) rest offset out ok h)
        | inr neither ↦ rw (no_td, neither) h
      ]
    ]

    records_loop-IsSound :
        (fuel : ℕ) (rest : List ℕ) (offset : ℕ) (out : List TdRecord)
        → IsBytes rest
        → All IsSound out
        → All IsSound (records_loop gb18030 nested fuel rest offset out)
    unfolding records_loop
    records_loop-IsSound zero rest offset out ok h = h
    records_loop-IsSound (suc fuel) rest offset out ok h =
        elim (Bool-cases (ltb (length rest) 4 || not (ltb (length out) 400))) [
          | inl stop ↦ rw (stop, records_loop) h
          | inr go ↦
              let round = records_round gb18030 nested rest offset out in
              rw (go, records_loop)
                (records_loop-IsSound fuel (drop round.0 rest) (offset + round.0) round.1
                  (All-drop IsByte round.0 rest ok) (records_round-IsSound rest offset out ok h))
        ]

  records_at-IsSound :
      (levels : ℕ) (bytes : List ℕ) (base : ℕ) (out : List TdRecord)
      → IsBytes bytes
      → All IsSound out
      → All IsSound (records_at gb18030 levels bytes base out)
  unfolding records_at
  records_at-IsSound zero bytes base out ok h = h
  records_at-IsSound (suc levels) bytes base out ok h = elim (Bool-cases (leb 400 (length out))) [
    | inl full ↦ rw (full, records_at) h
    | inr room ↦
        rw (room, records_at)
          (records_loop-IsSound (records_at gb18030 levels) (records_at-IsSound levels)
            (length bytes) bytes base out ok h)
  ]

  -- Every record that parse_td_records returns, nested ones included, is complete, has no parse
  -- errors, and counts its fields: the error of an incomplete record is never reported.
  pub parse_td_records-IsSound :
      (bytes : List ℕ) → IsBytes bytes → All IsSound (parse_td_records gb18030 bytes)
  unfolding parse_td_records parse_td_ta_records_at
  parse_td_records-IsSound bytes ok = records_at-IsSound 9 bytes 0 [] ok tt
