-- ===== src/Message/Gaps.antt =====
-- Where the next element starts, and the elements made of the bytes between two of them.
use qq_analyzer.Base.{
  ℕ, zero, suc, ◌+◌, ◌-◌, ◌*◌, List, [], ◌∷◌, ◌++◌, map, Option, none, some, Bool, true, not, ◌&&◌,
  ◌||◌, ltb, leb, min, ◌==◌, if◌then◌else◌, length, drop, any, all, byte_at, le16,
}
use qq_analyzer.Text.{Text, lit, is_empty, starts_with, text_eq}
use qq_analyzer.Text.Utf16.{from_utf16}
use qq_analyzer.TxData.Strings.{is_even}
use qq_analyzer.Msg3.Texts.{reasonable_field_text, is_generic_token}
use qq_analyzer.Msg3.Frames.{td_marker, ta_marker, td_record_len, ta_record_len}
use qq_analyzer.Msg3.WideTexts.{td_xor_high_byte, td_xor_wide_texts}
use qq_analyzer.Msg3.Elements.{Field, valid_element_type, parse_fields}
use qq_analyzer.Message.Element.{Element, blank, is_nil}
use qq_analyzer.Message.Summary.{starts_with_td_ta}

-- `data.len().saturating_sub(3).min(max_delta + 1)` is the end of the search from 1 on.
abbrev pub marker_from : ℕ → ℕ → List ℕ → Option ℕ
marker_from zero delta rest = none
marker_from (suc left) delta rest =
    let more = marker_from left (suc delta) (drop 1 rest) in
    if starts_with_td_ta rest then some delta else more

unfoldable pub near_td_ta_marker_delta : List ℕ → ℕ → Option ℕ
near_td_ta_marker_delta rest max_delta =
    marker_from (min (length rest - 3) (max_delta + 1) - 1) 1 (drop 1 rest)

-- The guard on an element's header, with the bytes that are there behind it.
abbrev pub is_standard : ℕ → ℕ → ℕ → Bool
is_standard typ n room =
    valid_element_type typ && (((n == 0 && (typ == 0x0e || typ == 0x12)) || leb 3 n) && leb n room)

-- The length of a TD or TA record at the front.
unfoldable pub raw_record_len : List ℕ → Option ℕ
raw_record_len rest =
    if starts_with td_marker rest
    then td_record_len rest 0
    else if starts_with ta_marker rest
    then ta_record_len rest 0
    else none

unfoldable pub standard_element_len_at : List ℕ → ℕ → Option ℕ
standard_element_len_at bytes pos =
    let rest = drop pos bytes in
    let n = le16 (drop 1 rest) in
    if starts_with_td_ta rest
    then raw_record_len rest
    else if ltb (length rest) 3
    then none
    else if is_standard (byte_at rest 0) n (length (drop 3 rest))
    then some (3 + n)
    else none

-- `left` is the bytes from `scan` to the end of the search.
abbrev pub start_from : ℕ → ℕ → List ℕ → Option ℕ
start_from zero scan rest = none
start_from (suc left) scan rest =
    let more = start_from left (suc scan) (drop 1 rest) in
    if ltb left 2
    then none
    else elim (standard_element_len_at rest 0) [ some len ↦ some scan | none ↦ more ]

unfoldable pub next_standard_element_start : List ℕ → ℕ → ℕ → Option ℕ
next_standard_element_start bytes pos max_scan =
    let rest = drop pos bytes in
    elim (start_from (min (length rest) max_scan) pos rest) [
      | some scan ↦ some scan
      | none ↦ if leb (length rest) max_scan then some (length bytes) else none
    ]

abbrev all_high : ℕ → List ℕ → Bool
all_high hi [] = true
all_high hi (a ∷ []) = true
all_high hi (a ∷ b ∷ rest) = b == hi && all_high hi rest

abbrev units_of : List ℕ → List ℕ
units_of [] = []
units_of (a ∷ []) = []
units_of (a ∷ b ∷ rest) = (a + 256 * b) ∷ units_of rest

abbrev exact_or_empty : Option Text → Text
exact_or_empty none = []
exact_or_empty (some text) =
    if not (all (λ c. ltb c 128) text)
      && (reasonable_field_text text && not (is_generic_token text))
    then text
    else []

module _ (gb18030 : List ℕ → Text × Bool) where
  abbrev is_masked_run : List ℕ → Bool
  is_masked_run bytes =
      let hi = byte_at bytes 1 in
      leb 4 (length bytes)
      && (td_xor_high_byte gb18030 hi
          && (all_high hi bytes && not (is_nil (td_xor_wide_texts gb18030 bytes))))

  unfoldable pub exact_utf16le_text : List ℕ → Text
  exact_utf16le_text bytes =
      if ltb (length bytes) 2 || not (is_even (length bytes)) || is_masked_run bytes
      then []
      else exact_or_empty (from_utf16 (units_of bytes))

  abbrev gap_field : Text → List ℕ → Text → Field
  gap_field name payload text = record { id = 0; name = name; value = payload; text = text }

  abbrev push_gap_texts : List ℕ → List Field → List Text → List Field
  push_gap_texts payload fields [] = fields
  push_gap_texts payload fields (t ∷ ts) =
      push_gap_texts payload
        (if any (λ f. text_eq f.text t) fields
          then fields
          else fields ++ (gap_field (lit "raw_text_gap") payload t ∷ []))
        ts

  abbrev consumed : List Field → ℕ
  consumed [] = 0
  consumed (f ∷ fs) = 3 + length f.value + consumed fs

  abbrev renamed_gap : Field → Field
  renamed_gap f = record f { name = lit "raw_field_gap" }

  abbrev parsed_gap : List ℕ → List Field
  parsed_gap payload =
      let parsed = parse_fields 0 payload in
      if consumed parsed == length payload && not (is_nil parsed)
      then map renamed_gap parsed
      else []

  abbrev pub gap_fields : List ℕ → List Field
  gap_fields payload =
      let visible = exact_utf16le_text payload in
      let fields =
        push_gap_texts payload
          (if is_empty visible then [] else gap_field (lit "raw_text_gap") payload visible ∷ [])
          (td_xor_wide_texts gb18030 payload) in
      if is_nil fields then parsed_gap payload else fields

  -- The bytes are `data[pos..end]`.
  unfoldable pub raw_gap_element : ℕ → List ℕ → Option Element
  raw_gap_element pos payload =
      let fields = gap_fields payload in
      if ltb pos 32 || length payload == 0 || ltb 512 (length payload)
      then none
      else if is_nil fields
      then none
      else some
          (record (blank pos 0 payload) { fields = fields; summary = exact_utf16le_text payload })
