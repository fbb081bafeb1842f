-- ===== src/Msg3/Frames.antt =====
-- Lengths of the TD and TA records that stand in message content.
use qq_analyzer.Base.{
  ℕ, zero, suc, ◌+◌, List, [], ◌∷◌, Option, none, some, not, ◌||◌, ltb, ◌==◌, if◌then◌else◌, length,
  drop, le16, le32,
}
use qq_analyzer.Text.{starts_with}

abbrev pub td_marker : List ℕ
td_marker = b'T' ∷ b'D' ∷ 1 ∷ 1 ∷ []

abbrev pub ta_marker : List ℕ
ta_marker = b'T' ∷ b'A' ∷ 1 ∷ 1 ∷ []

-- One round of the loop of `td_record_len`: how far `pos` moves.
unfoldable pub td_field_len : List ℕ → Option ℕ
td_field_len rest =
    if ltb (length rest) 3
    then none
    else let name_len = le16 (drop 1 rest) in
      let named = drop 3 rest in
      if ltb (length named) (name_len + 4)
      then none
      else let value_len = le32 (drop name_len named) in
        if ltb (length (drop (name_len + 4) named)) value_len
        then none
        else some (3 + name_len + 4 + value_len)

-- The bytes from `pos` on, and `pos` counted from the start of the record.
unfoldable pub td_fields_end : ℕ → List ℕ → ℕ → Option ℕ
td_fields_end zero rest pos = some pos
td_fields_end (suc count) rest pos = elim (td_field_len rest) [
  | none ↦ none
  | some w ↦ td_fields_end count (drop w rest) (pos + w)
]

abbrev pub td_len_of : List ℕ → Option ℕ
td_len_of rest =
    let count = le16 (drop 4 rest) in
    if ltb (length rest) 6 || not (starts_with td_marker rest)
    then none
    else if count == 0
    then some 6
    else if ltb 200 count
    then none
    else td_fields_end count (drop 6 rest) 6

unfoldable pub td_record_len : List ℕ → ℕ → Option ℕ
td_record_len bytes start = td_len_of (drop start bytes)

-- One round of the loop of `ta_record_len`.
unfoldable pub ta_item_len : List ℕ → Option ℕ
ta_item_len rest =
    if ltb (length rest) 5
    then none
    else let value_len = le32 (drop 1 rest) in
      if ltb (length (drop 5 rest)) value_len then none else some (5 + value_len)

unfoldable pub ta_items_end : ℕ → List ℕ → ℕ → Option ℕ
ta_items_end zero rest pos = some pos
ta_items_end (suc count) rest pos = elim (ta_item_len rest) [
  | none ↦ none
  | some w ↦ ta_items_end count (drop w rest) (pos + w)
]

abbrev pub ta_len_of : List ℕ → Option ℕ
ta_len_of rest =
    let count = le32 (drop 4 rest) in
    let end = ta_items_end count (drop 8 rest) 8 in
    if ltb (length rest) 8 || not (starts_with ta_marker rest)
    then none
    else if ltb 100000 count
    then none
    else end

unfoldable pub ta_record_len : List ℕ → ℕ → Option ℕ
ta_record_len bytes start = ta_len_of (drop start bytes)

unfoldable pub marker_record_len : List ℕ → ℕ → Option ℕ
marker_record_len bytes start =
    let rest = drop start bytes in
    if ltb (length rest) 4
    then none
    else if starts_with td_marker rest
    then td_record_len bytes start
    else if starts_with ta_marker rest
    then ta_record_len bytes start
    else none
