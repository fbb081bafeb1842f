-- ===== src/Msg3/FrameBounds.antt =====
-- `td_record_len` and `ta_record_len`: the records end within the data.
use qq_analyzer.Base.{
  ℕ, zero, suc, ◌+◌, ◌≤◌, List, [], some, true, length, drop, le16, le32, length-drop, Option-cases,
  ◌≡◌, inl, inr, arith,
}
use qq_analyzer.Msg3.Frames.{
  td_field_len, td_fields_end, td_record_len, ta_item_len, ta_items_end, ta_record_len,
}
use qq_analyzer.Msg3.FrameRead.{field_taken}

ta_item_len-bound : (rest : List ℕ) (w : ℕ) → ta_item_len rest ≡ some w → w ≤ length rest
unfolding ta_item_len
ta_item_len-bound rest w e = ground (arith, length-drop 5 rest)

td_fields_end-bound :
    (count : ℕ) (rest : List ℕ) (pos end : ℕ)
    → td_fields_end count rest pos ≡ some end
    → (pos ≤ end) × (end ≤ pos + length rest)
unfolding td_fields_end
td_fields_end-bound zero rest pos end e = ground arith
td_fields_end-bound (suc count) rest pos end e = elim (Option-cases (td_field_len rest)) [
  | inl n ↦ absurd (ground (arith, n))
  | inr (w, h) ↦
      let more = td_fields_end-bound count (drop w rest) (pos + w) end (ground (arith, h)) in
      let fits = (field_taken (λ bytes. ([], true)) rest w h).1 in
      (omega (arith, more.0), omega (arith, more.1, length-drop w rest, fits))
]

ta_items_end-bound :
    (count : ℕ) (rest : List ℕ) (pos end : ℕ)
    → ta_items_end count rest pos ≡ some end
    → (pos ≤ end) × (end ≤ pos + length rest)
unfolding ta_items_end
ta_items_end-bound zero rest pos end e = ground arith
ta_items_end-bound (suc count) rest pos end e = elim (Option-cases (ta_item_len rest)) [
  | inl n ↦ absurd (ground (arith, n))
  | inr (w, h) ↦
      let more = ta_items_end-bound count (drop w rest) (pos + w) end (ground (arith, h)) in
      let fits = ta_item_len-bound rest w h in
      (omega (arith, more.0), omega (arith, more.1, length-drop w rest, fits))
]

pub td_record_len-bound :
    (rest : List ℕ) (n : ℕ) → td_record_len rest 0 ≡ some n → (6 ≤ n) × (n ≤ length rest)
unfolding td_record_len
td_record_len-bound rest n e =
    ground (arith, length-drop 6 rest, td_fields_end-bound (le16 (drop 4 rest)) (drop 6 rest) 6 n)

pub ta_record_len-bound :
    (rest : List ℕ) (n : ℕ) → ta_record_len rest 0 ≡ some n → (6 ≤ n) × (n ≤ length rest)
unfolding ta_record_len
ta_record_len-bound rest n e =
    ground (arith, length-drop 8 rest, ta_items_end-bound (le32 (drop 4 rest)) (drop 8 rest) 8 n)
