-- ===== src/Message/Prefilter.antt =====
-- `msgcontent_maybe_contains_multi_msg` of msg3_parser.rs.
use qq_analyzer.Base.{
  ℕ, zero, suc, ◌+◌, List, Option, none, some, Bool, true, false, ◌&&◌, ltb, leb, max, ◌==◌,
  if◌then◌else◌, length, drop, byte_at, le16,
}
use qq_analyzer.Text.{lit, starts_with}
use qq_analyzer.Message.Gaps.{
  raw_record_len, near_td_ta_marker_delta, is_standard, next_standard_element_start,
}

-- One round: the answer, or how far `position` moves.
pub data Verdict : Type 0 where
  found : Verdict
  move_on : ℕ → Verdict

abbrev pub next_or_one : Option ℕ → Verdict
next_or_one none = move_on 1
next_or_one (some n) = move_on n

abbrev pub filter_header : List ℕ → Verdict
filter_header rest =
    let typ = byte_at rest 0 in
    let n = le16 (drop 1 rest) in
    if is_standard typ n (length (drop 3 rest))
    then (if typ == 0x1e then found else move_on (3 + n))
    else next_or_one (next_standard_element_start rest 1 1024)

unfoldable pub filter_round : List ℕ → Verdict
filter_round rest = elim (raw_record_len rest) [
  | some n ↦ move_on (max n 1)
  | none ↦ elim (byte_at rest 0 == 1 && leb 1024 (le16 (drop 1 rest))) [
    | false ↦ filter_header rest
    | true ↦ elim (near_td_ta_marker_delta rest 8) [
      | some delta ↦ move_on delta
      | none ↦ filter_header rest
    ]
  ]
]

unfoldable pub filter_loop : ℕ → List ℕ → Bool
filter_loop zero rest = false
filter_loop (suc fuel) rest = elim (ltb (length rest) 3) [
  | true ↦ false
  | false ↦ elim (filter_round rest) [ found ↦ true | move_on n ↦ filter_loop fuel (drop n rest) ]
]

unfoldable pub msgcontent_maybe_contains_multi_msg : List ℕ → Bool
msgcontent_maybe_contains_multi_msg bytes =
    let start = if leb 20 (length bytes) && starts_with (lit "MSG") bytes then 20 else 0 in
    filter_loop (length bytes) (drop start bytes)
