-- ===== src/Message/RoundBounds.antt =====
-- `parse_msgcontent` of msg3_parser.rs: how far the searches of its loop go.
use qq_analyzer.Base.{
  ℕ, zero, suc, ◌+◌, ◌-◌, ◌≤◌, ◌<◌, List, [], ◌∷◌, some, true, false, min, ◌==◌, length, take, drop,
  byte_at, le16, put16, IsBytes, length-drop, length-take, Option-cases, ◌≡◌, inl, inr, sym, ap,
  ◌∙◌, arith,
}
use qq_analyzer.TxData.Layout.{put16-le16}
use qq_analyzer.Msg3.FrameBounds.{td_record_len-bound, ta_record_len-bound}
use qq_analyzer.Msg3.Elements.{valid_element_type}
use qq_analyzer.Message.Gaps.{
  raw_record_len, near_td_ta_marker_delta, marker_from, standard_element_len_at, start_from,
  next_standard_element_start,
}

pub raw_record_len-bound :
    (rest : List ℕ) (n : ℕ) → raw_record_len rest ≡ some n → (6 ≤ n) × (n ≤ length rest)
unfolding raw_record_len
raw_record_len-bound rest n e =
    ground (arith, td_record_len-bound rest n, ta_record_len-bound rest n)

marker_from-bound :
    (left delta : ℕ) (rest : List ℕ) (d : ℕ)
    → marker_from left delta rest ≡ some d
    → (delta ≤ d) × (d < delta + left)
marker_from-bound zero delta rest d e = absurd (ground arith)
marker_from-bound (suc left) delta rest d e =
    let more = marker_from-bound left (suc delta) (drop 1 rest) d in ground (arith, more)

pub near_marker-bound :
    (rest : List ℕ) (d : ℕ) → near_td_ta_marker_delta rest 8 ≡ some d → (1 ≤ d) × (d ≤ length rest)
unfolding near_td_ta_marker_delta
near_marker-bound rest d e =
    let bound = marker_from-bound (min (length rest - 3) (8 + 1) - 1) 1 (drop 1 rest) d e in
    omega (arith, bound)

start_from-bound :
    (left scan : ℕ) (rest : List ℕ) (s : ℕ)
    → start_from left scan rest ≡ some s
    → (scan ≤ s) × (s < scan + left)
start_from-bound zero scan rest s e = absurd (ground arith)
start_from-bound (suc left) scan rest s e =
    let more = start_from-bound left (suc scan) (drop 1 rest) s in
    elim (Option-cases (standard_element_len_at rest 0)) [
      | inl missing ↦ ground (arith, more, missing)
      | inr (len, found) ↦ ground (arith, more, found)
    ]

pub next_start-bound :
    (rest : List ℕ) (n : ℕ)
    → 3 ≤ length rest
    → next_standard_element_start rest 1 1024 ≡ some n
    → (1 ≤ n) × (n ≤ length rest)
unfolding next_standard_element_start
next_start-bound rest n h e =
    elim (Option-cases (start_from (min (length (drop 1 rest)) 1024) 1 (drop 1 rest))) [
      | inl missing ↦ ground (arith, missing)
      | inr (s, found) ↦
          let bound = start_from-bound (min (length (drop 1 rest)) 1024) 1 (drop 1 rest) s found in
          ground (arith, found, bound, length-drop 1 rest)
    ]

pub valid_type-pos : (t : ℕ) → valid_element_type t ≡ true → (t == 0) ≡ false
unfolding valid_element_type
valid_type-pos t h = ground arith

pub header_front :
    (rest : List ℕ)
    → IsBytes rest
    → 3 ≤ length rest
    → le16 (drop 1 rest) ≤ length (drop 3 rest)
    → take (3 + le16 (drop 1 rest)) rest
      ≡ byte_at rest 0
        ∷ put16
            (length (take (le16 (drop 1 rest)) (drop 3 rest)))
            (take (le16 (drop 1 rest)) (drop 3 rest))
header_front [] ok h fits = absurd (omega arith)
header_front (a ∷ []) ok h fits = absurd (omega arith)
header_front (a ∷ b ∷ []) ok h fits = absurd (omega arith)
header_front (a ∷ b ∷ c ∷ rest) ok h fits =
    let n = le16 (b ∷ c ∷ rest) in
    let len : length (take n rest) ≡ n = omega (arith, length-take n rest, fits) in
    let width : 3 + n ≡ suc (suc (suc n)) = omega arith in
    ap (λ k. take k (a ∷ b ∷ c ∷ rest)) width
    ∙ ap (λ t. a ∷ t)
        (sym (put16-le16 b c (take n rest) ok.1.0 ok.1.1.0)
          ∙ ap (λ k. put16 k (take n rest)) (sym len))
