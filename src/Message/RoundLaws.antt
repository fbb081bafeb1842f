-- ===== src/Message/RoundLaws.antt =====
-- `parse_msgcontent` of msg3_parser.rs: what one round of its loop moves over.
use qq_analyzer.Base.{
  ℕ, ◌+◌, ◌≤◌, List, ◌∷◌, Option, none, some, true, false, ◌&&◌, leb, max, ◌==◌, length, take, drop,
  byte_at, le16, put16, IsBytes, length-drop, Bool-cases, Option-cases, ◌≡◌, inl, inr, refl, sym,
  arith,
}
use qq_analyzer.Msg3.Outcome.{Outcome, done, panicked, ◌>>=◌}
use qq_analyzer.Msg3.Elements.{valid_element_type}
use qq_analyzer.Message.Element.{Element, Crates}
use qq_analyzer.Message.Summary.{useful_element}
use qq_analyzer.Message.Gaps.{
  raw_record_len, near_td_ta_marker_delta, is_standard, next_standard_element_start,
  raw_gap_element,
}
use qq_analyzer.Message.Parse.{
  Collected, Move, collected, raw_record, raw_record_move, gap_move, broken_move, standard_element,
  standard_move, header_round, content_round,
}
use qq_analyzer.Message.Layout.{element_bytes}
use qq_analyzer.Message.RoundBounds.{
  raw_record_len-bound, near_marker-bound, next_start-bound, valid_type-pos, header_front,
}

-- The element that is pushed stands at `pos`, and is the bytes that are passed over.
abbrev pub IsPlaced : ℕ → List ℕ → ℕ → Option Element → Type 0
IsPlaced pos rest n none = Unit
IsPlaced pos rest n (some e) = (e.offset ≡ pos) × (element_bytes e ≡ take n rest)

pub record IsMove (pos : ℕ) (rest : List ℕ) (m : Move) : Type 0 where
  pub forward : 1 ≤ m.1
  pub within : m.1 ≤ length rest
  pub placed : IsPlaced pos rest m.1 m.0

abbrev pub MovesWell : ℕ → List ℕ → Outcome Move → Type 0
MovesWell pos rest panicked = Unit
MovesWell pos rest (done m) = IsMove pos rest m

module _ (crates : Crates) where
  raw_record-IsMove :
      (pos : ℕ) (rest : List ℕ) (n : ℕ)
      → 6 ≤ n
      → n ≤ length rest
      → IsMove pos rest (raw_record_move crates pos rest n)
  raw_record-IsMove pos rest n h6 h =
      let e : max n 1 ≡ n = omega arith in
      elim (Bool-cases (useful_element (raw_record crates pos (take n rest)))) [
        | inl useful ↦
            rw (useful, e)
              (record { forward = omega arith; within = omega arith; placed = (refl, refl) })
        | inr useless ↦
            rw (useless, e) (record { forward = omega arith; within = omega arith; placed = tt })
      ]

  gap_placed :
      (pos : ℕ) (payload : List ℕ) (e : Element)
      → raw_gap_element crates.gb18030 pos payload ≡ some e
      → (e.offset ≡ pos) × (element_bytes e ≡ payload)
  unfolding raw_gap_element
  gap_placed pos payload e h = ground arith

  gap-IsMove :
      (pos : ℕ) (rest : List ℕ) (n : ℕ)
      → 1 ≤ n
      → n ≤ length rest
      → IsMove pos rest (gap_move pos (raw_gap_element crates.gb18030 pos (take n rest)) n)
  gap-IsMove pos rest n h1 h =
      elim (Option-cases (raw_gap_element crates.gb18030 pos (take n rest))) [
        | inl missing ↦
            rw missing (record { forward = omega arith; within = omega arith; placed = tt })
        | inr (e, found) ↦
            rw found
              (record { forward = h1; within = h; placed = gap_placed pos (take n rest) e found })
      ]

  broken-IsMove :
      (pos : ℕ) (rest : List ℕ) → 3 ≤ length rest → IsMove pos rest (broken_move crates pos rest)
  broken-IsMove pos rest h = elim (Option-cases (next_standard_element_start rest 1 1024)) [
    | inl missing ↦
        rw (missing, broken_move)
          (record { forward = omega arith; within = omega arith; placed = tt })
    | inr (n, found) ↦
        let bound = next_start-bound rest n h found in
        rw (found, broken_move) (gap-IsMove pos rest n bound.0 bound.1)
  ]

  standard-IsMove :
      (pos : ℕ) (rest : List ℕ) (size : ℕ) (e : Element)
      → 1 ≤ size
      → size ≤ length rest
      → e.offset ≡ pos
      → element_bytes e ≡ take size rest
      → IsMove pos rest (standard_move crates pos rest size e)
  standard-IsMove pos rest size e h1 h at placed = elim (Bool-cases (useful_element e)) [
    | inl useful ↦ rw useful (record { forward = h1; within = h; placed = (at, placed) })
    | inr useless ↦ rw useless (gap-IsMove pos rest size h1 h)
  ]

  collected-MovesWell :
      (pos : ℕ) (rest : List ℕ) (size : ℕ) (typ : ℕ) (payload : List ℕ) (got : Outcome Collected)
      → 1 ≤ size
      → size ≤ length rest
      → (typ == 0) ≡ false
      → take size rest ≡ typ ∷ put16 (length payload) payload
      → MovesWell pos rest (
          got >>= (λ c.
            done (standard_move crates pos rest size (standard_element crates pos typ payload c))))
  collected-MovesWell pos rest size typ payload panicked h1 h standard front = tt
  collected-MovesWell pos rest size typ payload (done c) h1 h standard front =
      standard-IsMove pos rest size (standard_element crates pos typ payload c) h1 h refl
        (rw standard (sym front))

  header-MovesWell :
      (pos : ℕ) (rest : List ℕ)
      → IsBytes rest
      → 3 ≤ length rest
      → MovesWell pos rest (header_round crates pos rest)
  header-MovesWell pos rest ok h =
      let typ = byte_at rest 0 in
      let n = le16 (drop 1 rest) in
      let payload = take n (drop 3 rest) in
      elim (Bool-cases (is_standard typ n (length (drop 3 rest)))) [
        | inl standard ↦
            let valid : valid_element_type typ ≡ true = ground arith in
            let fits : n ≤ length (drop 3 rest) = ground arith in
            rw standard (
              collected-MovesWell pos rest (3 + n) typ payload (collected typ payload) (omega arith)
                (omega (arith, fits, length-drop 3 rest)) (valid_type-pos typ valid)
                (header_front rest ok h fits))
        | inr broken ↦ rw broken (broken-IsMove pos rest h)
      ]

  -- A round of the loop moves on by a byte at least, not past the end, and pushes the element that
  -- is made of the bytes it passes over.
  pub content_round-MovesWell :
      (pos : ℕ) (rest : List ℕ)
      → IsBytes rest
      → 3 ≤ length rest
      → MovesWell pos rest (content_round crates pos rest)
  unfolding content_round
  content_round-MovesWell pos rest ok h = elim (Option-cases (raw_record_len rest)) [
    | inr (n, raw) ↦
        let bound = raw_record_len-bound rest n raw in
        rw (raw, content_round) (raw_record-IsMove pos rest n bound.0 bound.1)
    | inl plain ↦ elim (Bool-cases (byte_at rest 0 == 1 && leb 1024 (le16 (drop 1 rest)))) [
      | inr short ↦ rw (plain, content_round, short) (header-MovesWell pos rest ok h)
      | inl long ↦ elim (Option-cases (near_td_ta_marker_delta rest 8)) [
        | inl none_near ↦
            rw (plain, content_round, long, none_near) (header-MovesWell pos rest ok h)
        | inr (d, near) ↦
            let bound = near_marker-bound rest d near in
            rw (plain, content_round, long, near)
              (record { forward = bound.0; within = bound.1; placed = tt })
      ]
    ]
  ]
