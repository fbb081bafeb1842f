-- ===== src/MediaInfo/BoxWalk.antt =====
-- `has_complete_top_level_box` of media_info.rs on boxes that are written one after the
-- other.
use mathlib.Core.List.{append_assoc}
use qq_analyzer.Base.{
  ℕ, zero, suc, ◌+◌, ◌≤◌, ◌<◌, List, [], ◌∷◌, ◌++◌, some, Bool, true, false, ◌||◌, leb,
  if◌then◌else◌, length, any, All, length-append, Bool-cases, ◌≡◌, inl, inr, refl, sym, ap, ap₂,
  ◌∙◌, arith,
}
use qq_analyzer.Text.{text_eq}
use qq_analyzer.MediaInfo.Boxes.{BoxHeader, read_box, boxes_loop, has_complete_top_level_box}
use qq_analyzer.MediaInfo.BoxRead.{
  Box, IsBox, put_box, put_boxes, header_of, length-put_box, read_box-put_box, read_box-end,
  put_box-append,
}

-- The loop, where the answer at the first box is known.
after_box : ℕ → List ℕ → List ℕ → ℕ → BoxHeader → Bool
after_box fuel bytes typ pos header =
    if text_eq header.typ typ
    then true
    else if leb header.end pos || leb (length bytes) header.end
    then false
    else boxes_loop fuel bytes typ header.end

boxes_loop-next :
    (fuel : ℕ) (bytes typ : List ℕ) (pos : ℕ) (header : BoxHeader)
    → read_box bytes pos (length bytes) ≡ some header
    → boxes_loop (suc fuel) bytes typ pos ≡ after_box fuel bytes typ pos header
unfolding boxes_loop after_box
boxes_loop-next fuel bytes typ pos header e = elim (Bool-cases (text_eq header.typ typ)) [
  | inl same ↦ rw (e, boxes_loop, same) refl
  | inr other ↦ elim (Bool-cases (leb header.end pos || leb (length bytes) header.end)) [
    | inl last ↦ rw (e, boxes_loop, other, last) refl
    | inr more ↦ rw (e, boxes_loop, other, more) refl
  ]
]

boxes_loop-end :
    (fuel : ℕ) (bytes typ : List ℕ) (pos : ℕ)
    → length bytes < pos + 8
    → boxes_loop fuel bytes typ pos ≡ false
unfolding boxes_loop
boxes_loop-end zero bytes typ pos h = refl
boxes_loop-end (suc fuel) bytes typ pos h = rw (read_box-end bytes pos h, boxes_loop) refl

length-put_boxes : (bs : List Box) → length bs ≤ length (put_boxes bs)
length-put_boxes [] = omega arith
length-put_boxes ((t, content) ∷ bs) = omega (
  arith,
  length-put_boxes bs,
  length-append t (content ++ put_boxes bs),
  length-append content (put_boxes bs),
)

no_boxes :
    (bs : List Box) (typ : List ℕ)
    → length (put_boxes bs) ≡ 0
    → any (λ b. text_eq b.0 typ) bs ≡ false
no_boxes [] typ h = refl
no_boxes ((t, content) ∷ bs) typ h = absurd (omega (arith, h))

boxes_loop-put_boxes :
    (fuel : ℕ) (before : List ℕ) (bs : List Box) (typ : List ℕ)
    → length bs ≤ fuel
    → All IsBox bs
    → boxes_loop fuel (before ++ put_boxes bs) typ (length before) ≡ any (λ b. text_eq b.0 typ) bs
unfolding after_box
boxes_loop-put_boxes fuel before [] typ h ok =
    boxes_loop-end fuel (before ++ []) typ (length before) (omega (arith, length-append before []))
boxes_loop-put_boxes zero before (b ∷ bs) typ h ok = absurd (omega arith)
boxes_loop-put_boxes (suc fuel) before ((t, content) ∷ bs) typ h ok =
    let rest = put_boxes bs in
    let b : Box = (t, content) in
    let all = before ++ put_box b rest in
    let next = before ++ put_box b [] in
    let end : length next ≡ length before + (8 + length content) =
      omega (arith, length-append before (put_box b []), length-put_box b [] ok.0) in
    let regroup : all ≡ next ++ rest =
      ap (λ t. before ++ t) (put_box-append b rest)
      ∙ sym (append_assoc before (put_box b []) rest) in
    let size : length all ≡ length before + (8 + length content) + length rest =
      omega (arith, length-append before (put_box b rest), length-put_box b rest ok.0) in
    let moves : leb (length before + (8 + length content)) (length before) ≡ false = ground arith in
    boxes_loop-next fuel all typ (length before) (header_of b (length before))
      (read_box-put_box before b rest ok.0)
    ∙ elim (Bool-cases (text_eq t typ)) [
      | inl same ↦ rw same refl
      | inr other ↦ elim (Bool-cases (leb (length all) (length before + (8 + length content)))) [
        | inl last ↦ rw (other, moves, last) (sym (no_boxes bs typ (ground (arith, size))))
        | inr more ↦
            rw (other, moves, more)
              (ap₂ (λ t k. boxes_loop fuel t typ k) regroup (sym end)
                ∙ boxes_loop-put_boxes fuel next bs typ (omega arith) ok.1)
      ]
    ]

-- Over boxes that are written one after the other, the walk finds out whether one has the type.
pub has_complete_top_level_box-put_boxes :
    (bs : List Box) (typ : List ℕ)
    → All IsBox bs
    → has_complete_top_level_box (put_boxes bs) typ ≡ any (λ b. text_eq b.0 typ) bs
unfolding has_complete_top_level_box
has_complete_top_level_box-put_boxes bs typ ok =
    boxes_loop-put_boxes (length (put_boxes bs)) [] bs typ (length-put_boxes bs) ok
