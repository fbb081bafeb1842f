-- ===== src/MediaInfo/BoxRead.antt =====
-- `read_box` of media_info.rs: its bounds, and boxes that are written.
use mathlib.Core.List.{append_assoc, append-nil}
use qq_analyzer.Base.{
  ℕ, ◌+◌, ◌-◌, ◌/◌, ◌%◌, ◌≤◌, ◌<◌, List, [], ◌∷◌, ◌++◌, none, some, false, ltb, ◌==◌, length, take,
  drop, le→ltb, drop-drop, drop-length, take-length, length-append, ◌≡◌, refl, sym, ap, ◌∙◌, arith,
}
use qq_analyzer.MediaInfo.Bytes.{be32, be64}
use qq_analyzer.MediaInfo.Boxes.{BoxHeader, sized_box, read_box}

-- `u32::to_be_bytes`.
abbrev pub put_be32 : ℕ → List ℕ → List ℕ
put_be32 n rest = n / 16777216 ∷ n / 65536 % 256 ∷ n / 256 % 256 ∷ n % 256 ∷ rest

be32-put_be32 : (n : ℕ) (rest : List ℕ) → be32 (put_be32 n rest) ≡ n
be32-put_be32 n rest = omega arith

-- A box has a type of four bytes and a content.
abbrev pub Box : Type 0
Box = List ℕ × List ℕ

abbrev pub put_box : Box → List ℕ → List ℕ
put_box (typ, content) rest = put_be32 (8 + length content) (typ ++ (content ++ rest))

abbrev pub put_boxes : List Box → List ℕ
put_boxes [] = []
put_boxes (b ∷ bs) = put_box b (put_boxes bs)

abbrev pub IsBox : Box → Type 0
IsBox (typ, content) = (length typ ≡ 4) × (8 + length content < 4294967296)

abbrev pub header_of : Box → ℕ → BoxHeader
header_of (typ, content) pos = record {
  typ = typ;
  size = 8 + length content;
  data_start = pos + 8;
  end = pos + (8 + length content);
}

pub length-put_box :
    (b : Box) (rest : List ℕ) → IsBox b → length (put_box b rest) ≡ 8 + length b.1 + length rest
length-put_box (typ, content) rest h =
    omega (arith, h.0, length-append typ (content ++ rest), length-append content rest)

typ_of :
    (before : List ℕ) (typ content rest : List ℕ)
    → length typ ≡ 4
    → take 4 (drop (length before + 4) (before ++ put_box (typ, content) rest)) ≡ typ
typ_of before typ content rest h =
    ap (take 4) (
      sym (drop-drop (length before) 4 (before ++ put_box (typ, content) rest))
      ∙ ap (drop 4) (drop-length before (put_box (typ, content) rest)))
    ∙ ap (λ k. take k (typ ++ (content ++ rest))) (sym h)
    ∙ take-length typ (content ++ rest)

sized_box-fits :
    (bytes : List ℕ) (pos size header_len : ℕ) (typ : List ℕ)
    → header_len ≤ size
    → pos + size ≤ length bytes
    → take 4 (drop (pos + 4) bytes) ≡ typ
    → sized_box bytes pos (length bytes) size header_len
      ≡ some (record { typ = typ; size = size; data_start = pos + header_len; end = pos + size })
unfolding sized_box
sized_box-fits bytes pos size header_len typ h fits e =
    rw (le→ltb size header_len h, le→ltb (length bytes) (pos + size) fits, e) refl

pub read_box-put_box :
    (before : List ℕ) (b : Box) (rest : List ℕ)
    → IsBox b
    → read_box (before ++ put_box b rest) (length before) (length (before ++ put_box b rest))
      ≡ some (header_of b (length before))
unfolding read_box
read_box-put_box before (typ, content) rest h =
    let all = before ++ put_box (typ, content) rest in
    let size = length-append before (put_box (typ, content) rest) in
    let own = length-put_box (typ, content) rest h in
    let room : ltb (length all) (length before + 8) ≡ false =
      le→ltb (length all) (length before + 8) (omega (arith, size, own)) in
    let word : be32 (drop (length before) all) ≡ 8 + length content =
      ap be32 (drop-length before (put_box (typ, content) rest))
      ∙ be32-put_be32 (8 + length content) (typ ++ (content ++ rest)) in
    let large : (8 + length content == 1) ≡ false = ground arith in
    let not_open : (8 + length content == 0) ≡ false = ground arith in
    rw (room, read_box, word, large, not_open)
      (sized_box-fits all (length before) (8 + length content) 8 typ (omega arith)
        (omega (arith, size, own)) (typ_of before typ content rest h.0))

pub read_box-end :
    (bytes : List ℕ) (pos : ℕ) → length bytes < pos + 8 → read_box bytes pos (length bytes) ≡ none
unfolding read_box
read_box-end bytes pos h = ground arith

pub put_box-append : (b : Box) (rest : List ℕ) → put_box b rest ≡ put_box b [] ++ rest
put_box-append (typ, content) rest = ap (put_be32 (8 + length content)) (
    ap (λ t. typ ++ (t ++ rest)) (sym (append-nil content))
    ∙ sym (append_assoc typ (content ++ []) rest))

sized_box-bounds :
    (bytes : List ℕ) (pos limit size header_len : ℕ) (header : BoxHeader)
    → sized_box bytes pos limit size header_len ≡ some header
    → (pos + header_len ≡ header.data_start)
      × (header.data_start ≤ header.end)
      × (header.end ≤ limit)
      × (header.end ≤ length bytes)
      × (header.end ≡ pos + header.size)
unfolding sized_box
sized_box-bounds bytes pos limit size header_len header e = ground arith

-- A box that is read lies within the limit and the data, with its content behind its header.
pub read_box-bounds :
    (bytes : List ℕ) (pos limit : ℕ) (header : BoxHeader)
    → read_box bytes pos limit ≡ some header
    → (pos + 8 ≤ header.data_start)
      × (header.data_start ≤ header.end)
      × (header.end ≤ limit)
      × (header.end ≤ length bytes)
      × (header.end ≡ pos + header.size)
unfolding read_box
read_box-bounds bytes pos limit header e =
    let rest = drop pos bytes in
    ground (
      arith,
      sized_box-bounds bytes pos limit (be64 (drop 8 rest)) 16 header,
      sized_box-bounds bytes pos limit (limit - pos) 8 header,
      sized_box-bounds bytes pos limit (be32 rest) 8 header,
    )
