-- ===== src/MediaInfo/Boxes.antt =====
-- The boxes of ISO media files: `read_box` and the walks over the top level in media_info.rs.
use qq_analyzer.Base.{
  ℕ, zero, suc, ◌+◌, ◌-◌, List, Option, none, some, Bool, true, false, ◌||◌, ltb, leb, ◌==◌,
  if◌then◌else◌, length, take, drop,
}
use qq_analyzer.Text.{lit, text_eq}
use qq_analyzer.MediaInfo.Bytes.{be32, be64}

pub record BoxHeader : Type 0 where
  pub typ : List ℕ
  pub size : ℕ
  pub data_start : ℕ
  pub end : ℕ

-- The sum of `pos` and the size is checked in the source: where it overflows, it is also past the
-- limit.
unfoldable pub sized_box : List ℕ → ℕ → ℕ → ℕ → ℕ → Option BoxHeader
sized_box bytes pos limit size header_len =
    if ltb size header_len
    then none
    else if ltb limit (pos + size) || ltb (length bytes) (pos + size)
    then none
    else some (record {
      typ = take 4 (drop (pos + 4) bytes);
      size = size;
      data_start = pos + header_len;
      end = pos + size;
    })

unfoldable pub read_box : List ℕ → ℕ → ℕ → Option BoxHeader
read_box bytes pos limit =
    let rest = drop pos bytes in
    if ltb limit (pos + 8) || ltb (length bytes) (pos + 8)
    then none
    else if be32 rest == 1
    then (if ltb limit (pos + 16) || ltb (length bytes) (pos + 16)
        then none
        else sized_box bytes pos limit (be64 (drop 8 rest)) 16)
    else if be32 rest == 0
    then sized_box bytes pos limit (limit - pos) 8
    else sized_box bytes pos limit (be32 rest) 8

abbrev is_first_box : Option BoxHeader → Bool
is_first_box none = false
is_first_box (some header) = text_eq header.typ (lit "ftyp") || text_eq header.typ (lit "moov")

unfoldable pub is_iso_bmff : List ℕ → Bool
is_iso_bmff bytes = is_first_box (read_box bytes 0 (length bytes))

-- Each box has 8 bytes at least, so that the length of the file is fuel enough.
unfoldable pub boxes_loop : ℕ → List ℕ → List ℕ → ℕ → Bool
boxes_loop zero bytes typ pos = false
boxes_loop (suc fuel) bytes typ pos = elim (read_box bytes pos (length bytes)) [
  | none ↦ false
  | some header ↦ elim (text_eq header.typ typ) [
    | true ↦ true
    | false ↦ elim (leb header.end pos || leb (length bytes) header.end) [
      | true ↦ false
      | false ↦ boxes_loop fuel bytes typ header.end
    ]
  ]
]

unfoldable pub has_complete_top_level_box : List ℕ → List ℕ → Bool
has_complete_top_level_box bytes typ = boxes_loop (length bytes) bytes typ 0
