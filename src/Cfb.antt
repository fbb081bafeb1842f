-- ===== src/Cfb.antt =====
-- rust-msg3-parser/src/cfb.rs: the reader of compound files. This file has the reader's state and
-- the access to sectors; the child files have its parts.
pub mod Chain
pub mod ChainLaws
pub mod ChainReads
pub mod Header
pub mod Directory
pub mod Streams
pub mod Walk
pub mod WalkOnce
pub mod WalkFuel
pub mod StreamList
pub mod MiniReads
pub mod Stored
pub mod Opens
mod Examples
pub mod Paths
pub mod SafeParts
pub mod OutputPath
pub mod OutputStays
pub mod Disk
pub mod Extract
pub mod ExtractKeeps
pub mod ExtractSound
mod ExtractExamples
use qq_analyzer.Base.{
  ℕ, zero, suc, ◌+◌, ◌-◌, ◌*◌, ◌/◌, ◌%◌, ◌^◌, List, [], ◌∷◌, Option, none, some, Bool, not, ◌||◌,
  ltb, leb, ◌==◌, min, if◌then◌else◌, length, take, drop, slice, le16, le32,
}
use qq_analyzer.Text.{Text}

abbrev pub magic : List ℕ
magic = 0xd0 ∷ 0xcf ∷ 0x11 ∷ 0xe0 ∷ 0xa1 ∷ 0xb1 ∷ 0x1a ∷ 0xe1 ∷ []

abbrev pub free_sect : ℕ
free_sect = 0xffffffff

abbrev pub end_of_chain : ℕ
end_of_chain = 0xfffffffe

abbrev pub no_stream : ℕ
no_stream = 0xffffffff

-- `matches!(sector, FREESECT | ENDOFCHAIN)`.
abbrev pub is_marker : ℕ → Bool
is_marker sector = sector == free_sect || sector == end_of_chain

pub record DirEntry : Type 0 where
  pub name : Text
  pub typ : ℕ
  pub left : ℕ
  pub right : ℕ
  pub child : ℕ
  pub start : ℕ
  pub size : ℕ

pub record CfbReader : Type 0 where
  pub bytes : List ℕ
  pub sector_size : ℕ
  pub mini_sector_size : ℕ
  pub num_fat_sectors : ℕ
  pub first_directory_sector : ℕ
  pub mini_stream_cutoff : ℕ
  pub first_mini_fat_sector : ℕ
  pub num_mini_fat_sectors : ℕ
  pub first_difat_sector : ℕ
  pub num_difat_sectors : ℕ
  pub max_sector : ℕ
  pub fat : List ℕ
  pub entries : List DirEntry
  pub mini_fat : List ℕ
  pub root_mini_stream : List ℕ

-- `data.get(offset..offset + 2)`, and `None` for the error.
unfoldable pub read_u16 : List ℕ → ℕ → Option ℕ
read_u16 bytes offset =
    if leb (offset + 2) (length bytes) then some (le16 (drop offset bytes)) else none

unfoldable pub read_u32 : List ℕ → ℕ → Option ℕ
read_u32 bytes offset =
    if leb (offset + 4) (length bytes) then some (le32 (drop offset bytes)) else none

unfoldable pub valid_sector : CfbReader → ℕ → Bool
valid_sector reader sector = leb sector reader.max_sector

-- `data.get(off..end)` is `None` when `off` is past `end`.
unfoldable pub sector_bytes : CfbReader → ℕ → List ℕ
sector_bytes reader sector =
    let off = suc sector * reader.sector_size in
    let end = min (off + reader.sector_size) (length reader.bytes) in
    if not (valid_sector reader sector)
    then []
    else if leb off end
    then slice off end reader.bytes
    else []

-- `chunks_exact(n)`, on fuel for the list's length.
abbrev pub chunks_on : ℕ → ℕ → List ℕ → List (List ℕ)
chunks_on zero n xs = []
chunks_on (suc fuel) n xs =
    let more = chunks_on fuel n (drop n xs) in if ltb (length xs) n then [] else take n xs ∷ more

abbrev pub chunks_exact : ℕ → List ℕ → List (List ℕ)
chunks_exact n xs = chunks_on (length xs) n xs
