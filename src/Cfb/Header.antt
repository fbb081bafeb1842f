-- ===== src/Cfb/Header.antt =====
-- `CfbReader::open` of cfb.rs up to the allocation table: the header, the DIFAT and the FAT.
use qq_analyzer.Base.{
  ℕ, zero, suc, ◌+◌, ◌*◌, List, [], ◌∷◌, ◌++◌, map, Option, none, some, true, false, not, ◌||◌, ltb,
  ◌==◌, if◌then◌else◌, length, take, listed, le32,
}
use qq_analyzer.Cfb.{CfbReader, is_marker, read_u32, valid_sector, sector_bytes, chunks_exact}

-- The closure `add`; `seen` holds the same numbers as `ids`.
abbrev pub add_id : CfbReader → List ℕ → ℕ → List ℕ
add_id reader ids value =
    if is_marker value || not (valid_sector reader value) || listed value ids
    then ids
    else ids ++ (value ∷ [])

-- `for i in 0..n { add(read_u32(bytes, offset + i * 4)?) }`.
unfoldable pub add_ids : CfbReader → ℕ → List ℕ → ℕ → List ℕ → Option (List ℕ)
add_ids reader zero bytes offset ids = some ids
add_ids reader (suc n) bytes offset ids = elim (read_u32 bytes offset) [
  | none ↦ none
  | some value ↦ add_ids reader n bytes (offset + 4) (add_id reader ids value)
]

-- The loop over the DIFAT sectors.
unfoldable pub difat_loop : CfbReader → ℕ → ℕ → List ℕ → List ℕ → Option (List ℕ)
difat_loop reader zero sector visited ids = some ids
difat_loop reader (suc n) sector visited ids =
    let raw = sector_bytes reader sector in
    elim (is_marker sector
      || not (valid_sector reader sector)
      || listed sector visited
      || not (length raw == reader.sector_size)) [
        | true ↦ some ids
        | false ↦ elim (add_ids reader 127 raw 0 ids) [
          | none ↦ none
          | some more ↦ elim (read_u32 raw (127 * 4)) [
            | none ↦ none
            | some next ↦ difat_loop reader n next (sector ∷ visited) more
          ]
        ]
      ]

abbrev pub cut_ids : ℕ → Option (List ℕ) → Option (List ℕ)
cut_ids num none = none
cut_ids num (some ids) = some (if ltb 0 num then take num ids else ids)

unfoldable pub read_difat : CfbReader → Option (List ℕ)
read_difat reader = cut_ids reader.num_fat_sectors (elim (add_ids reader 109 reader.bytes 76 []) [
  | none ↦ none
  | some ids ↦ difat_loop reader reader.num_difat_sectors reader.first_difat_sector [] ids
])

unfoldable pub read_fat : CfbReader → List ℕ → List ℕ
read_fat reader [] = []
read_fat reader (sector ∷ ids) =
    let raw = sector_bytes reader sector in
    let more = read_fat reader ids in
    if length raw == reader.sector_size then map le32 (chunks_exact 4 raw) ++ more else more
