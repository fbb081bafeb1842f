-- ===== src/Cfb/Opens.antt =====
-- `CfbReader::open` of cfb.rs: which files it opens.
use qq_analyzer.Base.{
  ℕ, zero, suc, ◌+◌, ◌*◌, ◌^◌, ◌≤◌, ◌<◌, List, [], ◌∷◌, none, some, Bool, true, false, not, ◌||◌,
  leb, ◌==◌, if◌then◌else◌, length, drop, le16, le32, le→ltb, listed, table, table_entry,
  Bool-cases, ◌≡◌, ◌≢◌, ◌⊎◌, inl, inr, refl, ap, ◌∙◌, arith,
}
use native.Mathlib.Decide.{dec_lt}
use qq_analyzer.Text.{starts_with}
use qq_analyzer.Cfb.{CfbReader, magic, is_marker, read_u16, read_u32, valid_sector, sector_bytes}
use qq_analyzer.Cfb.Header.{add_id, add_ids, difat_loop, cut_ids, read_difat}
use qq_analyzer.Cfb.Directory.{
  opened, refused, overflowed, load, read_header, new_reader, fill, shifted, opened_or_refused,
  loaded, open_data,
}

read_u32-some :
    (bytes : List ℕ) (offset : ℕ)
    → offset + 4 ≤ length bytes
    → read_u32 bytes offset ≡ some (le32 (drop offset bytes))
unfolding read_u32
read_u32-some bytes offset h = ground arith

read_u16-some :
    (bytes : List ℕ) (offset : ℕ)
    → offset + 2 ≤ length bytes
    → read_u16 bytes offset ≡ some (le16 (drop offset bytes))
unfolding read_u16
read_u16-some bytes offset h = ground arith

add_ids-some :
    (reader : CfbReader) (n : ℕ) (bytes : List ℕ) (offset : ℕ) (ids : List ℕ)
    → offset + n * 4 ≤ length bytes
    → (out : List ℕ) × (add_ids reader n bytes offset ids ≡ some out)
unfolding add_ids
add_ids-some reader zero bytes offset ids h = (ids, refl)
add_ids-some reader (suc n) bytes offset ids h =
    rw (read_u32-some bytes offset (omega arith), add_ids)
      (add_ids-some reader n bytes (offset + 4) (add_id reader ids (le32 (drop offset bytes)))
        (omega arith))

abbrev ends_difat : CfbReader → ℕ → List ℕ → Bool
ends_difat reader sector visited =
    is_marker sector
    || not (valid_sector reader sector)
    || listed sector visited
    || not (length (sector_bytes reader sector) == reader.sector_size)

difat_loop-some :
    (reader : CfbReader) (n sector : ℕ) (visited ids : List ℕ)
    → reader.sector_size ≡ 512
    → (out : List ℕ) × (difat_loop reader n sector visited ids ≡ some out)
unfolding difat_loop
difat_loop-some reader zero sector visited ids h = (ids, refl)
difat_loop-some reader (suc n) sector visited ids h =
    elim (Bool-cases (ends_difat reader sector visited)) [
      | inl stop ↦ (ids, rw (stop, difat_loop) refl)
      | inr go ↦
          let raw = sector_bytes reader sector in
          let full : length raw ≡ 512 = ground (arith, h) in
          let (more, e) = add_ids-some reader 127 raw 0 ids (omega arith) in
          let next = read_u32-some raw (127 * 4) (omega arith) in
          let (out, rest) =
            difat_loop-some reader n (le32 (drop (127 * 4) raw)) (sector ∷ visited) more h in
          (out, rw (go, e, next, difat_loop) rest)
    ]

read_difat-some :
    (reader : CfbReader)
    → reader.sector_size ≡ 512
    → 512 ≤ length reader.bytes
    → (ids : List ℕ) × (read_difat reader ≡ some ids)
unfolding read_difat
read_difat-some reader h long =
    let (first, e) = add_ids-some reader 109 reader.bytes 76 [] (omega arith) in
    let (ids, rest) =
      difat_loop-some reader reader.num_difat_sectors reader.first_difat_sector [] first h in
    (
      elim (cut_ids reader.num_fat_sectors (some ids)) [ none ↦ [] | some cut ↦ cut ],
      rw (e, rest) refl,
    )

lt→leb : (a b : ℕ) → a ≤ b → leb a b ≡ true
lt→leb a b h = ground arith

small_leb : (n : ℕ) → n < 64 → leb 64 n ≡ false
small_leb n h = ground arith

load-fill :
    (reader : CfbReader) (ids : List ℕ)
    → read_difat reader ≡ some ids
    → load reader ≡ some (fill reader ids)
unfolding load
load-fill reader ids e = rw (e, load) refl

load-some :
    (reader : CfbReader)
    → reader.sector_size ≡ 512
    → 512 ≤ length reader.bytes
    → (full : CfbReader) × (load reader ≡ some full)
      × (full.bytes ≡ reader.bytes)
      × (full.sector_size ≡ 512)
      × (full.mini_sector_size ≡ reader.mini_sector_size)
load-some reader h long =
    let (ids, e) = read_difat-some reader h long in
    (fill reader ids, load-fill reader ids e, refl, h, refl)

abbrev header_reader : List ℕ → ℕ → CfbReader
header_reader bytes mini_sector_size =
    new_reader bytes 512 mini_sector_size (le32 (drop 44 bytes)) (le32 (drop 48 bytes))
      (le32 (drop 56 bytes)) (le32 (drop 60 bytes)) (le32 (drop 64 bytes)) (le32 (drop 68 bytes))
      (le32 (drop 72 bytes))

read_header-some :
    (bytes : List ℕ) (mini_sector_size : ℕ)
    → 512 ≤ length bytes
    → read_header bytes 512 mini_sector_size ≡ some (header_reader bytes mini_sector_size)
unfolding read_header
read_header-some bytes mini_sector_size h =
    rw
      (
        read_u32-some bytes 44 (omega arith),
        read_u32-some bytes 48 (omega arith),
        read_u32-some bytes 56 (omega arith),
        read_u32-some bytes 60 (omega arith),
        read_u32-some bytes 64 (omega arith),
        read_u32-some bytes 68 (omega arith),
        read_u32-some bytes 72 (omega arith),
      )
      refl

loaded-opened :
    (reader full : CfbReader) → load reader ≡ some full → loaded (some reader) ≡ opened full
loaded-opened reader full e = ap opened_or_refused e

-- Among the shifts below 64, nine alone makes sectors of 512 bytes.
shift_table : table (λ n. not (2 ^ n == 512) || n == 9) 64 ≡ true
unfolding table
shift_table = refl

shift_nine : (n : ℕ) → n < 64 → n ≢ 9 → (2 ^ n == 512) ≡ false
shift_nine n h other =
    ground (arith, table_entry (λ n. not (2 ^ n == 512) || n == 9) 64 n h shift_table)

-- The two shifts of the header.
abbrev pub sector_shift : List ℕ → ℕ
sector_shift bytes = le16 (drop 30 bytes)

abbrev pub mini_shift : List ℕ → ℕ
mini_shift bytes = le16 (drop 32 bytes)

open_shifts :
    (bytes : List ℕ)
    → starts_with magic bytes ≡ true
    → 512 ≤ length bytes
    → open_data bytes
      ≡ shifted (some (sector_shift bytes)) (λ sector_size.
        shifted (some (mini_shift bytes)) (λ mini_sector_size.
          if not (sector_size == 512)
          then refused
          else loaded (read_header bytes sector_size mini_sector_size)))
unfolding open_data
open_shifts bytes marked long =
    rw
      (
        marked,
        le→ltb (length bytes) 512 long,
        read_u16-some bytes 30 (omega arith),
        read_u16-some bytes 32 (omega arith),
      )
      refl

-- Of a file with the magic number and a whole header, the two shifts alone decide whether it is
-- opened: with nine and a mini shift below 64 it is, whatever else it holds; with another shift
-- below 64 it is refused; and a shift of 64 or more overflows.
pub open_data_cases :
    (bytes : List ℕ)
    → starts_with magic bytes ≡ true
    → 512 ≤ length bytes
    → ((64 ≤ sector_shift bytes) ⊎ (64 ≤ mini_shift bytes)) × (open_data bytes ≡ overflowed)
      ⊎ (sector_shift bytes < 64)
        × (mini_shift bytes < 64)
        × (sector_shift bytes ≢ 9)
        × (open_data bytes ≡ refused)
      ⊎ (sector_shift bytes ≡ 9)
        × (mini_shift bytes < 64)
        × ((reader : CfbReader) × (open_data bytes ≡ opened reader)
            × (reader.bytes ≡ bytes)
            × (reader.sector_size ≡ 512)
            × (reader.mini_sector_size ≡ 2 ^ mini_shift bytes))
open_data_cases bytes marked long = elim (dec_lt (sector_shift bytes) 64) [
  | no large ↦ inl (
    inl (omega arith),
    open_shifts bytes marked long ∙ rw (lt→leb 64 (sector_shift bytes) (omega arith)) refl,
  )
  | yes small ↦ elim (dec_lt (mini_shift bytes) 64) [
    | no large ↦ inl (
      inr (omega arith),
      open_shifts bytes marked long
          ∙ rw (small_leb (sector_shift bytes) small, lt→leb 64 (mini_shift bytes) (omega arith))
              refl,
    )
    | yes mini_small ↦ elim (Bool-cases (sector_shift bytes == 9)) [
      | inr not_nine ↦
          let other : sector_shift bytes ≢ 9 = λ e. ground arith in
          inr (
            inl (
              small,
              mini_small,
              other,
              open_shifts bytes marked long
                  ∙ rw
                      (
                        small_leb (sector_shift bytes) small,
                        small_leb (mini_shift bytes) mini_small,
                        shift_nine (sector_shift bytes) small other,
                      )
                      refl,
            ))
      | inl is_nine ↦
          let nine : sector_shift bytes ≡ 9 = ground arith in
          let (full, e, same, size, mini) =
            load-some (header_reader bytes (2 ^ mini_shift bytes)) refl long in
          inr (
            inr (
              nine,
              mini_small,
              (
                full,
                open_shifts bytes marked long
                    ∙ rw
                        (
                          nine,
                          small_leb (mini_shift bytes) mini_small,
                          read_header-some bytes (2 ^ mini_shift bytes) long,
                        )
                        (loaded-opened (header_reader bytes (2 ^ mini_shift bytes)) full e),
                same,
                size,
                mini,
              ),
            ))
    ]
  ]
]
