-- ===== src/Cfb/Directory.antt =====
-- `read_directory`, `read_mini_fat` and `read_root_mini_stream` of cfb.rs, and `open`.
use qq_analyzer.Base.{
  ℕ, ◌+◌, ◌-◌, ◌*◌, ◌/◌, ◌%◌, ◌^◌, List, [], ◌∷◌, map, Option, none, some, Bool, not, ◌||◌, ltb,
  leb, within, ◌==◌, if◌then◌else◌, length, take, drop, byte_at, le16, le32,
}
use qq_analyzer.Text.{starts_with}
use qq_analyzer.Text.Utf16.{from_utf16_lossy}
use qq_analyzer.Cfb.{
  DirEntry, CfbReader, magic, free_sect, no_stream, is_marker, read_u16, read_u32, chunks_exact,
}
use qq_analyzer.Cfb.Chain.{read_sector_chain}
use qq_analyzer.Cfb.Header.{read_difat, read_fat}

abbrev pub empty_dir_entry : DirEntry
empty_dir_entry = record {
  name = [];
  typ = 0;
  left = no_stream;
  right = no_stream;
  child = no_stream;
  start = free_sect;
  size = 0;
}

abbrev pub is_entry_type : ℕ → Bool
is_entry_type typ = typ == 1 || typ == 2 || typ == 5

abbrev pub le32_at : List ℕ → ℕ → ℕ
le32_at item offset = le32 (drop offset item)

-- One directory entry of 128 bytes.
unfoldable pub dir_entry : List ℕ → DirEntry
dir_entry item =
    let name_len = le16 (drop 64 item) in
    let typ = byte_at item 66 in
    if not (is_entry_type typ) || not (within 2 64 name_len) || not (name_len % 2 == 0)
    then empty_dir_entry
    else record {
      name = from_utf16_lossy (map le16 (chunks_exact 2 (take (name_len - 2) item)));
      typ = typ;
      left = le32_at item 68;
      right = le32_at item 72;
      child = le32_at item 76;
      start = le32_at item 116;
      size = le32_at item 120 + le32_at item 124 * 2 ^ 32;
    }

unfoldable pub read_directory : CfbReader → List DirEntry
read_directory reader =
    map dir_entry
      (chunks_exact 128 (read_sector_chain reader reader.first_directory_sector none none))

unfoldable pub read_mini_fat : CfbReader → List ℕ
read_mini_fat reader =
    if is_marker reader.first_mini_fat_sector || reader.num_mini_fat_sectors == 0
    then []
    else map le32 (
        chunks_exact 4 (
          read_sector_chain reader reader.first_mini_fat_sector none
            (some reader.num_mini_fat_sectors)))

abbrev root_stream : CfbReader → List DirEntry → List ℕ
root_stream reader [] = []
root_stream reader (root ∷ more) =
    if is_marker root.start || root.size == 0
    then []
    else read_sector_chain reader root.start (some root.size) none

unfoldable pub read_root_mini_stream : CfbReader → List ℕ
read_root_mini_stream reader = root_stream reader reader.entries

-- `refused` is the error; `overflowed` is the panic of `1usize << n` for an `n` of 64 or more.
pub data Opened : Type 0 where
  opened : CfbReader → Opened
  refused : Opened
  overflowed : Opened

-- The statements behind `let mut reader`, each of which reads the fields set before it.
abbrev pub fill : CfbReader → List ℕ → CfbReader
fill reader ids =
    let with_fat : CfbReader = record reader { fat = read_fat reader ids } in
    let with_entries : CfbReader = record with_fat { entries = read_directory with_fat } in
    let with_mini : CfbReader = record with_entries { mini_fat = read_mini_fat with_entries } in
    record with_mini { root_mini_stream = read_root_mini_stream with_mini }

unfoldable pub load : CfbReader → Option CfbReader
load reader = elim (read_difat reader) [ none ↦ none | some ids ↦ some (fill reader ids) ]

infixl 5 ◌>>=◌
abbrev ◌>>=◌ : Option ℕ → (ℕ → Option CfbReader) → Option CfbReader
none >>= f = none
some a >>= f = f a

-- `let mut reader = Self { .. }`.
abbrev pub new_reader : List ℕ → ℕ → ℕ → ℕ → ℕ → ℕ → ℕ → ℕ → ℕ → ℕ → CfbReader
new_reader bytes sector_size mini_sector_size num_fat first_directory cutoff first_mini num_mini
      first_difat num_difat =
    record {
      bytes = bytes;
      sector_size = sector_size;
      mini_sector_size = mini_sector_size;
      num_fat_sectors = num_fat;
      first_directory_sector = first_directory;
      mini_stream_cutoff = cutoff;
      first_mini_fat_sector = first_mini;
      num_mini_fat_sectors = num_mini;
      first_difat_sector = first_difat;
      num_difat_sectors = num_difat;
      max_sector = (length bytes / sector_size - 1) % 2 ^ 32;
      fat = [];
      entries = [];
      mini_fat = [];
      root_mini_stream = [];
    }

unfoldable pub read_header : List ℕ → ℕ → ℕ → Option CfbReader
read_header bytes sector_size mini_sector_size = do
  num_fat ← read_u32 bytes 44
  first_directory ← read_u32 bytes 48
  cutoff ← read_u32 bytes 56
  first_mini ← read_u32 bytes 60
  num_mini ← read_u32 bytes 64
  first_difat ← read_u32 bytes 68
  num_difat ← read_u32 bytes 72
  some (
      new_reader bytes sector_size mini_sector_size num_fat first_directory cutoff first_mini
        num_mini first_difat num_difat)

abbrev pub shifted : Option ℕ → (ℕ → Opened) → Opened
shifted none next = refused
shifted (some n) next = if leb 64 n then overflowed else next (2 ^ n)

abbrev pub opened_or_refused : Option CfbReader → Opened
opened_or_refused none = refused
opened_or_refused (some reader) = opened reader

abbrev pub loaded : Option CfbReader → Opened
loaded none = refused
loaded (some reader) = opened_or_refused (load reader)

unfoldable pub open_data : List ℕ → Opened
open_data bytes =
    if not (starts_with magic bytes)
    then refused
    else if ltb (length bytes) 512
    then refused
    else shifted (read_u16 bytes 30) (λ sector_size.
      shifted (read_u16 bytes 32) (λ mini_sector_size.
        if not (sector_size == 512)
        then refused
        else loaded (read_header bytes sector_size mini_sector_size)))
