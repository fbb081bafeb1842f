-- ===== src/MediaInfo/Bytes.antt =====
-- Numbers in the bytes of media files, and the tests of their first bytes, in media_info.rs.
use qq_analyzer.Base.{
  ℕ, ◌+◌, ◌*◌, ◌%◌, List, [], ◌∷◌, ◌++◌, Option, none, some, Bool, false, ◌&&◌, ◌||◌, ltb, leb,
  ◌==◌, if◌then◌else◌, length, drop, all, byte_at, be16,
}
use qq_analyzer.Text.{lit, starts_with}

-- `BigEndian::read_u32`.
abbrev pub be32 : List ℕ → ℕ
be32 bytes =
    16777216 * byte_at bytes 0 + 65536 * byte_at bytes 1 + 256 * byte_at bytes 2 + byte_at bytes 3

-- `BigEndian::read_u64`.
abbrev pub be64 : List ℕ → ℕ
be64 bytes = 4294967296 * be32 bytes + be32 (drop 4 bytes)

unfoldable pub read_u24be : List ℕ → ℕ
read_u24be bytes = 65536 * byte_at bytes 0 + 256 * byte_at bytes 1 + byte_at bytes 2

unfoldable pub read_u24le : List ℕ → ℕ
read_u24le bytes = byte_at bytes 0 + 256 * byte_at bytes 1 + 65536 * byte_at bytes 2

-- Four groups of seven bits; the top bit of each byte is masked out.
unfoldable pub synchsafe_u32 : List ℕ → ℕ
synchsafe_u32 bytes =
    2097152 * (byte_at bytes 0 % 128)
    + 16384 * (byte_at bytes 1 % 128)
    + 128 * (byte_at bytes 2 % 128)
    + byte_at bytes 3 % 128

unfoldable pub u16be : List ℕ → ℕ → Option ℕ
u16be bytes off =
    let rest = drop off bytes in if ltb (length rest) 2 then none else some (be16 rest)

unfoldable pub is_jpeg : List ℕ → Bool
is_jpeg bytes = starts_with (0xff ∷ 0xd8 ∷ 0xff ∷ []) bytes

unfoldable pub is_png : List ℕ → Bool
is_png bytes = starts_with (0x89 ∷ lit "PNG" ++ 13 ∷ 10 ∷ 0x1a ∷ 10 ∷ []) bytes

unfoldable pub is_gif : List ℕ → Bool
is_gif bytes = starts_with (lit "GIF87a") bytes || starts_with (lit "GIF89a") bytes

unfoldable pub is_riff : List ℕ → Bool
is_riff bytes = leb 12 (length bytes) && starts_with (lit "RIFF") bytes

unfoldable pub is_webp : List ℕ → Bool
is_webp bytes = is_riff bytes && starts_with (lit "WEBP") (drop 8 bytes)

unfoldable pub is_jp2 : List ℕ → Bool
is_jp2 bytes = starts_with (0 ∷ 0 ∷ 0 ∷ 12 ∷ lit "jP  " ++ 13 ∷ 10 ∷ 0x87 ∷ 10 ∷ []) bytes

unfoldable pub is_j2k : List ℕ → Bool
is_j2k bytes = starts_with (0xff ∷ 0x4f ∷ 0xff ∷ 0x51 ∷ []) bytes

unfoldable pub is_jxl : List ℕ → Bool
is_jxl bytes =
    starts_with (0 ∷ 0 ∷ 0 ∷ 12 ∷ lit "JXL " ++ 13 ∷ 10 ∷ 0x87 ∷ 10 ∷ []) bytes
    || starts_with (0xff ∷ 10 ∷ []) bytes

unfoldable pub is_flac : List ℕ → Bool
is_flac bytes = starts_with (lit "fLaC") bytes

unfoldable pub is_ogg : List ℕ → Bool
is_ogg bytes = starts_with (lit "OggS") bytes

unfoldable pub is_matroska : List ℕ → Bool
is_matroska bytes = starts_with (0x1a ∷ 0x45 ∷ 0xdf ∷ 0xa3 ∷ []) bytes

unfoldable pub is_zero_filled_probe : List ℕ → Bool
is_zero_filled_probe [] = false
is_zero_filled_probe (b ∷ bytes) = all (λ k. k == 0) (b ∷ bytes)

unfoldable pub silk_header_offset : List ℕ → Option ℕ
silk_header_offset bytes =
    if starts_with (lit "#!SILK_V3") bytes
    then some 0
    else if starts_with (2 ∷ lit "#!SILK_V3") bytes
    then some 1
    else none

unfoldable pub is_pdf : List ℕ → Bool
is_pdf bytes = starts_with (lit "%PDF-") bytes
