-- ===== src/MediaInfo/Vbr.antt =====
-- The tables of a file with a variable bitrate, in the first MPEG audio frame: `detect_mp3_vbr` of
-- media_info.rs.
use qq_analyzer.Base.{
  ℕ, zero, suc, ◌+◌, ◌-◌, ◌/◌, ◌%◌, List, Option, none, some, Bool, not, ◌||◌, ltb, min, ◌==◌,
  if◌then◌else◌, length, drop, be16,
}
use qq_analyzer.Text.{Text, lit, starts_with}
use qq_analyzer.MediaInfo.Bytes.{be32}
use qq_analyzer.MediaInfo.Mp3.{Mp3FrameHeader, channels, ◌and_then◌}

pub record Mp3VbrInfo : Type 0 where
  pub marker : Text
  pub offset : ℕ
  pub frames : Option ℕ
  pub bytes : Option ℕ
  pub quality : Option ℕ
  pub version : Option ℕ
  pub delay : Option ℕ

-- The number at the cursor, and the bytes behind it.
unfoldable pub read_mp3_optional_u32 : List ℕ → Option (ℕ × List ℕ)
read_mp3_optional_u32 rest = if ltb (length rest) 4 then none else some (be32 rest, drop 4 rest)

abbrev taken : Option (ℕ × List ℕ) → Option (Option ℕ × List ℕ)
taken none = none
taken (some (n, rest)) = some (some n, rest)

-- A number that stands there only where the flag is set.
abbrev flagged : Bool → List ℕ → Option (Option ℕ × List ℕ)
flagged flag rest = if flag then taken (read_mp3_optional_u32 rest) else some (none, rest)

abbrev past_table : Bool → List ℕ → Option (List ℕ)
past_table flag rest =
    if flag then (if ltb (length rest) 100 then none else some (drop 100 rest)) else some rest

abbrev xing_marker : List ℕ → Option Text
xing_marker rest =
    if starts_with (lit "Xing") rest
    then some (lit "xing")
    else if starts_with (lit "Info") rest
    then some (lit "info")
    else none

abbrev xing_fields : ℕ → Text → ℕ → List ℕ → Option Mp3VbrInfo
xing_fields offset marker flags rest = flagged (flags % 2 == 1) rest and_then (λ frames.
    flagged (flags / 2 % 2 == 1) frames.1 and_then (λ size.
      past_table (flags / 4 % 2 == 1) size.1 and_then (λ behind.
        flagged (flags / 8 % 2 == 1) behind and_then (λ quality. some (record {
          marker = marker;
          offset = offset;
          frames = frames.0;
          bytes = size.0;
          quality = quality.0;
          version = none;
          delay = none;
        })))))

unfoldable pub parse_xing_info : List ℕ → ℕ → Option Mp3VbrInfo
parse_xing_info bytes offset =
    let rest = drop offset bytes in
    if ltb (length rest) 8
    then none
    else (xing_marker rest
        and_then (λ marker. xing_fields offset marker (be32 (drop 4 rest)) (drop 8 rest)))

unfoldable pub parse_vbri_info : List ℕ → ℕ → Option Mp3VbrInfo
parse_vbri_info bytes offset =
    let rest = drop offset bytes in
    if ltb (length rest) 18 || not (starts_with (lit "VBRI") rest)
    then none
    else some (record {
      marker = lit "vbri";
      offset = offset;
      frames = some (be32 (drop 14 rest));
      bytes = some (be32 (drop 10 rest));
      quality = some (be16 (drop 8 rest));
      version = some (be16 (drop 4 rest));
      delay = some (be16 (drop 6 rest));
    })

unfoldable pub mp3_xing_offset : ℕ → Mp3FrameHeader → Option ℕ
mp3_xing_offset frame_offset frame =
    let crc = if frame.protection_absent then 0 else 2 in
    let mono = channels frame == 1 in
    let side_info_len =
      if frame.version_id == 3 then (if mono then 17 else 32) else (if mono then 9 else 17) in
    if not (frame.layer_index == 1) then none else some (frame_offset + 4 + crc + side_info_len)

abbrev first_info : Option Mp3VbrInfo → Option Mp3VbrInfo → Option Mp3VbrInfo
first_info none other = other
first_info (some info) other = some info

-- `window.windows(4)` from `offset` on; `left` is the bytes of the window that remain.
abbrev scan_window : ℕ → List ℕ → ℕ → Option Mp3VbrInfo
scan_window zero bytes offset = none
scan_window (suc left) bytes offset =
    let rest = drop offset bytes in
    let more = scan_window left bytes (suc offset) in
    if ltb left 3
    then none
    else if starts_with (lit "Xing") rest || starts_with (lit "Info") rest
    then first_info (parse_xing_info bytes offset) more
    else if starts_with (lit "VBRI") rest
    then first_info (parse_vbri_info bytes offset) more
    else more

abbrev xing_at : List ℕ → Option ℕ → Option Mp3VbrInfo
xing_at bytes none = none
xing_at bytes (some offset) = parse_xing_info bytes offset

unfoldable pub detect_mp3_vbr : List ℕ → ℕ → Mp3FrameHeader → Option Mp3VbrInfo
detect_mp3_vbr bytes frame_offset frame =
    let start = frame_offset + 4 in
    let end = min (length bytes) (min (frame_offset + frame.frame_len) (frame_offset + 256)) in
    first_info (xing_at bytes (mp3_xing_offset frame_offset frame)) (
      first_info (parse_vbri_info bytes (frame_offset + 36))
        (scan_window (end - start) bytes start))
