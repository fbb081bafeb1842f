-- ===== src/MediaInfo/Probe.antt =====
-- The search for a run of MPEG audio frames: `validate_mp3_frame_sequence` and `find_mp3_probe` of
-- media_info.rs.
use qq_analyzer.Base.{
  ℕ, zero, suc, ◌+◌, ◌-◌, ◌/◌, List, Option, none, some, Bool, true, false, not, ◌&&◌, ltb, min,
  ◌==◌, if◌then◌else◌, length, drop, byte_at,
}
use qq_analyzer.MediaInfo.Mp3.{
  Id3v2Info, Mp3FrameHeader, parse_id3v2, parse_mp3_frame_header, is_consistent_with,
}
use qq_analyzer.MediaInfo.Vbr.{Mp3VbrInfo, detect_mp3_vbr}

pub record Mp3Probe : Type 0 where
  pub id3v2 : Option Id3v2Info
  pub first_frame_offset : ℕ
  pub first_frame : Mp3FrameHeader
  pub checked_frames : ℕ
  pub frame_bytes_checked : ℕ
  pub bitrate_changes : ℕ
  pub vbr : Option Mp3VbrInfo

abbrev pub max_sync_search_bytes : ℕ
max_sync_search_bytes = 65536

abbrev pub max_sync_candidates : ℕ
max_sync_candidates = 128

abbrev pub min_consistent_frames : ℕ
min_consistent_frames = 3

abbrev pub max_consistency_frames : ℕ
max_consistency_frames = 8

-- What the loop over the frames counts.
pub record FrameRun : Type 0 where
  pub checked : ℕ
  pub bytes : ℕ
  pub changes : ℕ

abbrev pub count_change : Mp3FrameHeader → Mp3FrameHeader → FrameRun → FrameRun
count_change first frame run = record run {
  changes =
      run.changes
      + (if ltb 0 run.checked && not (frame.bitrate_index == first.bitrate_index) then 1 else 0);
}

abbrev pub count_frame : Mp3FrameHeader → FrameRun → FrameRun
count_frame frame run = record run {
  checked = run.checked + 1;
  bytes = run.bytes + frame.frame_len;
}

-- `left` is 8 less the frames checked; the bytes start at `pos`. A change of the bitrate also counts
-- where the frame runs past the end.
unfoldable pub frames_loop : ℕ → Mp3FrameHeader → List ℕ → FrameRun → FrameRun
frames_loop zero first rest run = run
frames_loop (suc left) first rest run = elim (parse_mp3_frame_header rest 0) [
  | none ↦ run
  | some frame ↦ elim (is_consistent_with frame first) [
    | false ↦ run
    | true ↦
        let changed = count_change first frame run in
        elim (ltb (length rest) frame.frame_len) [
          | true ↦ changed
          | false ↦ frames_loop left first (drop frame.frame_len rest) (count_frame frame changed)
        ]
  ]
]

abbrev pub no_frames : FrameRun
no_frames = record { checked = 0; bytes = 0; changes = 0 }

abbrev pub probe_of : List ℕ → Option Id3v2Info → ℕ → Mp3FrameHeader → FrameRun → Option Mp3Probe
probe_of bytes id3v2 pos first run =
    if ltb run.checked min_consistent_frames
    then none
    else some (record {
      id3v2 = id3v2;
      first_frame_offset = pos;
      first_frame = first;
      checked_frames = run.checked;
      frame_bytes_checked = run.bytes;
      bitrate_changes = run.changes;
      vbr = detect_mp3_vbr bytes pos first;
    })

unfoldable pub validate_mp3_frame_sequence : List ℕ → Option Id3v2Info → ℕ → Option Mp3Probe
validate_mp3_frame_sequence bytes id3v2 pos = elim (parse_mp3_frame_header bytes pos) [
  | none ↦ none
  | some first ↦
      probe_of bytes id3v2 pos first
        (frames_loop max_consistency_frames first (drop pos bytes) no_frames)
]

abbrev pub is_sync : List ℕ → Bool
is_sync rest = byte_at rest 0 == 0xff && byte_at rest 1 / 32 == 7

-- `left` is the bytes from `pos` to the end of the search.
unfoldable pub probe_loop : ℕ → List ℕ → Option Id3v2Info → ℕ → ℕ → Option Mp3Probe
probe_loop zero bytes id3v2 candidates pos = none
probe_loop (suc left) bytes id3v2 candidates pos = elim (ltb left 3) [
  | true ↦ none
  | false ↦ elim (is_sync (drop pos bytes)) [
    | false ↦ probe_loop left bytes id3v2 candidates (suc pos)
    | true ↦ elim (ltb max_sync_candidates (suc candidates)) [
      | true ↦ none
      | false ↦ elim (validate_mp3_frame_sequence bytes id3v2 pos) [
        | some probe ↦ some probe
        | none ↦ probe_loop left bytes id3v2 (suc candidates) (suc pos)
      ]
    ]
  ]
]

abbrev pub tag_end : Option Id3v2Info → ℕ
tag_end none = 0
tag_end (some id3) = id3.total_size

unfoldable pub find_mp3_probe : List ℕ → Option Mp3Probe
find_mp3_probe bytes =
    let id3v2 = parse_id3v2 bytes in
    let search_start = min (tag_end id3v2) (length bytes) in
    let search_end = min (length bytes) (search_start + max_sync_search_bytes) in
    probe_loop (search_end - search_start) bytes id3v2 0 search_start

unfoldable pub is_mp3 : List ℕ → Bool
is_mp3 bytes = elim (find_mp3_probe bytes) [ none ↦ false | some probe ↦ true ]
