-- ===== src/MediaInfo/Examples.antt =====
-- Runs of the readers of media headers, and their theorems at concrete inputs.
use qq_analyzer.Base.{
  ℕ, ◌≤◌, List, [], ◌∷◌, ◌++◌, none, some, true, false, any, length, min, All, ◌≡◌, refl, arith,
}
use qq_analyzer.Text.{lit, text_eq}
use qq_analyzer.MediaInfo.Mp3.{
  Mp3FrameHeader, parse_id3v2, parse_mp3_frame_header, mp3_bitrate_kbps, mp3_sample_rate,
  mp3_frame_len, mp3_samples_per_frame, is_consistent_with, channels,
}
use qq_analyzer.MediaInfo.Vbr.{detect_mp3_vbr, parse_vbri_info, parse_xing_info, mp3_xing_offset}
use qq_analyzer.MediaInfo.Probe.{
  Mp3Probe, find_mp3_probe, no_frames, frames_loop, validate_mp3_frame_sequence, probe_loop, is_mp3,
  tag_end,
}
use qq_analyzer.MediaInfo.FrameRuns.{AreFrames, IsProbe, find_mp3_probe-IsProbe}
use qq_analyzer.MediaInfo.Recognised.{is_mp3-AreFrames}
use qq_analyzer.MediaInfo.FrameBounds.{parse_mp3_frame_header-len}
use qq_analyzer.MediaInfo.Boxes.{read_box, sized_box, has_complete_top_level_box}
use qq_analyzer.Msg3.Outcome.{done, panicked}
use qq_analyzer.MediaInfo.BoxRead.{Box, IsBox, put_boxes}
use qq_analyzer.MediaInfo.Ebml.{read_ebml_elem, read_ebml_id, read_ebml_size, shift_in}
use qq_analyzer.MediaInfo.EbmlRead.{read_ebml_elem-put_elem}
use qq_analyzer.MediaInfo.BoxWalk.{has_complete_top_level_box-put_boxes}

-- A frame of 24 bytes: layer 3 of version 2 at 8 kbit/s and 24 kHz.
abbrev frame : List ℕ
frame =
    0xff ∷ 0xf3 ∷ 0x14 ∷ 0 ∷ 0 ∷ 0 ∷ 0 ∷ 0 ∷ 0 ∷ 0 ∷ 0 ∷ 0 ∷ 0 ∷ 0 ∷ 0 ∷ 0 ∷ 0 ∷ 0 ∷ 0 ∷ 0 ∷ 0 ∷ 0
    ∷ 0 ∷ 0 ∷ []

abbrev three_frames : List ℕ
three_frames = frame ++ (frame ++ frame)

abbrev frame_header : Mp3FrameHeader
frame_header = record {
  version_id = 2;
  layer_index = 1;
  protection_absent = true;
  bitrate_index = 1;
  sample_rate_index = 1;
  padding = false;
  channel_mode = 0;
  bitrate_bps = 8000;
  sample_rate = 24000;
  frame_len = 24;
  samples_per_frame = 576;
}

frame_parses : parse_mp3_frame_header three_frames 0 ≡ some frame_header
unfolding parse_mp3_frame_header mp3_bitrate_kbps mp3_sample_rate mp3_frame_len
    mp3_samples_per_frame
frame_parses = refl

parse_mp3_frame_header-len_example : (24 ≤ 24) × (24 ≤ 2881)
parse_mp3_frame_header-len_example =
    parse_mp3_frame_header-len three_frames 0 frame_header frame_parses

abbrev three_probe : Mp3Probe
three_probe = record {
  id3v2 = none;
  first_frame_offset = 0;
  first_frame = frame_header;
  checked_frames = 3;
  frame_bytes_checked = 72;
  bitrate_changes = 0;
  vbr = none;
}

three_found : find_mp3_probe three_frames ≡ some three_probe
unfolding find_mp3_probe parse_id3v2 probe_loop validate_mp3_frame_sequence frames_loop
    parse_mp3_frame_header mp3_bitrate_kbps mp3_sample_rate mp3_frame_len mp3_samples_per_frame
    is_consistent_with detect_mp3_vbr parse_vbri_info parse_xing_info mp3_xing_offset channels
three_found = refl

-- A frame at 16 kbit/s that is cut off behind its header counts as a change of the bitrate.
cut_frame_changes :
    frames_loop 8 frame_header (three_frames ++ (0xff ∷ 0xf3 ∷ 0x24 ∷ 0 ∷ [])) no_frames
    ≡ record { checked = 3; bytes = 72; changes = 1 }
unfolding frames_loop parse_mp3_frame_header mp3_bitrate_kbps mp3_sample_rate mp3_frame_len
    mp3_samples_per_frame is_consistent_with channels
cut_frame_changes = refl

find_mp3_probe-IsProbe_example :
    IsProbe three_frames
      (parse_id3v2 three_frames)
      (min (tag_end (parse_id3v2 three_frames)) (length three_frames))
      three_probe
find_mp3_probe-IsProbe_example = find_mp3_probe-IsProbe three_frames three_probe three_found

three-AreFrames : AreFrames frame_header 3 three_frames 72
unfolding parse_mp3_frame_header mp3_bitrate_kbps mp3_sample_rate mp3_frame_len
    mp3_samples_per_frame is_consistent_with
three-AreFrames = (
  frame_header,
  48,
  refl,
  refl,
  omega arith,
  refl,
  (
    frame_header,
    24,
    refl,
    refl,
    omega arith,
    refl,
    (frame_header, 0, refl, refl, omega arith, refl, refl),
  ),
)

is_mp3-AreFrames_example : is_mp3 three_frames ≡ true
unfolding parse_id3v2
is_mp3-AreFrames_example =
    is_mp3-AreFrames three_frames 3 frame_header 72 (omega arith) (omega arith) (omega arith)
      frame_parses three-AreFrames

abbrev two_boxes : List Box
two_boxes = (lit "ftyp", lit "isom") ∷ (lit "mdat", 1 ∷ 2 ∷ 3 ∷ []) ∷ []

two_boxes-IsBox : All IsBox two_boxes
two_boxes-IsBox = ((refl, omega arith), ((refl, omega arith), tt))

has_complete_top_level_box-put_boxes_example :
    has_complete_top_level_box (put_boxes two_boxes) (lit "moov")
    ≡ any (λ b. text_eq b.0 (lit "moov")) two_boxes
has_complete_top_level_box-put_boxes_example =
    has_complete_top_level_box-put_boxes two_boxes (lit "moov") two_boxes-IsBox

second_read :
    read_box (put_boxes two_boxes) 12 23
    ≡ some (record { typ = lit "mdat"; size = 11; data_start = 20; end = 23 })
unfolding read_box sized_box
second_read = refl

-- The type of the document, in a Matroska file.
abbrev doc_type : List ℕ
doc_type = 0x42 ∷ 0x82 ∷ 0x84 ∷ lit "webm"

read_ebml_elem-put_elem_example :
    read_ebml_elem doc_type 0 7 ≡ done (some (record { id = 0x4282; start = 3; end = 7 }))
read_ebml_elem-put_elem_example =
    read_ebml_elem-put_elem [] (0x42 ∷ 0x82 ∷ []) (0x84 ∷ []) (lit "webm") []
      ((omega arith, (omega arith, tt)), refl) (omega arith) ((omega arith, tt), refl) (omega arith)
      refl (omega arith)

-- A segment of two bytes, whose size is written in eight.
long_size_panics :
    read_ebml_elem
      (0x18 ∷ 0x53 ∷ 0x80 ∷ 0x67 ∷ 1 ∷ 0 ∷ 0 ∷ 0 ∷ 0 ∷ 0 ∷ 0 ∷ 2 ∷ 0xec ∷ 0x80 ∷ [])
      0
      14
    ≡ panicked
unfolding read_ebml_elem read_ebml_id read_ebml_size shift_in
long_size_panics = refl
