-- ===== src/MediaInfo/Mp3.antt =====
-- The header of an MPEG audio frame and the ID3 tag before the first one, in media_info.rs.
use qq_analyzer.Base.{
  ℕ, ◌+◌, ◌*◌, ◌/◌, ◌%◌, List, [], ◌∷◌, Option, none, some, Bool, not, ◌&&◌, ◌||◌, ltb, leb, within,
  ◌==◌, if◌then◌else◌, length, take, drop, any, byte_at, get_or,
}
use qq_analyzer.Text.{lit, starts_with}
use qq_analyzer.MediaInfo.Bytes.{be32, synchsafe_u32}

pub record Id3v2Info : Type 0 where
  pub version : ℕ
  pub revision : ℕ
  pub flags : ℕ
  pub tag_size : ℕ
  pub total_size : ℕ
  pub footer : Bool

-- The sums of the source are checked, and far below 2 ^ 64.
unfoldable pub parse_id3v2 : List ℕ → Option Id3v2Info
parse_id3v2 bytes =
    let version = byte_at bytes 3 in
    let revision = byte_at bytes 4 in
    let flags = byte_at bytes 5 in
    let tag_size = synchsafe_u32 (drop 6 bytes) in
    let footer = version == 4 && flags / 16 % 2 == 1 in
    if ltb (length bytes) 10 || not (starts_with (lit "ID3") bytes)
    then none
    else if not (within 2 4 version)
        || revision == 0xff
        || any (λ b. leb 128 b) (take 4 (drop 6 bytes))
    then none
    else some (record {
      version = version;
      revision = revision;
      flags = flags;
      tag_size = tag_size;
      total_size = 10 + tag_size + (if footer then 10 else 0);
      footer = footer;
    })

pub record Mp3FrameHeader : Type 0 where
  pub version_id : ℕ
  pub layer_index : ℕ
  pub protection_absent : Bool
  pub bitrate_index : ℕ
  pub sample_rate_index : ℕ
  pub padding : Bool
  pub channel_mode : ℕ
  pub bitrate_bps : ℕ
  pub sample_rate : ℕ
  pub frame_len : ℕ
  pub samples_per_frame : ℕ

abbrev bitrates : ℕ → ℕ → List ℕ
bitrates version_id layer_index =
    if version_id == 3 && layer_index == 3
    then 0 ∷ 32 ∷ 64 ∷ 96 ∷ 128 ∷ 160 ∷ 192 ∷ 224 ∷ 256 ∷ 288 ∷ 320 ∷ 352 ∷ 384 ∷ 416 ∷ 448 ∷ 0 ∷ []
    else if version_id == 3 && layer_index == 2
    then 0 ∷ 32 ∷ 48 ∷ 56 ∷ 64 ∷ 80 ∷ 96 ∷ 112 ∷ 128 ∷ 160 ∷ 192 ∷ 224 ∷ 256 ∷ 320 ∷ 384 ∷ 0 ∷ []
    else if version_id == 3 && layer_index == 1
    then 0 ∷ 32 ∷ 40 ∷ 48 ∷ 56 ∷ 64 ∷ 80 ∷ 96 ∷ 112 ∷ 128 ∷ 160 ∷ 192 ∷ 224 ∷ 256 ∷ 320 ∷ 0 ∷ []
    else if version_id == 3
    then []
    else if layer_index == 3
    then 0 ∷ 32 ∷ 48 ∷ 56 ∷ 64 ∷ 80 ∷ 96 ∷ 112 ∷ 128 ∷ 144 ∷ 160 ∷ 176 ∷ 192 ∷ 224 ∷ 256 ∷ 0 ∷ []
    else if layer_index == 2 || layer_index == 1
    then 0 ∷ 8 ∷ 16 ∷ 24 ∷ 32 ∷ 40 ∷ 48 ∷ 56 ∷ 64 ∷ 80 ∷ 96 ∷ 112 ∷ 128 ∷ 144 ∷ 160 ∷ 0 ∷ []
    else []

abbrev entry_of : List ℕ → ℕ → Option ℕ
entry_of [] index = none
entry_of (k ∷ ks) index = some (get_or (k ∷ ks) index 0)

unfoldable pub mp3_bitrate_kbps : ℕ → ℕ → ℕ → Option ℕ
mp3_bitrate_kbps version_id layer_index index =
    if index == 0 || index == 15 then none else entry_of (bitrates version_id layer_index) index

unfoldable pub mp3_sample_rate : ℕ → ℕ → Option ℕ
mp3_sample_rate version_id index =
    let base = get_or (44100 ∷ 48000 ∷ 32000 ∷ []) index 0 in
    if index == 3
    then none
    else if version_id == 3
    then some base
    else if version_id == 2
    then some (base / 2)
    else if version_id == 0
    then some (base / 4)
    else none

abbrev at_least_4 : ℕ → Option ℕ
at_least_4 len = if leb 4 len then some len else none

-- The products fit in a u32: a bitrate is below 2 ^ 19.
unfoldable pub mp3_frame_len : ℕ → ℕ → ℕ → ℕ → Bool → Option ℕ
mp3_frame_len version_id layer_index bitrate_bps sample_rate padding =
    let pad = if padding then 1 else 0 in
    if sample_rate == 0
    then none
    else if layer_index == 3
    then at_least_4 ((12 * bitrate_bps / sample_rate + pad) * 4)
    else if layer_index == 2
    then at_least_4 (144 * bitrate_bps / sample_rate + pad)
    else if layer_index == 1 && version_id == 3
    then at_least_4 (144 * bitrate_bps / sample_rate + pad)
    else if layer_index == 1
    then at_least_4 (72 * bitrate_bps / sample_rate + pad)
    else none

unfoldable pub mp3_samples_per_frame : ℕ → ℕ → Option ℕ
mp3_samples_per_frame version_id layer_index =
    if layer_index == 3
    then some 384
    else if layer_index == 2
    then some 1152
    else if layer_index == 1
    then some (if version_id == 3 then 1152 else 576)
    else none

-- The fields of the 32 bits of a header, and the four numbers looked up.
abbrev pub make_header : ℕ → ℕ → ℕ → ℕ → ℕ → Mp3FrameHeader
make_header header kbps sample_rate frame_len samples = record {
  version_id = header / 524288 % 4;
  layer_index = header / 131072 % 4;
  protection_absent = header / 65536 % 2 == 1;
  bitrate_index = header / 4096 % 16;
  sample_rate_index = header / 1024 % 4;
  padding = header / 512 % 2 == 1;
  channel_mode = header / 64 % 4;
  bitrate_bps = kbps * 1000;
  sample_rate = sample_rate;
  frame_len = frame_len;
  samples_per_frame = samples;
}

infixl 5 ◌and_then◌
abbrev pub ◌and_then◌ {ℓ κ} : {A : Type ℓ} {B : Type κ} → Option A → (A → Option B) → Option B
none and_then f = none
(some a) and_then f = f a

abbrev pub looked_up : ℕ → Option Mp3FrameHeader
looked_up header =
    let version_id = header / 524288 % 4 in
    let layer_index = header / 131072 % 4 in
    mp3_bitrate_kbps version_id layer_index (header / 4096 % 16) and_then (λ kbps.
      mp3_sample_rate version_id (header / 1024 % 4) and_then (λ rate.
        mp3_frame_len version_id layer_index (kbps * 1000) rate (header / 512 % 2 == 1)
        and_then (λ len.
            mp3_samples_per_frame version_id layer_index
            and_then (λ samples. some (make_header header kbps rate len samples)))))

unfoldable pub parse_mp3_frame_header : List ℕ → ℕ → Option Mp3FrameHeader
parse_mp3_frame_header bytes pos =
    let rest = drop pos bytes in
    let header = be32 rest in
    if ltb (length rest) 4
    then none
    else if not (header / 2097152 == 2047)
    then none
    else if header / 524288 % 4 == 1 || header / 131072 % 4 == 0 || header % 4 == 2
    then none
    else looked_up header

unfoldable pub channels : Mp3FrameHeader → ℕ
channels frame = if frame.channel_mode == 3 then 1 else 2

unfoldable pub is_consistent_with : Mp3FrameHeader → Mp3FrameHeader → Bool
is_consistent_with frame first =
    frame.version_id == first.version_id
    && (frame.layer_index == first.layer_index && frame.sample_rate == first.sample_rate)
