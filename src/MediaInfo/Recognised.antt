-- ===== src/MediaInfo/Recognised.antt =====
-- `is_mp3` of media_info.rs: files that it recognises.
use qq_analyzer.Base.{
  ℕ, zero, suc, ◌+◌, ◌-◌, ◌≤◌, ◌/◌, List, [], ◌∷◌, Option, none, some, true, false, ◌==◌, ltb, min,
  length, drop, length-drop, IsByte, IsBytes, All-drop, le→ltb, Option-cases, ◌≡◌, inl, inr, refl,
  subst, ◌∙◌, arith,
}
use qq_analyzer.MediaInfo.Bytes.{be32}
use qq_analyzer.MediaInfo.Mp3.{Id3v2Info, Mp3FrameHeader, parse_id3v2, parse_mp3_frame_header}
use qq_analyzer.MediaInfo.Probe.{
  Mp3Probe, FrameRun, count_change, count_frame, frames_loop, no_frames,
  validate_mp3_frame_sequence, is_sync, probe_loop, tag_end, find_mp3_probe, is_mp3,
  max_sync_search_bytes, max_consistency_frames, min_consistent_frames,
}
use qq_analyzer.MediaInfo.FrameRuns.{AreFrames, frames_loop-IsRun}

frames_loop-AreFrames :
    (left k : ℕ) (first : Mp3FrameHeader) (rest : List ℕ) (total : ℕ) (run : FrameRun)
    → k ≤ left
    → AreFrames first k rest total
    → run.checked + k ≤ (frames_loop left first rest run).checked
unfolding frames_loop
frames_loop-AreFrames left zero first rest total run h frames =
    omega (arith, (frames_loop-IsRun left first rest run).counted)
frames_loop-AreFrames zero (suc k) first rest total run h frames = absurd (omega arith)
frames_loop-AreFrames (suc left) (suc k) first rest total run h
      (frame, more, parsed, same, fits, sum, frames) =
    let behind = drop frame.frame_len rest in
    let inside : ltb (length rest) frame.frame_len ≡ false =
      le→ltb (length rest) frame.frame_len fits in
    let rest_counted =
      frames_loop-AreFrames left k first behind more
        (count_frame frame (count_change first frame run)) (omega arith) frames in
    rw (parsed, frames_loop, same, inside) (omega (arith, rest_counted))

parsed_at :
    (bytes : List ℕ) (pos : ℕ)
    → parse_mp3_frame_header bytes pos ≡ parse_mp3_frame_header (drop pos bytes) 0
unfolding parse_mp3_frame_header
parsed_at bytes pos = refl

parsed-synced :
    (rest : List ℕ) (first : Mp3FrameHeader)
    → IsBytes rest
    → parse_mp3_frame_header rest 0 ≡ some first
    → (4 ≤ length rest) × (is_sync rest ≡ true)
unfolding parse_mp3_frame_header
parsed-synced [] first ok e = absurd (ground arith)
parsed-synced (a ∷ []) first ok e = absurd (ground arith)
parsed-synced (a ∷ b ∷ []) first ok e = absurd (ground arith)
parsed-synced (a ∷ b ∷ c ∷ []) first ok e = absurd (ground arith)
parsed-synced (a ∷ b ∷ c ∷ d ∷ rest) first ok e =
    let sync : (be32 (a ∷ b ∷ c ∷ d ∷ rest) / 2097152 == 2047) ≡ true = ground arith in
    (omega arith, ground (arith, sync))

abbrev IsFound : Option Mp3Probe → Type 0
IsFound none = ⊥
IsFound (some probe) = Unit

validate-IsFound :
    (bytes : List ℕ) (id3v2 : Option Id3v2Info) (pos k : ℕ) (first : Mp3FrameHeader) (total : ℕ)
    → 3 ≤ k
    → k ≤ 8
    → parse_mp3_frame_header bytes pos ≡ some first
    → AreFrames first k (drop pos bytes) total
    → IsFound (validate_mp3_frame_sequence bytes id3v2 pos)
unfolding validate_mp3_frame_sequence
validate-IsFound bytes id3v2 pos k first total h3 h8 parsed frames =
    let run = frames_loop max_consistency_frames first (drop pos bytes) no_frames in
    let counted = frames_loop-AreFrames 8 k first (drop pos bytes) total no_frames h8 frames in
    let enough : ltb run.checked min_consistent_frames ≡ false =
      le→ltb run.checked 3 (omega (arith, counted)) in
    rw (parsed, validate_mp3_frame_sequence, enough) tt

loop-IsFound :
    (left : ℕ) (bytes : List ℕ) (id3v2 : Option Id3v2Info) (pos : ℕ)
    → 4 ≤ left
    → is_sync (drop pos bytes) ≡ true
    → IsFound (validate_mp3_frame_sequence bytes id3v2 pos)
    → IsFound (probe_loop left bytes id3v2 0 pos)
unfolding probe_loop
loop-IsFound zero bytes id3v2 pos h sync valid = absurd (omega arith)
loop-IsFound (suc left) bytes id3v2 pos h sync valid =
    let room : ltb left 3 ≡ false = le→ltb left 3 (omega arith) in
    elim (Option-cases (validate_mp3_frame_sequence bytes id3v2 pos)) [
      | inl failed ↦ absurd (subst IsFound failed valid)
      | inr (probe, found) ↦ rw (room, probe_loop, sync, found) tt
    ]

abbrev audio_of : List ℕ → List ℕ
audio_of bytes = drop (min (tag_end (parse_id3v2 bytes)) (length bytes)) bytes

-- A file whose first 3 to 8 frames behind the ID3 tag are complete and agree is taken for an MP3.
pub is_mp3-AreFrames :
    (bytes : List ℕ) (k : ℕ) (first : Mp3FrameHeader) (total : ℕ)
    → IsBytes bytes
    → 3 ≤ k
    → k ≤ 8
    → parse_mp3_frame_header (audio_of bytes) 0 ≡ some first
    → AreFrames first k (audio_of bytes) total
    → is_mp3 bytes ≡ true
unfolding is_mp3 find_mp3_probe
is_mp3-AreFrames bytes k first total ok h3 h8 parsed frames =
    let id3v2 = parse_id3v2 bytes in
    let start = min (tag_end id3v2) (length bytes) in
    let left = min (length bytes) (start + max_sync_search_bytes) - start in
    let (room, sync) =
      parsed-synced (drop start bytes) first (All-drop IsByte start bytes ok) parsed in
    let found =
      loop-IsFound left bytes id3v2 start (omega (arith, room, length-drop start bytes)) sync (
        validate-IsFound bytes id3v2 start k first total h3 h8 (parsed_at bytes start ∙ parsed)
          frames) in
    elim (Option-cases (probe_loop left bytes id3v2 0 start)) [
      | inl failed ↦ absurd (subst IsFound failed found)
      | inr (probe, some_probe) ↦ rw (some_probe, is_mp3) refl
    ]
