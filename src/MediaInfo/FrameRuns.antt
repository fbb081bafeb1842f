-- ===== src/MediaInfo/FrameRuns.antt =====
-- `find_mp3_probe` of media_info.rs: what the frames of a probe are.
use qq_analyzer.Base.{
  ℕ, zero, suc, ◌+◌, ◌-◌, ◌≤◌, List, Option, none, some, true, ltb, min, length, drop, length-drop,
  ltb→le, Bool-cases, Option-cases, ◌≡◌, inl, inr, refl, subst, arith,
}
use qq_analyzer.MediaInfo.Mp3.{
  Id3v2Info, Mp3FrameHeader, parse_id3v2, parse_mp3_frame_header, is_consistent_with,
}
use qq_analyzer.MediaInfo.Probe.{
  Mp3Probe, FrameRun, count_change, count_frame, frames_loop, no_frames, probe_of,
  validate_mp3_frame_sequence, is_sync, probe_loop, tag_end, find_mp3_probe, max_sync_search_bytes,
  max_sync_candidates, max_consistency_frames, min_consistent_frames,
}

-- `k` complete frames, one behind the other, that agree with the first; they have `total` bytes.
abbrev pub AreFrames : Mp3FrameHeader → ℕ → List ℕ → ℕ → Type 0
AreFrames first zero rest total = total ≡ 0
AreFrames first (suc k) rest total =
    (frame : Mp3FrameHeader) × (more : ℕ) × (parse_mp3_frame_header rest 0 ≡ some frame)
    × (is_consistent_with frame first ≡ true)
    × (frame.frame_len ≤ length rest)
    × (total ≡ frame.frame_len + more)
    × AreFrames first k (drop frame.frame_len rest) more

AreFrames-within :
    (first : Mp3FrameHeader) (k : ℕ) (rest : List ℕ) (total : ℕ)
    → AreFrames first k rest total
    → total ≤ length rest
AreFrames-within first zero rest total frames = omega (arith, frames)
AreFrames-within first (suc k) rest total (frame, more, parsed, same, fits, sum, frames) = omega (
  arith,
  fits,
  sum,
  AreFrames-within first k (drop frame.frame_len rest) more frames,
  length-drop frame.frame_len rest,
)

pub record IsRun (left : ℕ) (first : Mp3FrameHeader) (rest : List ℕ) (run end : FrameRun)
    : Type 0 where
  pub k : ℕ
  pub total : ℕ
  pub at_most : k ≤ left
  pub counted : end.checked ≡ run.checked + k
  pub sized : end.bytes ≡ run.bytes + total
  pub frames : AreFrames first k rest total

no_more :
    (left : ℕ) (first : Mp3FrameHeader) (rest : List ℕ) (run end : FrameRun)
    → end.checked ≡ run.checked
    → end.bytes ≡ run.bytes
    → IsRun left first rest run end
no_more left first rest run end same_count same_size = record {
  k = 0;
  total = 0;
  at_most = omega arith;
  counted = omega (arith, same_count);
  sized = omega (arith, same_size);
  frames = refl;
}

pub frames_loop-IsRun :
    (left : ℕ) (first : Mp3FrameHeader) (rest : List ℕ) (run : FrameRun)
    → IsRun left first rest run (frames_loop left first rest run)
unfolding frames_loop
frames_loop-IsRun zero first rest run = no_more zero first rest run run refl refl
frames_loop-IsRun (suc left) first rest run = elim (Option-cases (parse_mp3_frame_header rest 0)) [
  | inl missing ↦ rw (missing, frames_loop) (no_more (suc left) first rest run run refl refl)
  | inr (frame, parsed) ↦ elim (Bool-cases (is_consistent_with frame first)) [
    | inr other ↦ rw (parsed, frames_loop, other) (no_more (suc left) first rest run run refl refl)
    | inl same ↦
        let changed = count_change first frame run in
        elim (Bool-cases (ltb (length rest) frame.frame_len)) [
          | inl past ↦
              rw (parsed, frames_loop, same, past)
                (no_more (suc left) first rest run changed refl refl)
          | inr inside ↦
              let behind = drop frame.frame_len rest in
              let more = frames_loop-IsRun left first behind (count_frame frame changed) in
              rw (parsed, frames_loop, same, inside)
                (record {
                  k = suc more.k;
                  total = frame.frame_len + more.total;
                  at_most = omega (arith, more.at_most);
                  counted = omega (arith, more.counted);
                  sized = omega (arith, more.sized);
                  frames = (
                    frame,
                    more.total,
                    parsed,
                    same,
                    ltb→le (length rest) frame.frame_len inside,
                    refl,
                    more.frames,
                  );
                })
        ]
  ]
]

-- A probe found at `start` or behind it: its first frame stands there, and 3 to 8 complete frames
-- that agree with it stand one behind the other, within the file.
pub record IsProbe (bytes : List ℕ) (id3v2 : Option Id3v2Info) (start : ℕ) (probe : Mp3Probe)
    : Type 0 where
  pub tagged : probe.id3v2 ≡ id3v2
  pub behind : start ≤ probe.first_frame_offset
  pub parsed : parse_mp3_frame_header bytes probe.first_frame_offset ≡ some probe.first_frame
  pub enough : 3 ≤ probe.checked_frames
  pub at_most : probe.checked_frames ≤ 8
  pub frames :
      AreFrames probe.first_frame probe.checked_frames
        (drop probe.first_frame_offset bytes)
        probe.frame_bytes_checked
  pub in_file : probe.frame_bytes_checked ≤ length bytes - probe.first_frame_offset

abbrev Probes : List ℕ → Option Id3v2Info → ℕ → Option Mp3Probe → Type 0
Probes bytes id3v2 start none = Unit
Probes bytes id3v2 start (some probe) = IsProbe bytes id3v2 start probe

probe_of-Probes :
    (bytes : List ℕ) (id3v2 : Option Id3v2Info) (start pos : ℕ) (first : Mp3FrameHeader)
    (run : FrameRun)
    → start ≤ pos
    → parse_mp3_frame_header bytes pos ≡ some first
    → IsRun 8 first (drop pos bytes) no_frames run
    → Probes bytes id3v2 start (probe_of bytes id3v2 pos first run)
probe_of-Probes bytes id3v2 start pos first run h parsed r =
    elim (Bool-cases (ltb run.checked min_consistent_frames)) [
      | inl few ↦ rw few tt
      | inr enough ↦
          let count : r.k ≡ run.checked = omega (arith, r.counted) in
          let size : r.total ≡ run.bytes = omega (arith, r.sized) in
          let frames : AreFrames first run.checked (drop pos bytes) run.bytes =
            subst (λ k. AreFrames first k (drop pos bytes) run.bytes) count
              (subst (AreFrames first r.k (drop pos bytes)) size r.frames) in
          rw enough (record {
            tagged = refl;
            behind = h;
            parsed = parsed;
            enough = ltb→le run.checked 3 enough;
            at_most = omega (arith, count, r.at_most);
            frames = frames;
            in_file = omega (
              arith,
              AreFrames-within first run.checked (drop pos bytes) run.bytes frames,
              length-drop pos bytes,
            );
          })
    ]

validate-Probes :
    (bytes : List ℕ) (id3v2 : Option Id3v2Info) (start pos : ℕ)
    → start ≤ pos
    → Probes bytes id3v2 start (validate_mp3_frame_sequence bytes id3v2 pos)
unfolding validate_mp3_frame_sequence
validate-Probes bytes id3v2 start pos h = elim (Option-cases (parse_mp3_frame_header bytes pos)) [
  | inl missing ↦ rw (missing, validate_mp3_frame_sequence) tt
  | inr (first, parsed) ↦
      rw (parsed, validate_mp3_frame_sequence)
        (probe_of-Probes bytes id3v2 start pos first
          (frames_loop max_consistency_frames first (drop pos bytes) no_frames) h parsed
          (frames_loop-IsRun 8 first (drop pos bytes) no_frames))
]

probe_loop-Probes :
    (left : ℕ) (bytes : List ℕ) (id3v2 : Option Id3v2Info) (start candidates pos : ℕ)
    → start ≤ pos
    → Probes bytes id3v2 start (probe_loop left bytes id3v2 candidates pos)
unfolding probe_loop
probe_loop-Probes zero bytes id3v2 start candidates pos h = tt
probe_loop-Probes (suc left) bytes id3v2 start candidates pos h =
    let next = probe_loop-Probes left bytes id3v2 start candidates (suc pos) (omega arith) in
    let counted =
      probe_loop-Probes left bytes id3v2 start (suc candidates) (suc pos) (omega arith) in
    elim (Bool-cases (ltb left 3)) [
      | inl end ↦ rw (end, probe_loop) tt
      | inr go ↦ elim (Bool-cases (is_sync (drop pos bytes))) [
        | inr plain ↦ rw (go, probe_loop, plain) next
        | inl sync ↦ elim (Bool-cases (ltb max_sync_candidates (suc candidates))) [
          | inl many ↦ rw (go, probe_loop, sync, many) tt
          | inr few ↦ elim (Option-cases (validate_mp3_frame_sequence bytes id3v2 pos)) [
            | inl failed ↦ rw (go, probe_loop, sync, few, failed) counted
            | inr (probe, found) ↦
                rw (go, probe_loop, sync, few, found)
                  (subst (Probes bytes id3v2 start) found (validate-Probes bytes id3v2 start pos h))
          ]
        ]
      ]
    ]

-- The probe of a file has the file's ID3 tag and stands behind it: its first frame parses, and 3 to
-- 8 complete frames that agree with it stand one behind the other, within the file.
pub find_mp3_probe-IsProbe :
    (bytes : List ℕ) (probe : Mp3Probe)
    → find_mp3_probe bytes ≡ some probe
    → IsProbe bytes (parse_id3v2 bytes) (min (tag_end (parse_id3v2 bytes)) (length bytes)) probe
unfolding find_mp3_probe
find_mp3_probe-IsProbe bytes probe e =
    let id3v2 = parse_id3v2 bytes in
    let start = min (tag_end id3v2) (length bytes) in
    let end = min (length bytes) (start + max_sync_search_bytes) in
    subst (Probes bytes id3v2 start) e
      (probe_loop-Probes (end - start) bytes id3v2 start 0 start (omega arith))
