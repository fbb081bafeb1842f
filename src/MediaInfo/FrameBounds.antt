-- ===== src/MediaInfo/FrameBounds.antt =====
-- `parse_mp3_frame_header` of media_info.rs: how long a frame can be.
use qq_analyzer.Base.{
  ℕ, ◌+◌, ◌*◌, ◌/◌, ◌%◌, ◌≤◌, ◌<◌, List, Option, none, some, Bool, true, within, ◌==◌, drop, table,
  table_entry, Option-cases, ◌≡◌, inl, inr, refl, subst, arith,
}
use qq_analyzer.MediaInfo.Bytes.{be32}
use qq_analyzer.MediaInfo.Mp3.{
  Mp3FrameHeader, ◌and_then◌, looked_up, mp3_bitrate_kbps, mp3_sample_rate, mp3_frame_len,
  mp3_samples_per_frame, parse_mp3_frame_header,
}

abbrev parts_header : ℕ → ℕ → ℕ → ℕ → ℕ → Option ℕ
parts_header v l i r p = mp3_bitrate_kbps v l i and_then (λ kbps.
    mp3_sample_rate v r and_then (λ rate. mp3_frame_len v l (kbps * 1000) rate (p == 1)))

abbrev small : Option ℕ → Bool
small none = true
small (some len) = within 24 2881 len

-- The numbers of a header's five fields, as one number.
abbrev all_small : ℕ → Bool
all_small n = small (parts_header (n % 4) (n / 4 % 4) (n / 16 % 16) (n / 256 % 4) (n / 1024 % 2))

all_headers : table all_small 2048 ≡ true
unfolding table mp3_bitrate_kbps mp3_sample_rate mp3_frame_len
all_headers = refl

small_at :
    (n v l i r p : ℕ)
    → n % 4 ≡ v
    → n / 4 % 4 ≡ l
    → n / 16 % 16 ≡ i
    → n / 256 % 4 ≡ r
    → n / 1024 % 2 ≡ p
    → all_small n ≡ true
    → small (parts_header v l i r p) ≡ true
small_at n v l i r p ev el ei er ep h = rw (← ev, ← el, ← ei, ← er, ← ep) h

small_parts :
    (v l i r p : ℕ) → v < 4 → l < 4 → i < 16 → r < 4 → p < 2 → small (parts_header v l i r p) ≡ true
small_parts v l i r p hv hl hi hr hp =
    let n = v + 4 * l + 16 * i + 256 * r + 1024 * p in
    small_at n v l i r p (omega arith) (omega arith) (omega arith) (omega arith) (omega arith)
      (table_entry all_small 2048 n (omega arith) all_headers)

looked_up-len :
    (header : ℕ) (frame : Mp3FrameHeader)
    → looked_up header ≡ some frame
    → parts_header
        (header / 524288 % 4)
        (header / 131072 % 4)
        (header / 4096 % 16)
        (header / 1024 % 4)
        (header / 512 % 2)
      ≡ some frame.frame_len
looked_up-len header frame e =
    let v = header / 524288 % 4 in
    let l = header / 131072 % 4 in
    elim (Option-cases (mp3_bitrate_kbps v l (header / 4096 % 16))) [
      | inl none_found ↦ absurd (ground (arith, none_found))
      | inr (kbps, e1) ↦ elim (Option-cases (mp3_sample_rate v (header / 1024 % 4))) [
        | inl none_found ↦ absurd (ground (arith, e1, none_found))
        | inr (rate, e2) ↦
            elim (Option-cases (mp3_frame_len v l (kbps * 1000) rate (header / 512 % 2 == 1))) [
              | inl none_found ↦ absurd (ground (arith, e1, e2, none_found))
              | inr (len, e3) ↦ elim (Option-cases (mp3_samples_per_frame v l)) [
                | inl none_found ↦ absurd (ground (arith, e1, e2, e3, none_found))
                | inr (samples, e4) ↦ ground (arith, e1, e2, e3, e4)
              ]
            ]
      ]
    ]

parsed-looked_up :
    (bytes : List ℕ) (pos : ℕ) (frame : Mp3FrameHeader)
    → parse_mp3_frame_header bytes pos ≡ some frame
    → looked_up (be32 (drop pos bytes)) ≡ some frame
unfolding parse_mp3_frame_header
parsed-looked_up bytes pos frame e = ground arith

-- A frame whose header parses has 24 to 2881 bytes.
pub parse_mp3_frame_header-len :
    (bytes : List ℕ) (pos : ℕ) (frame : Mp3FrameHeader)
    → parse_mp3_frame_header bytes pos ≡ some frame
    → (24 ≤ frame.frame_len) × (frame.frame_len ≤ 2881)
parse_mp3_frame_header-len bytes pos frame e =
    let h = be32 (drop pos bytes) in
    let len = looked_up-len h frame (parsed-looked_up bytes pos frame e) in
    let bound : small (some frame.frame_len) ≡ true =
      subst (λ o. small o ≡ true) len
        (small_parts (h / 524288 % 4) (h / 131072 % 4) (h / 4096 % 16) (h / 1024 % 4) (h / 512 % 2)
          (omega arith) (omega arith) (omega arith) (omega arith) (omega arith)) in
    ground (arith, bound)
