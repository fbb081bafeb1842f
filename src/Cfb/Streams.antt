-- ===== src/Cfb/Streams.antt =====
-- `read_stream_entry` of cfb.rs.
use qq_analyzer.Base.{
  ℕ, ◌+◌, ◌*◌, List, [], ◌∷◌, ◌++◌, Option, none, some, Bool, not, ◌&&◌, ◌||◌, ltb, leb, ◌==◌, min,
  if◌then◌else◌, length, take, slice, get_elem?,
}
use qq_analyzer.Msg3.Outcome.{Outcome, done, panicked, ◌>>=◌, usize_limit}
use qq_analyzer.Cfb.{DirEntry, CfbReader, is_marker}
use qq_analyzer.Cfb.Chain.{mini_chain, read_sector_chain}

-- The bytes of the root's stream from `off` on, which `off < end` keeps within the stream.
abbrev pub mini_slice : CfbReader → ℕ → List ℕ
mini_slice reader off =
    let end = min (off + reader.mini_sector_size) (length reader.root_mini_stream) in
    if ltb off end then slice off end reader.root_mini_stream else []

-- The product can overflow; the sum saturates, above the length of the stream.
unfoldable pub mini_bytes : CfbReader → ℕ → Outcome (List ℕ)
mini_bytes reader mini_sector =
    let off = mini_sector * reader.mini_sector_size in
    if leb usize_limit off then panicked else done (mini_slice reader off)

abbrev pub concat_mini : CfbReader → List ℕ → Outcome (List ℕ)
concat_mini reader [] = done []
concat_mini reader (s ∷ ss) =
    mini_bytes reader s >>= (λ out. concat_mini reader ss >>= (λ more. done (out ++ more)))

abbrev pub is_in_mini : CfbReader → DirEntry → Bool
is_in_mini reader entry =
    ltb entry.size reader.mini_stream_cutoff && not (length reader.root_mini_stream == 0)

abbrev pub entry_bytes : CfbReader → DirEntry → Outcome (List ℕ)
entry_bytes reader entry =
    if entry.size == 0 || is_marker entry.start
    then done []
    else if is_in_mini reader entry
    then concat_mini reader (mini_chain reader entry.start) >>= (λ out. done (take entry.size out))
    else done (read_sector_chain reader entry.start (some entry.size) none)

-- An index that is no entry is an error.
unfoldable pub read_stream_entry : CfbReader → ℕ → Outcome (Option (List ℕ))
read_stream_entry reader index = elim (get_elem? reader.entries index) [
  | none ↦ done none
  | some entry ↦ entry_bytes reader entry >>= (λ out. done (some out))
]
