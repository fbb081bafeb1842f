-- ===== src/Cfb/Extract.antt =====
-- `extract_cfb_with_limit` of cfb.rs.
use qq_analyzer.Base.{
  ℕ, ◌+◌, List, [], ◌∷◌, Option, none, some, Bool, ◌&&◌, if◌then◌else◌, length, take,
}
use qq_analyzer.Text.{Text}
use qq_analyzer.Msg3.Outcome.{Outcome, done, panicked}
use qq_analyzer.Cfb.{CfbReader}
use qq_analyzer.Cfb.Streams.{read_stream_entry}
use qq_analyzer.Cfb.Directory.{Opened, opened, refused, overflowed, open_data}
use qq_analyzer.Cfb.Walk.{list_streams}
use qq_analyzer.Cfb.Paths.{split_last, stream_prefixes, unique_output_path}
use qq_analyzer.Cfb.Disk.{
  FilePath, Disk, exists_on, content_at, create_dir_all, write_file, remove_dir_all,
}

pub record ExtractedStream : Type 0 where
  pub stream : Text
  pub output : FilePath
  pub size : ℕ

infixl 5 ◌and_then◌
abbrev pub ◌and_then◌ {ℓ κ} : {A : Type ℓ} {B : Type κ} → Option A → (A → Option B) → Option B
none and_then f = none
(some a) and_then f = f a

-- `if let Some(parent) = out.parent() { fs::create_dir_all(parent)?; }`.
abbrev pub make_parent : Disk → FilePath → Option Disk
make_parent disk [] = some disk
make_parent disk (p ∷ ps) = create_dir_all disk (split_last p ps).0

-- The disk behind the streams so far, and what is reported of them.
abbrev pub Extracted : Type 0
Extracted = Disk × List ExtractedStream

abbrev pub report :
    Text → FilePath → List ℕ → Outcome (Option Extracted) → Outcome (Option Extracted)
report stream out bytes panicked = panicked
report stream out bytes (done none) = done none
report stream out bytes (done (some (disk, files))) =
    done (some (disk, record { stream = stream; output = out; size = length bytes } ∷ files))

-- `?` on a result, in code that can also panic.
infixl 5 ◌or_error◌
abbrev pub ◌or_error◌ {ℓ κ} :
    {A : Type ℓ} {B : Type κ} → Outcome (Option A) → (A → Outcome (Option B)) → Outcome (Option B)
panicked or_error f = panicked
(done none) or_error f = done none
(done (some a)) or_error f = f a

-- One round: the data of the stream, a path for it, the folders above, the file.
abbrev pub write_stream : Disk → FilePath → List ℕ → Option Disk
write_stream disk out bytes = make_parent disk out and_then (λ d. write_file d out bytes)

module _ (reader : CfbReader) (out_root : FilePath) (prefixes : List FilePath) where
  unfoldable pub extract_loop : List (Text × ℕ) → Disk → Outcome (Option Extracted)
  extract_loop [] disk = done (some (disk, []))
  extract_loop ((stream, index) ∷ streams) disk =
      let out = unique_output_path (exists_on disk) out_root stream prefixes in
      read_stream_entry reader index or_error (λ bytes.
        done (write_stream disk out bytes)
        or_error (λ d. report stream out bytes (extract_loop streams d)))

pub record CfbExtractReport : Type 0 where
  pub input : FilePath
  pub output_root : FilePath
  pub streams : ℕ
  pub bytes : ℕ
  pub files : List ExtractedStream

-- The report with the disk as it is then; an error, which leaves the disk somewhere between; or a
-- panic of `open` or of `read_stream_entry`.
pub data Extraction : Type 0 where
  extracted : Disk → CfbExtractReport → Extraction
  failed : Extraction
  crashed : Extraction

abbrev pub total_size : List ExtractedStream → ℕ
total_size [] = 0
total_size (f ∷ fs) = f.size + total_size fs

abbrev pub limited : Option ℕ → List (Text × ℕ) → List (Text × ℕ)
limited none streams = streams
limited (some n) streams = take n streams

abbrev pub reported : FilePath → FilePath → Outcome (Option Extracted) → Extraction
reported path out_root panicked = crashed
reported path out_root (done none) = failed
reported path out_root (done (some (disk, files))) = extracted disk (record {
  input = path;
  output_root = out_root;
  streams = length files;
  bytes = total_size files;
  files = files;
})

abbrev pub extract_opened : FilePath → FilePath → Option ℕ → Disk → Opened → Extraction
extract_opened path out_root limit disk refused = failed
extract_opened path out_root limit disk overflowed = crashed
extract_opened path out_root limit disk (opened reader) =
    let streams = list_streams reader in
    reported path out_root
      (extract_loop reader out_root (stream_prefixes streams) (limited limit streams) disk)

abbrev pub extract_read : FilePath → FilePath → Option ℕ → Disk → Option (List ℕ) → Extraction
extract_read path out_root limit disk none = failed
extract_read path out_root limit disk (some bytes) =
    extract_opened path out_root limit disk (open_data bytes)

abbrev pub extract_to : FilePath → FilePath → Option ℕ → Option Disk → Extraction
extract_to path out_root limit none = failed
extract_to path out_root limit (some disk) =
    extract_read path out_root limit disk (content_at disk path)

abbrev pub prepared : Disk → FilePath → Bool → Option Disk
prepared disk out_root clean =
    if clean && exists_on disk out_root
    then remove_dir_all disk out_root and_then (λ d. create_dir_all d out_root)
    else create_dir_all disk out_root

unfoldable pub extract_cfb_with_limit : Disk → FilePath → FilePath → Bool → Option ℕ → Extraction
extract_cfb_with_limit disk path out_root clean limit =
    extract_to path out_root limit (prepared disk out_root clean)

unfoldable pub extract_cfb : Disk → FilePath → FilePath → Bool → Extraction
extract_cfb disk path out_root clean = extract_cfb_with_limit disk path out_root clean none
