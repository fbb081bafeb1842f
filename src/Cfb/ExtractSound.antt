-- ===== src/Cfb/ExtractSound.antt =====
-- `extract_cfb_with_limit` of cfb.rs: the report and the disk agree.
use qq_analyzer.Base.{
  ℕ, List, [], ◌∷◌, Option, none, some, false, length, Option-cases, ◌≡◌, ◌⊎◌, inl, inr, refl, sym,
  ap, subst, ◌∙◌, arith,
}
use qq_analyzer.Text.{Text}
use qq_analyzer.Msg3.Outcome.{Outcome, done, panicked}
use qq_analyzer.Cfb.{CfbReader}
use qq_analyzer.Cfb.Directory.{Opened, opened, refused, overflowed, open_data}
use qq_analyzer.Cfb.Streams.{read_stream_entry}
use qq_analyzer.Cfb.Walk.{list_streams}
use qq_analyzer.Cfb.Paths.{stream_prefixes, unique_output_path}
use qq_analyzer.Cfb.Disk.{FilePath, Disk, content_at, exists_on, create_dir_all}
use qq_analyzer.Cfb.Extract.{
  ExtractedStream, Extracted, CfbExtractReport, Extraction, extracted, failed, crashed,
  write_stream, report, extract_loop, limited, reported, extract_opened, extract_read, extract_to,
  total_size, extract_cfb_with_limit,
}
use qq_analyzer.Cfb.ExtractKeeps.{
  IsLastResort, Keeps, HasFiles, written-Keeps, Keeps-trans, write_stream-HasFiles,
  content_at-written, output_free, create_dir_all-HasFiles, content_at-files,
}

-- For each stream, in order, there is an entry of the report with its name, the size of its bytes,
-- and a file that holds them, but for a file with a name of the last resort.
abbrev pub AreWritten : CfbReader → Disk → List (Text × ℕ) → List ExtractedStream → Type 0
AreWritten reader disk [] [] = Unit
AreWritten reader disk [] (f ∷ fs) = ⊥
AreWritten reader disk (s ∷ ss) [] = ⊥
AreWritten reader disk (s ∷ ss) (f ∷ fs) =
    (bytes : List ℕ) × (read_stream_entry reader s.1 ≡ done (some bytes))
    × (f.stream ≡ s.0)
    × (f.size ≡ length bytes)
    × ((content_at disk f.output ≡ some bytes) ⊎ IsLastResort f.output)
    × AreWritten reader disk ss fs

abbrev Extracts : CfbReader → Disk → List (Text × ℕ) → Outcome (Option Extracted) → Type 0
Extracts reader disk streams panicked = Unit
Extracts reader disk streams (done none) = Unit
Extracts reader disk streams (done (some (disk', files))) =
    Keeps disk disk' × AreWritten reader disk' streams files

read_cases :
    (o : Outcome (Option (List ℕ)))
    → (o ≡ panicked) ⊎ ((o ≡ done none) ⊎ ((bytes : List ℕ) × (o ≡ done (some bytes))))
read_cases panicked = inl refl
read_cases (done none) = inr (inl refl)
read_cases (done (some bytes)) = inr (inr (bytes, refl))

module _ (reader : CfbReader) (out_root : FilePath) (prefixes : List FilePath) where
  one_more :
      (disk d : Disk) (stream : Text) (index : ℕ) (bytes : List ℕ) (out : FilePath)
      (streams : List (Text × ℕ)) (rest : Outcome (Option Extracted))
      → read_stream_entry reader index ≡ done (some bytes)
      → Keeps disk d
      → content_at d out ≡ some bytes
      → Extracts reader d streams rest
      → Extracts reader disk ((stream, index) ∷ streams) (report stream out bytes rest)
  one_more disk d stream index bytes out streams panicked read kept written more = tt
  one_more disk d stream index bytes out streams (done none) read kept written more = tt
  one_more disk d stream index bytes out streams (done (some (disk', files))) read kept written
        more =
      (
        Keeps-trans disk d disk' kept more.0,
        (bytes, read, refl, refl, more.0 out bytes written, more.1),
      )

  extract_loop-Extracts :
      (streams : List (Text × ℕ)) (disk : Disk)
      → Extracts reader disk streams (extract_loop reader out_root prefixes streams disk)
  unfolding extract_loop
  extract_loop-Extracts [] disk = (λ path bytes e. inl e, tt)
  extract_loop-Extracts ((stream, index) ∷ streams) disk =
      let out = unique_output_path (exists_on disk) out_root stream prefixes in
      elim (read_cases (read_stream_entry reader index)) [
        | inl crash ↦ rw crash tt
        | inr (inl unreadable) ↦ rw unreadable tt
        | inr (inr (bytes, read)) ↦ elim (Option-cases (write_stream disk out bytes)) [
          | inl error ↦ rw (read, error) tt
          | inr (d, wrote) ↦
              let has : d.files ≡ (out, bytes) ∷ disk.files =
                subst (HasFiles ((out, bytes) ∷ disk.files)) wrote
                  (write_stream-HasFiles disk out bytes) in
              rw (read, wrote)
                (one_more disk d stream index bytes out streams
                  (extract_loop reader out_root prefixes streams d) read
                  (written-Keeps disk d out bytes
                    (output_free (exists_on disk) out_root stream prefixes) has)
                  (content_at-written disk d out bytes has) (extract_loop-Extracts streams d))
        ]
      ]

-- What an extraction that succeeds says.
pub record IsExtraction (disk : Disk) (path : FilePath) (limit : Option ℕ) (disk' : Disk)
    (r : CfbExtractReport) : Type 0 where
  pub reader : CfbReader
  pub bytes : List ℕ
  pub read : content_at disk path ≡ some bytes
  pub opens : open_data bytes ≡ opened reader
  pub written : AreWritten reader disk' (limited limit (list_streams reader)) r.files
  pub counted : r.streams ≡ length r.files
  pub summed : r.bytes ≡ total_size r.files
  pub kept : Keeps disk disk'

abbrev Succeeds : Disk → FilePath → Option ℕ → Extraction → Type 0
Succeeds disk path limit failed = Unit
Succeeds disk path limit crashed = Unit
Succeeds disk path limit (extracted disk' r) = IsExtraction disk path limit disk' r

opened-Succeeds :
    (disk : Disk) (path out_root : FilePath) (limit : Option ℕ) (bytes : List ℕ) (o : Opened)
    → content_at disk path ≡ some bytes
    → open_data bytes ≡ o
    → Succeeds disk path limit (extract_opened path out_root limit disk o)
opened-Succeeds disk path out_root limit bytes refused read opens = tt
opened-Succeeds disk path out_root limit bytes overflowed read opens = tt
opened-Succeeds disk path out_root limit bytes (opened reader) read opens =
    let streams = limited limit (list_streams reader) in
    let prefixes = stream_prefixes (list_streams reader) in
    by_cases (extract_loop reader out_root prefixes streams disk)
      (extract_loop-Extracts reader out_root prefixes streams disk)
  where
    by_cases :
        (o : Outcome (Option Extracted))
        → Extracts reader disk (limited limit (list_streams reader)) o
        → Succeeds disk path limit (reported path out_root o)
    by_cases panicked h = tt
    by_cases (done none) h = tt
    by_cases (done (some (disk', files))) h = record {
      reader = reader;
      bytes = bytes;
      read = read;
      opens = opens;
      written = h.1;
      counted = refl;
      summed = refl;
      kept = h.0;
    }

read-Succeeds :
    (disk : Disk) (path out_root : FilePath) (limit : Option ℕ) (content : Option (List ℕ))
    → content_at disk path ≡ content
    → Succeeds disk path limit (extract_read path out_root limit disk content)
read-Succeeds disk path out_root limit none e = tt
read-Succeeds disk path out_root limit (some bytes) e =
    opened-Succeeds disk path out_root limit bytes (open_data bytes) e refl

extracted_on :
    (disk disk' : Disk) (path : FilePath) (limit : Option ℕ) (r : CfbExtractReport) (e : Extraction)
    → Succeeds disk path limit e
    → e ≡ extracted disk' r
    → IsExtraction disk path limit disk' r
extracted_on disk disk' path limit r e h same = subst (Succeeds disk path limit) same h

same_files-IsExtraction :
    (disk d disk' : Disk) (path : FilePath) (limit : Option ℕ) (r : CfbExtractReport)
    → d.files ≡ disk.files
    → IsExtraction d path limit disk' r
    → IsExtraction disk path limit disk' r
same_files-IsExtraction disk d disk' path limit r same h = record {
  reader = h.reader;
  bytes = h.bytes;
  read = sym (content_at-files d disk path same) ∙ h.read;
  opens = h.opens;
  written = h.written;
  counted = h.counted;
  summed = h.summed;
  kept = λ p bytes e. h.kept p bytes (content_at-files d disk p same ∙ e);
}

-- Where an extraction without cleaning succeeds, the report lists the streams of the compound file
-- in order, each with the size of its bytes and a file that holds them on the disk as it is then;
-- and every file that was on the disk is as it was. Files with a name of the last resort are left
-- out of both.
pub extract_cfb_with_limit-IsExtraction :
    (disk disk' : Disk) (path out_root : FilePath) (limit : Option ℕ) (r : CfbExtractReport)
    → extract_cfb_with_limit disk path out_root false limit ≡ extracted disk' r
    → IsExtraction disk path limit disk' r
unfolding extract_cfb_with_limit
extract_cfb_with_limit-IsExtraction disk disk' path out_root limit r e =
    elim (Option-cases (create_dir_all disk out_root)) [
      | inl error ↦ absurd (none_extracted (sym (ap (extract_to path out_root limit) error) ∙ e))
      | inr (d, made) ↦
          same_files-IsExtraction disk d disk' path limit r
            (subst (HasFiles disk.files) made (create_dir_all-HasFiles disk out_root))
            (extracted_on d disk' path limit r
              (extract_read path out_root limit d (content_at d path))
              (read-Succeeds d path out_root limit (content_at d path) refl)
              (sym (ap (extract_to path out_root limit) made) ∙ e))
    ]
  where
    none_extracted : failed ≡ extracted disk' r → ⊥
    none_extracted h = ground (arith, h)
