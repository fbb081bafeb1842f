-- ===== src/Cfb/ExtractExamples.antt =====
-- The extraction of a small compound file.
use qq_analyzer.Base.{ℕ, zero, suc, List, [], ◌∷◌, ◌++◌, none, some, false, put32, ◌≡◌, refl}
use qq_analyzer.Text.{lit, decimal}
use qq_analyzer.Cfb.{magic, read_u16, read_u32, sector_bytes, valid_sector}
use qq_analyzer.Cfb.Chain.{chain, chain_loop, read_sector_chain}
use qq_analyzer.Cfb.Directory.{dir_entry, load, open_data, read_directory, read_header}
use qq_analyzer.Cfb.Header.{add_ids, difat_loop, read_difat, read_fat}
use qq_analyzer.Cfb.Paths.{free_path, safe_part, stream_prefixes, unique_output_path}
use qq_analyzer.Cfb.Streams.{read_stream_entry}
use qq_analyzer.Cfb.Walk.{list_streams, walk}
use qq_analyzer.Text.Utf16.{from_utf16_lossy}
use qq_analyzer.Cfb.Disk.{Disk, FilePath, content_at, create_dir_all, exists_on, write_file}
use qq_analyzer.Cfb.Extract.{
  Extraction, extracted, failed, crashed, CfbExtractReport, extract_cfb_with_limit, extract_loop,
}
use qq_analyzer.Cfb.ExtractSound.{IsExtraction, extract_cfb_with_limit-IsExtraction}

abbrev zeros : ℕ → List ℕ
zeros zero = []
zeros (suc n) = 0 ∷ zeros n

abbrev word : ℕ → List ℕ
word n = put32 n []

abbrev marker : List ℕ
marker = word 0xffffffff

abbrev chain_end : List ℕ
chain_end = word 0xfffffffe

-- One FAT sector, the directory in sector 1, all streams in sectors of their own.
abbrev file_header : List ℕ
file_header =
    magic
    ++ zeros 22
    ++ (9 ∷ 0 ∷ 6 ∷ 0 ∷ [])
    ++ zeros 10
    ++ word 1
    ++ word 1
    ++ zeros 4
    ++ zeros 4
    ++ chain_end
    ++ word 0
    ++ chain_end
    ++ word 0
    ++ zeros 436

abbrev fat_sector : List ℕ
fat_sector = chain_end ++ chain_end ++ chain_end ++ zeros 500

-- A directory entry with a name of one character.
abbrev dir_bytes : ℕ → ℕ → List ℕ → ℕ → ℕ → List ℕ
dir_bytes name typ child start size =
    name ∷ 0 ∷ zeros 62
    ++ (4 ∷ 0 ∷ typ ∷ 0 ∷ [])
    ++ marker
    ++ marker
    ++ child
    ++ zeros 36
    ++ word start
    ++ word size
    ++ zeros 4

abbrev dir_sector : List ℕ
dir_sector = dir_bytes b'R' 5 (word 1) 0 0 ++ dir_bytes b'a' 2 marker 2 3 ++ zeros 256

abbrev small_file : List ℕ
small_file = file_header ++ fat_sector ++ dir_sector ++ (lit "xyz" ++ zeros 509)

abbrev input_path : FilePath
input_path = lit "in.db" ∷ []

abbrev out_path : FilePath
out_path = lit "out" ∷ []

-- The output folder has a file with the name of the stream.
abbrev start_disk : Disk
start_disk = record {
  folders = out_path ∷ [];
  files = (input_path, small_file) ∷ (lit "out" ∷ lit "a" ∷ [], 1 ∷ []) ∷ [];
}

abbrev run : Extraction
run = extract_cfb_with_limit start_disk input_path out_path false none

abbrev disk_of : Extraction → Disk
disk_of failed = start_disk
disk_of crashed = start_disk
disk_of (extracted disk r) = disk

abbrev no_report : CfbExtractReport
no_report = record { input = []; output_root = []; streams = 0; bytes = 0; files = [] }

abbrev report_of : Extraction → CfbExtractReport
report_of failed = no_report
report_of crashed = no_report
report_of (extracted disk r) = r

run_succeeds : run ≡ extracted (disk_of run) (report_of run)
unfolding from_utf16_lossy chain_loop chain read_sector_chain dir_entry read_directory load
    read_header open_data content_at exists_on create_dir_all write_file extract_loop
    extract_cfb_with_limit add_ids difat_loop read_difat read_fat safe_part stream_prefixes
    free_path unique_output_path read_stream_entry walk list_streams read_u16 read_u32 valid_sector
    sector_bytes
run_succeeds = refl

-- The stream `a` goes to a numbered file, since `out/a` is there.
writes_beside : content_at (disk_of run) (lit "out" ∷ lit "a__1" ∷ []) ≡ some (lit "xyz")
unfolding from_utf16_lossy chain_loop chain read_sector_chain dir_entry read_directory load
    read_header open_data content_at exists_on create_dir_all write_file extract_loop
    extract_cfb_with_limit add_ids difat_loop read_difat read_fat safe_part stream_prefixes
    free_path unique_output_path read_stream_entry walk list_streams decimal read_u16 read_u32
    valid_sector sector_bytes
writes_beside = refl

extract_cfb_with_limit-IsExtraction_example :
    IsExtraction start_disk input_path none (disk_of run) (report_of run)
extract_cfb_with_limit-IsExtraction_example =
    extract_cfb_with_limit-IsExtraction start_disk (disk_of run) input_path out_path none
      (report_of run) run_succeeds
