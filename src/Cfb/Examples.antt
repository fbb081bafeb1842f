-- ===== src/Cfb/Examples.antt =====
-- The theorems on cfb.rs at concrete readers, files and names.
use qq_analyzer.Base.{
  ℕ, zero, suc, ◌+◌, ◌^◌, ◌≤◌, ◌<◌, ◌&&◌, List, [], ◌∷◌, ◌++◌, none, some, Bool, false, ◌≡◌, ◌≢◌,
  ◌⊎◌, inl, refl, arith,
}
use qq_analyzer.Text.{Text, lit, text_eq}
use qq_analyzer.Cfb.{
  CfbReader, DirEntry, magic, no_stream, end_of_chain, valid_sector, sector_bytes,
}
use qq_analyzer.Cfb.Chain.{chain, chain_loop}
use qq_analyzer.Cfb.ChainLaws.{IsChain, chain-IsChain}
use qq_analyzer.Cfb.Directory.{opened, refused, overflowed, open_data}
use qq_analyzer.Cfb.Opens.{sector_shift, mini_shift, open_data_cases}
use qq_analyzer.Msg3.Outcome.{done, panicked}
use qq_analyzer.Cfb.Streams.{mini_bytes, read_stream_entry}
use qq_analyzer.Cfb.Stored.{IsStored, read_stream_entry-IsStored}
use qq_analyzer.Cfb.Walk.{walk, list_streams}
use qq_analyzer.Cfb.WalkFuel.{unvisited, walk-fuel}
use qq_analyzer.Cfb.StreamList.{AreStreams, list_streams-AreStreams}
use qq_analyzer.Cfb.Paths.{stream_prefixes, unique_output_path, numbered}
use qq_analyzer.Cfb.OutputStays.{
  StaysBelow, unique_output_path-StaysBelow, unique_output_path-escapes,
}

abbrev entry_of : Text → ℕ → ℕ → ℕ → ℕ → ℕ → DirEntry
entry_of name typ right child start size = record {
  name = name;
  typ = typ;
  left = no_stream;
  right = right;
  child = child;
  start = start;
  size = size;
}

-- Sectors of four bytes; the root's child is a stream whose right neighbour is the root again.
abbrev small_reader : CfbReader
small_reader = record {
  bytes = 0 ∷ 0 ∷ 0 ∷ 0 ∷ 7 ∷ 8 ∷ 9 ∷ 10 ∷ 1 ∷ 1 ∷ 1 ∷ 1 ∷ 11 ∷ 12 ∷ 0 ∷ 0 ∷ [];
  sector_size = 4;
  mini_sector_size = 2;
  num_fat_sectors = 1;
  first_directory_sector = 1;
  mini_stream_cutoff = 4;
  first_mini_fat_sector = end_of_chain;
  num_mini_fat_sectors = 0;
  first_difat_sector = end_of_chain;
  num_difat_sectors = 0;
  max_sector = 3;
  fat = 2 ∷ end_of_chain ∷ end_of_chain ∷ 3 ∷ [];
  entries = entry_of (lit "Root") 5 no_stream 1 0 6 ∷ entry_of (lit "a") 2 0 no_stream 0 6 ∷ [];
  mini_fat = 1 ∷ 0 ∷ [];
  root_mini_stream = 5 ∷ 6 ∷ [];
}

reads_two_sectors : chain small_reader 0 none ≡ 0 ∷ 2 ∷ []
unfolding chain chain_loop valid_sector
reads_two_sectors = refl

chain-IsChain_example : IsChain small_reader 4 0 [] (chain small_reader 0 none)
chain-IsChain_example = chain-IsChain small_reader 0 none

abbrev small_content : List ℕ
small_content = 7 ∷ 8 ∷ 9 ∷ 10 ∷ 11 ∷ 12 ∷ []

small-IsStored : IsStored small_reader (entry_of (lit "a") 2 0 no_stream 0 6) small_content
unfolding valid_sector sector_bytes
small-IsStored = record {
  more = 2 ∷ [];
  padding = 0 ∷ 0 ∷ [];
  linked = (refl, refl);
  usable = ((refl, refl), ((refl, refl), tt));
  distinct = (refl, (refl, tt));
  holds = refl;
  sized = refl;
}

read_stream_entry-IsStored_example : read_stream_entry small_reader 1 ≡ done (some small_content)
read_stream_entry-IsStored_example =
    read_stream_entry-IsStored small_reader 1 (entry_of (lit "a") 2 0 no_stream 0 6) small_content
      refl (inl (refl, small-IsStored))

walk-fuel_example :
    walk small_reader.entries (7 + 3) 0 [] unvisited ≡ walk small_reader.entries 3 0 [] unvisited
walk-fuel_example = walk-fuel small_reader.entries 7

list_streams-AreStreams_example : AreStreams small_reader.entries (list_streams small_reader)
list_streams-AreStreams_example = list_streams-AreStreams small_reader

lists_one_stream : list_streams small_reader ≡ (lit "a", 1) ∷ []
unfolding list_streams walk
lists_one_stream = refl

abbrev zeros : ℕ → List ℕ
zeros zero = []
zeros (suc n) = 0 ∷ zeros n

-- A header with the given shifts and nothing else.
abbrev bare_file : ℕ → ℕ → List ℕ
bare_file sector mini = magic ++ zeros 22 ++ (sector ∷ 0 ∷ mini ∷ 0 ∷ zeros 478)

abbrev overflowing : List ℕ
overflowing = bare_file 9 70

open_data_cases_example :
    ((64 ≤ sector_shift overflowing) ⊎ (64 ≤ mini_shift overflowing))
      × (open_data overflowing ≡ overflowed)
    ⊎ (sector_shift overflowing < 64)
      × (mini_shift overflowing < 64)
      × (sector_shift overflowing ≢ 9)
      × (open_data overflowing ≡ refused)
    ⊎ (sector_shift overflowing ≡ 9)
      × (mini_shift overflowing < 64)
      × ((reader : CfbReader) × (open_data overflowing ≡ opened reader)
          × (reader.bytes ≡ overflowing)
          × (reader.sector_size ≡ 512)
          × (reader.mini_sector_size ≡ 2 ^ mini_shift overflowing))
open_data_cases_example = open_data_cases overflowing refl (omega arith)

-- A mini shift of 63, which `open` accepts.
mini_offset_overflows : mini_bytes (record small_reader { mini_sector_size = 2 ^ 63 }) 2 ≡ panicked
unfolding mini_bytes
mini_offset_overflows = refl

-- Only the folder `out` exists, and `out/a` in it.
abbrev small_disk : List Text → Bool
small_disk (p ∷ []) = text_eq p (lit "out")
small_disk (p ∷ q ∷ []) = text_eq p (lit "out") && text_eq q (lit "a")
small_disk parts = false

unique_output_path-StaysBelow_example :
    StaysBelow small_disk
      (lit "out" ∷ [])
      (unique_output_path small_disk (lit "out" ∷ []) (lit "/a") [])
unique_output_path-StaysBelow_example =
    unique_output_path-StaysBelow small_disk (lit "out" ∷ []) (lit "/a") [] (λ e. ground (arith, e))

unique_output_path-escapes_example :
    unique_output_path small_disk (lit "out" ∷ []) (lit "/") (stream_prefixes [])
    ≡ numbered (lit "out") [] 1 ∷ []
unique_output_path-escapes_example =
    unique_output_path-escapes small_disk [] (lit "out") 1 [] refl refl
