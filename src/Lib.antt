-- ===== src/Lib.antt =====
-- qq-analyzer reads the local data of the PC QQ client: message databases whose content column
-- holds several binary formats inside each other, compound files, and key records. This library
-- models the Rust core under rust-msg3-parser/src.
--
-- The parts, and how they interact:
--   * txdata_codec.rs decodes a TXData record: a count, then for each field a header, a masked
--     name, and a value. Msg3/TD records and other callers hand it the bytes behind a marker.
--   * msg3_parser.rs decodes message content. It looks for TD and TA markers, measures each record
--     (td_record_len, ta_record_len), decodes TD records with txdata_codec.rs, and scans the rest
--     for protobuf messages and texts.
--   * Of the same file, parse_msgcontent cuts the content into elements: a raw record, a type with a
--     length and a payload, or a gap between them. Each payload goes through the collectors above,
--     then summarize_element says in a line what a reader sees. A forwarded message is a stream of
--     items, each a message of its own; msgcontent_maybe_contains_multi_msg tells without a parse
--     whether a message may hold one.
--   * cfb.rs reads compound files: sectors linked by a table, a mini stream in the root's stream, a
--     tree of directory entries; it writes each stream to a file below an output folder.
--   * media_info.rs tells what a media file is by its first bytes, and reads the headers of MPEG audio,
--     ISO media files and Matroska files.
--   * credentials.rs keeps the captured database keys in a file of JSON lines, checks each, and chooses
--     the key of a database by its path.
--   * qq_hash.rs writes a 16-byte MD5 as the 23 symbols that the client uses in its cache paths.
--
-- Files and code:
--   * Base, with Base/Tests, Base/Lists and Base/Words: Boolean tests on numbers, lists indexed by
--     native numbers, little-endian words. Every other file takes its shared names from Base.
--   * Text: a Rust `String` as the list of its code points, and the standard library's functions on
--     it; Text/Utf8 and Text/Utf16 are the strict and the lossy decoders of the standard library.
--   * TxData: txdata_codec.rs. TxData/Mask is decode_txdata_obfuscated_bytes, TxData/Strings the
--     text decoders, TxData/Fields decode_txdata_fields. TxData/Layout describes the bytes of a
--     field without the decoder, TxData/Record and TxData/Complete relate the two, TxData/Names and
--     TxData/Encode have the encoders of the tests of that file.
--   * QqHash: encode_hash and decode_hash; QqHash/Hex decode_hex_16. QqHash/Value gives a list of places its number, and
--     QqHash/Division shows what long division does to it.
--   * Msg3: msg3_parser.rs. Msg3/Texts has the text tests, Msg3/Varint read_varint, Msg3/Proto
--     looks_like_proto, Msg3/ProtoStrings and Msg3/ProtoFields the two collectors, Msg3/Frames the
--     three length functions, Msg3/WideTexts the texts of masked runs, Msg3/Records
--     parse_td_records, Msg3/Elements parse_fields. FrameRead, FrameBounds, FrameLayout, FrameWrite, ProtoSafe,
--     ProtoPanic, RecordsSound, RecordsFuel and ElementFields have the proofs. Msg3/Outcome is the
--     result of code that can panic.
--   * Message: msg3_parser.rs again. Message/Element has the types and collect_ctx_tlvs, Message/Parse
--     parse_msgcontent, Message/Gaps the search for the next element and raw_gap_element,
--     Message/Embedded embedded_visible_elements, Message/Summary summarize_element with
--     Message/Faces, Message/Named (texts by their TXData names), Message/Runs (runs of UTF-16),
--     Message/Xml and Message/Json (structured messages) below it, Message/Labels
--     transport_only_label, Message/Prefilter the prefilter, Message/Items the forwarded items,
--     Message/Expand parse_info_mmp_items_value, Message/Escape json_escape, Message/Skips
--     display_skip_indices. ExpandLimits, EscapeRead, SkipsLeadin, Layout, RoundBounds, RoundLaws,
--     Scan, ScanFuel, Written, ReadBack, Crash, FilterElements, ItemsRound and ItemsStream have the
--     proofs.
--   * Cfb: cfb.rs. Cfb.antt has the reader's state and the sectors, Cfb/Chain the chains, Cfb/Header
--     and Cfb/Directory what `open` reads, Cfb/Streams read_stream_entry, Cfb/Walk list_streams,
--     Cfb/Paths the output paths. Opens, ChainLaws, ChainReads, MiniReads, Stored, WalkOnce,
--     WalkFuel, StreamList, SafeParts, OutputPath and OutputStays have the proofs on them. Cfb/Disk
--     is the part of the file system that is used, Cfb/Extract extract_cfb_with_limit on it;
--     ExtractKeeps and ExtractSound have its proofs. A
--     BTreeSet that only grows is the list of what it holds (Base/Pigeonhole), a path is the list of
--     its parts, and whether a path exists is the function `exists_at`.
--   * MediaInfo: media_info.rs. MediaInfo/Bytes has the numbers and the signatures, MediaInfo/Mp3 the
--     ID3 tag and the frame header, MediaInfo/Vbr the tables of a variable bitrate, MediaInfo/Probe
--     find_mp3_probe, MediaInfo/Boxes read_box and has_complete_top_level_box, MediaInfo/Ebml
--     read_ebml_elem. FrameRuns, Recognised, FrameBounds, BoxRead, BoxWalk and EbmlRead have the
--     proofs.
--   * Credentials: credentials.rs. Credentials.antt has a record and its checks, Credentials/Store the
--     file (its text, to whose end append_credential writes), Credentials/Lookup key_for_path; Normal,
--     Lines, Append and Choice have the proofs.
--   * Each Examples file (and Msg3/RecordExamples) has the tests and the theorems applied
--     at concrete inputs.
--
-- How the code is read. A byte string is a list of numbers, `IsBytes` where each is below 256. A
-- position in a slice is a suffix of the list, and `pos` is counted beside it where the code
-- returns it. A `usize` is a number; where the code can overflow one, the sum is compared with
-- 2 ^ 64 and the overflow is a panic (`Outcome`). The digits of qq_hash.rs keep the wrap of u32,
-- u16 and u8. `Vec` arguments that the code pushes to are passed and returned.
--
-- Loops. A loop over a declared count recurses on the count. A loop over the bytes recurses on
-- fuel, and the caller gives the length of the bytes, which is enough since each round takes a byte at
-- least. A walk with a visited set has fuel for as many rounds as there are places to visit, and one
-- more. Recursion on nested messages and records counts the levels that are left, which is the guard
-- of the code on the depth.
--
-- Parameters. The GB18030 decoder of the encoding_rs crate is an argument (`gb18030`): it returns
-- the text and whether it had errors, and no theorem assumes more of it. In Message it stands in a
-- record (`Crates`) with the inflater of flate2 and the JSON parser of serde_json.
-- In Credentials, Unicode's lower case, the clock, and the JSON parser and printer are arguments; a
-- theorem that relies on them says so in its hypotheses.
--
-- Not modelled: the SQLite, HTTP, image and GPU parts, which call other crates throughout, and
-- vendor/, which holds copies of other projects.
pub mod Base
pub mod Cfb
pub mod Credentials
pub mod MediaInfo
pub mod Message
pub mod Msg3
pub mod QqHash
pub mod Text
pub mod TxData
