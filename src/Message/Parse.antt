-- ===== src/Message/Parse.antt =====
-- `parse_msgcontent` of msg3_parser.rs.
use qq_analyzer.Base.{
  ℕ, zero, suc, ◌+◌, List, [], ◌∷◌, ◌++◌, Option, none, some, Bool, true, false, not, ◌&&◌, ◌||◌,
  ltb, leb, max, ◌==◌, if◌then◌else◌, length, take, drop, any, byte_at, le16,
}
use qq_analyzer.Text.{Text, lit, is_empty, starts_with, decimal}
use qq_analyzer.Msg3.Outcome.{Outcome, done, ◌>>=◌}
use qq_analyzer.Msg3.ProtoStrings.{collect_proto_strings}
use qq_analyzer.Msg3.ProtoFields.{ProtoField, collect_proto_fields}
use qq_analyzer.Msg3.Records.{find_markers, parse_td_records}
use qq_analyzer.Msg3.Elements.{Field, parse_fields}
use qq_analyzer.Message.Element.{Element, TlvRecord, Crates, blank, is_nil, collect_ctx_tlvs}
use qq_analyzer.Message.Summary.{starts_with_td_ta, summarize_element, useful_element}
use qq_analyzer.Message.Labels.{transport_only_label}
use qq_analyzer.Message.Gaps.{
  raw_record_len, near_td_ta_marker_delta, is_standard, next_standard_element_start,
  raw_gap_element,
}
use qq_analyzer.Message.Embedded.{embedded_visible_elements}

-- What the collectors fill.
pub record Collected : Type 0 where
  pub proto_strings : List Text
  pub proto_fields : List ProtoField
  pub tlvs : List TlvRecord

abbrev collect_from : List ℕ → Text → Text → Collected → Outcome Collected
collect_from bytes path source got = collect_proto_strings bytes 0 got.proto_strings >>= (λ strings.
    collect_proto_fields bytes 0 path got.proto_fields >>= (λ protos.
      collect_ctx_tlvs bytes source got.tlvs
      >>= (λ tlvs. done (record { proto_strings = strings; proto_fields = protos; tlvs = tlvs }))))

abbrev base_of : Field → Text
base_of f = if is_empty f.name then lit "field" ++ decimal f.id else f.name

abbrev collect_fields : List Field → Collected → Outcome Collected
collect_fields [] got = done got
collect_fields (f ∷ fs) got = collect_from f.value (base_of f) (base_of f) got >>= collect_fields fs

abbrev pub fields_in : ℕ → List ℕ → List Field
fields_in typ payload = if starts_with_td_ta payload then [] else parse_fields typ payload

-- The collectors run on the payload, then on the value of each field.
unfoldable pub collected : ℕ → List ℕ → Outcome Collected
collected typ payload =
    collect_from payload [] (lit "payload")
      (record { proto_strings = []; proto_fields = []; tlvs = [] })
    >>= collect_fields (fields_in typ payload)

-- Whether an element is pushed, and how far `pos` moves.
abbrev pub Move : Type 0
Move = Option Element × ℕ

abbrev pub gap_move : ℕ → Option Element → ℕ → Move
gap_move pos none n = (none, 1)
gap_move pos (some e) n = (some e, n)

abbrev pub push_move : Option Element → List Element → List Element
push_move none es = es
push_move (some e) es = e ∷ es

abbrev pub has_summary : List Element → Bool
has_summary = any (λ e. not (is_empty e.summary))

abbrev pub with_embedded : List ℕ → List Element → List Element
with_embedded bytes out =
    if not (has_summary out) && is_empty (transport_only_label out)
    then out ++ embedded_visible_elements bytes
    else out

module _ (crates : Crates) where
  abbrev pub summed : Element → Element
  summed e = record e { summary = summarize_element crates e }

  abbrev pub raw_record : ℕ → List ℕ → Element
  raw_record pos payload = summed (record (blank pos 0 payload) {
    markers = find_markers payload;
    td_records = parse_td_records crates.gb18030 payload;
  })

  abbrev pub raw_record_move : ℕ → List ℕ → ℕ → Move
  raw_record_move pos rest n =
      let e = raw_record pos (take n rest) in
      if useful_element e then (some e, max n 1) else (none, max n 1)

  -- Bytes that are no element, up to the next one.
  abbrev pub broken_move : ℕ → List ℕ → Move
  broken_move pos rest = elim (next_standard_element_start rest 1 1024) [
    | none ↦ (none, 1)
    | some n ↦ gap_move pos (raw_gap_element crates.gb18030 pos (take n rest)) n
  ]

  abbrev pub standard_element : ℕ → ℕ → List ℕ → Collected → Element
  standard_element pos typ payload got =
      let markers = find_markers payload in
      summed (record (blank pos typ payload) {
        fields = fields_in typ payload;
        proto_strings = got.proto_strings;
        proto_fields = got.proto_fields;
        tlvs = got.tlvs;
        markers = markers;
        td_records =
            if starts_with_td_ta payload || not (is_nil markers)
            then parse_td_records crates.gb18030 payload
            else [];
      })

  abbrev pub standard_move : ℕ → List ℕ → ℕ → Element → Move
  standard_move pos rest size e =
      if useful_element e
      then (some e, size)
      else gap_move pos (raw_gap_element crates.gb18030 pos (take size rest)) size

  abbrev pub header_round : ℕ → List ℕ → Outcome Move
  header_round pos rest =
      let typ = byte_at rest 0 in
      let n = le16 (drop 1 rest) in
      let payload = take n (drop 3 rest) in
      if is_standard typ n (length (drop 3 rest))
      then collected typ payload
        >>= (λ got. done (standard_move pos rest (3 + n) (standard_element pos typ payload got)))
      else done (broken_move pos rest)

  -- One round of the loop, at `pos`, with the bytes from there on.
  unfoldable pub content_round : ℕ → List ℕ → Outcome Move
  content_round pos rest = elim (raw_record_len rest) [
    | some n ↦ done (raw_record_move pos rest n)
    | none ↦ elim (byte_at rest 0 == 1 && leb 1024 (le16 (drop 1 rest))) [
      | false ↦ header_round pos rest
      | true ↦ elim (near_td_ta_marker_delta rest 8) [
        | some delta ↦ done (none, delta)
        | none ↦ header_round pos rest
      ]
    ]
  ]

  unfoldable pub content_loop : ℕ → ℕ → List ℕ → Outcome (List Element)
  content_loop zero pos rest = done []
  content_loop (suc fuel) pos rest = elim (ltb (length rest) 3) [
    | true ↦ done []
    | false ↦
        content_round pos rest
        >>= (λ m. content_loop fuel (pos + m.1) (drop m.1 rest) >>= (λ es. done (push_move m.0 es)))
  ]

  abbrev pub scan_content : List ℕ → Outcome (List Element)
  scan_content bytes =
      let start = if leb 20 (length bytes) && starts_with (lit "MSG") bytes then 20 else 0 in
      content_loop (length bytes) start (drop start bytes)

  unfoldable pub parse_msgcontent : List ℕ → Outcome (List Element)
  parse_msgcontent bytes = scan_content bytes >>= (λ out. done (with_embedded bytes out))
