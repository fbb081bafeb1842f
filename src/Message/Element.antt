-- ===== src/Message/Element.antt =====
-- `TlvRecord`, `Element` and `collect_ctx_tlvs` of msg3_parser.rs.
use qq_analyzer.Base.{
  ℕ, zero, suc, ◌+◌, List, [], ◌∷◌, ◌++◌, Option, Bool, true, false, not, ◌&&◌, ◌||◌, ltb, leb,
  ◌==◌, if◌then◌else◌, length, take, drop, byte_at, be16,
}
use qq_analyzer.Text.{Text, lit, is_empty, decimal}
use qq_analyzer.Msg3.Outcome.{Outcome, done, ◌>>=◌}
use qq_analyzer.Msg3.ProtoFields.{ProtoField, collect_proto_fields}
use qq_analyzer.Msg3.Elements.{Field}
use qq_analyzer.Msg3.Records.{TdRecord}
use qq_analyzer.Message.Json.{Json}

-- What other crates do: the decoder of GB18030 (the text, and whether it had errors), the inflater
-- of a zlib stream, and the parser of JSON.
pub record Crates : Type 0 where
  pub gb18030 : List ℕ → Text × Bool
  pub inflate : List ℕ → Option (List ℕ)
  pub parse_json : Text → Option Json

pub record TlvRecord : Type 0 where
  pub source : Text
  pub offset : ℕ
  pub tag : ℕ
  pub name : Text
  pub payload : List ℕ
  pub proto_fields : List ProtoField

pub record Element : Type 0 where
  pub offset : ℕ
  pub typ : ℕ
  pub payload : List ℕ
  pub fields : List Field
  pub proto_strings : List Text
  pub proto_fields : List ProtoField
  pub tlvs : List TlvRecord
  pub markers : List (ℕ × Text)
  pub td_records : List TdRecord
  pub summary : Text

-- `Element { offset, typ, payload, ..Default::default() }`.
abbrev pub blank : ℕ → ℕ → List ℕ → Element
blank offset typ payload = record {
  offset = offset;
  typ = typ;
  payload = payload;
  fields = [];
  proto_strings = [];
  proto_fields = [];
  tlvs = [];
  markers = [];
  td_records = [];
  summary = [];
}

abbrev pub is_nil {ℓ} : {A : Type ℓ} → List A → Bool
is_nil [] = true
is_nil (x ∷ xs) = false

unfoldable pub tlv_tag_name : ℕ → Text
tlv_tag_name tag =
    if tag == 0x1d then lit "resv3.ResvAttr" else if tag == 0x21 then lit "resv6.ResvAttr" else []

abbrev tlv_protos : Text → ℕ → List ℕ → Outcome (List ProtoField)
tlv_protos source tag payload =
    if (tag == 0x1d || tag == 0x21) && not (is_nil payload)
    then collect_proto_fields payload 0 (source ++ lit ".tlv" ++ decimal tag) []
    else done []

abbrev push_tlv : TlvRecord → List TlvRecord → List TlvRecord
push_tlv rec out =
    if not (is_nil rec.payload) && (not (is_empty rec.name) || not (is_nil rec.proto_fields))
    then out ++ (rec ∷ [])
    else out

abbrev make_tlv : Text → ℕ → ℕ → List ℕ → List ProtoField → TlvRecord
make_tlv source off tag payload protos = record {
  source = source;
  offset = off;
  tag = tag;
  name = tlv_tag_name tag;
  payload = payload;
  proto_fields = protos;
}

-- `left` is 160 less the records seen.
unfoldable pub tlv_loop : ℕ → Text → ℕ → List ℕ → List TlvRecord → Outcome (List TlvRecord)
tlv_loop zero source off rest out = done out
tlv_loop (suc left) source off rest out =
    let tag = byte_at rest 0 in
    let n = be16 (drop 1 rest) in
    let behind = drop 3 rest in
    elim (ltb (length rest) 3 || leb 200 (length out) || tag == 0xff || ltb (length behind) n) [
      | true ↦ done out
      | false ↦ tlv_protos source tag (take n behind) >>= (λ protos.
          tlv_loop left source (off + 3 + n) (drop n behind)
            (push_tlv (make_tlv source off tag (take n behind) protos) out))
    ]

unfoldable pub collect_ctx_tlvs : List ℕ → Text → List TlvRecord → Outcome (List TlvRecord)
collect_ctx_tlvs bytes source out = tlv_loop 160 source 0 bytes out
