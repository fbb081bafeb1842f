-- ===== src/Message/Summary.antt =====
-- `summarize_element` and `useful_element` of msg3_parser.rs.
use qq_analyzer.Base.{
  ℕ, List, [], ◌∷◌, ◌++◌, map, Bool, false, not, ◌&&◌, ◌||◌, ltb, leb, ◌==◌, if◌then◌else◌, length,
  byte_at, any,
}
use qq_analyzer.Text.{
  Text, lit, is_empty, starts_with, contains, text_eq, trim, to_ascii_lowercase, utf8_len,
}
use qq_analyzer.Text.Find.{first_where, or_text, bracketed, is_garbled}
use qq_analyzer.Msg3.Texts.{is_generic_token}
use qq_analyzer.Msg3.ProtoFields.{ProtoField}
use qq_analyzer.Msg3.Elements.{Field, is_image}
use qq_analyzer.Msg3.Frames.{td_marker, ta_marker}
use qq_analyzer.Message.Element.{Element, TlvRecord, Crates, is_nil}
use qq_analyzer.Message.Named.{first_txdata_named_text}
use qq_analyzer.Message.Faces.{face_text}
use qq_analyzer.Message.Runs.{rich_context_text}
use qq_analyzer.Message.Xml.{
  struct_msg_xml, struct_msg_display_text, structured_txdata_display_text, ark_app_display_text,
  multi_msg_display_text,
}

unfoldable pub starts_with_td_ta : List ℕ → Bool
starts_with_td_ta bytes = starts_with td_marker bytes || starts_with ta_marker bytes

unfoldable pub looks_like_image_path : Text → Bool
looks_like_image_path text =
    starts_with (lit "UserDataImage:") text
    || starts_with (lit "UserDataCustomFace:") text
    || starts_with (lit "FaceStore:") text
    || starts_with (lit "GlobalSysTemp:") text
    || starts_with (lit "sysres:") text
    || contains (92 ∷ lit "Image") text
    || contains (lit "/Image") text
    || contains (lit ".jpg") text
    || contains (lit ".gif") text
    || contains (lit ".png") text
    || contains (lit ".bmp") text

abbrev backslashes : Text → Text
backslashes = map (λ c. if c == 47 then 92 else c)

unfoldable pub is_bluebar_sysres_path : Text → Bool
is_bluebar_sysres_path text =
    starts_with (lit "sysres:misc" ++ 92 ∷ lit "bluebar" ++ 92 ∷ [])
      (to_ascii_lowercase (backslashes (trim text)))

unfoldable pub is_system_decoration_element : Element → Bool
is_system_decoration_element e =
    is_image e.typ
    && any (λ f. text_eq f.name (lit "image_path") && is_bluebar_sysres_path f.text) e.fields

abbrev texts_of : List Field → List Text
texts_of = map (λ f. f.text)

unfoldable pub first_meaningful_text : Element → ℕ → Text
first_meaningful_text e max_len =
    first_where
      (λ t.
        not (is_empty t)
        && (leb (utf8_len t) max_len && (not (is_garbled t) && not (is_generic_token t))))
      (texts_of e.fields)

abbrev proto_texts : List TlvRecord → List ProtoField → List Text
proto_texts [] protos = map (λ pf. pf.text) protos
proto_texts (tlv ∷ tlvs) protos = map (λ pf. pf.text) tlv.proto_fields ++ proto_texts tlvs protos

unfoldable pub first_proto_text : Element → ℕ → Text
first_proto_text e max_len =
    first_where (λ t. not (is_empty t) && (leb (utf8_len t) max_len && not (is_generic_token t)))
      (proto_texts e.tlvs e.proto_fields)

abbrev first_texts : List Field → List Text
first_texts [] = []
first_texts (f ∷ fs) = let more = first_texts fs in if f.id == 1 then f.text ∷ more else more

abbrev text_summary : Element → Text
text_summary e =
    let texts = first_texts e.fields in
    or_text (first_txdata_named_text e (lit "strLinkHttp" ∷ [])) (
      or_text (first_where (λ t. not (is_empty t) && not (is_garbled t)) texts)
        (if any is_garbled texts then lit "[无法解码文本]" else []))

abbrev without_slash : Text → Text
without_slash [] = []
without_slash (c ∷ cs) = if c == 47 then cs else c ∷ cs

abbrev face_label : Text → Text
face_label [] = []
face_label (c ∷ cs) = bracketed (without_slash (c ∷ cs))

abbrev face_summary : Element → Text
face_summary e =
    let p = e.payload in
    or_text (first_txdata_named_text e (lit "strLinkHttp" ∷ [])) (
      if byte_at p 0 == 1 && (byte_at p 1 == 1 && byte_at p 2 == 0)
      then face_text (byte_at p 3)
      else face_label (first_meaningful_text e 80))

abbrev image_summary : Element → Text
image_summary e =
    let own =
      first_where (λ t. not (is_empty t) && (not (looks_like_image_path t) && ltb (utf8_len t) 80))
        (texts_of e.fields) in
    let has_image = any looks_like_image_path (texts_of e.fields) in
    if is_system_decoration_element e
    then []
    else or_text (first_proto_text e 80)
        (or_text own (if starts_with_td_ta e.payload || has_image then lit "[图片]" else []))

abbrev file_summary : Element → Text
file_summary e = or_text (first_meaningful_text e 120) (
    or_text (structured_txdata_display_text e) (
      if any (λ t. text_eq t (lit "com.tencent.filetransfer")) (texts_of e.fields)
      then lit "[文件]"
      else []))

module _ (crates : Crates) where
  unfoldable pub summarize_element : Element → Text
  summarize_element e =
      let t = e.typ in
      if t == 1
      then text_summary e
      else if t == 2
      then (if leb 4 (length e.payload) then face_summary e else [])
      else if is_image t
      then image_summary e
      else if t == 0x0c
      then rich_context_text e
      else if t == 0x0d
      then first_meaningful_text e 32
      else if t == 7 || t == 0x11
      then file_summary e
      else if t == 0x10
      then first_meaningful_text e 120
      else if t == 0x14
      then or_text (struct_msg_display_text (struct_msg_xml crates e) (first_meaningful_text e 160))
          (first_proto_text e 160)
      else if t == 0x15 || t == 0x16 || t == 0x18 || t == 0x19
      then or_text (first_meaningful_text e 160) (first_proto_text e 160)
      else if t == 0x1a
      then lit "[视频]"
      else if t == 0x1b
      then or_text (ark_app_display_text crates e) (first_meaningful_text e 160)
      else if t == 0x1e
      then or_text (multi_msg_display_text e) (first_meaningful_text e 160)
      else []

unfoldable pub useful_element : Element → Bool
useful_element e =
    let t = e.typ in
    if t == 1 && is_empty e.summary && is_nil e.fields
    then false
    else not (is_empty e.summary)
      || (t == 0 && any (λ f. starts_with (lit "raw_") f.name) e.fields)
      || (t == 1 && not (is_nil e.fields))
      || (t == 0x08 && not (is_nil e.fields))
      || (t == 0x0c && leb 8 (length e.payload))
      || not (is_nil e.tlvs)
      || not (is_nil e.td_records)
      || (t == 0x19 && (not (is_nil e.fields) || not (is_nil e.proto_fields)))
      || t == 0x0e
      || t == 0x12
