-- ===== src/Msg3/Elements.antt =====
-- The fields of a message element in msg3_parser.rs: `parse_fields` and the tables of names.
use qq_analyzer.Base.{
  ℕ, zero, suc, List, [], ◌∷◌, Bool, true, false, not, ◌&&◌, ◌||◌, ltb, leb, ◌==◌, if◌then◌else◌,
  length, take, drop, any, byte_at, le16,
}
use qq_analyzer.Text.{Text, lit, is_empty, trim_start_by}
use qq_analyzer.TxData.Strings.{is_odd_control, is_even}
use qq_analyzer.Msg3.Texts.{
  utf16le_to_string, reasonable_field_text, plausible_utf16le, plausible_ascii, ascii_text,
}

pub record Field : Type 0 where
  pub id : ℕ
  pub name : Text
  pub value : List ℕ
  pub text : Text

abbrev pub is_image : ℕ → Bool
is_image t = t == 3 || t == 5 || t == 6

abbrev pub is_file : ℕ → Bool
is_file t = t == 7 || t == 0x11

unfoldable pub field_name : ℕ → ℕ → Text
field_name t id =
    if t == 1 && id == 1
    then lit "text"
    else if t == 2 && id == 1
    then lit "face_id_or_text"
    else if is_image t && id == 0
    then lit "rich_or_resv_data"
    else if is_image t && id == 1
    then lit "guid_or_md5"
    else if is_image t && id == 2
    then lit "image_path"
    else if is_image t && id == 8
    then lit "image_biz_type"
    else if is_image t && id == 10
    then lit "image_extra"
    else if is_image t && id == 11
    then lit "image_size_or_flag"
    else if is_file t && id == 0
    then lit "rich_or_struct_data"
    else if is_file t && id == 1
    then lit "guid"
    else if is_file t && id == 2
    then lit "app_or_service"
    else if is_file t && id == 3
    then lit "custom_data"
    else if t == 0x08 && id == 1
    then lit "metadata_flag"
    else if t == 0x08 && id == 2
    then lit "metadata_value"
    else if t == 0x0c && id == 1
    then lit "display_text"
    else if t == 0x0c && id == 2
    then lit "rich_context_data"
    else if t == 0x0e && id == 1
    then lit "layout_flag"
    else if t == 0x12 && id == 2
    then lit "text_metadata"
    else if t == 0x14 && id == 1
    then lit "xml"
    else if t == 0x14 && id == 2
    then lit "abstract_text"
    else if t == 0x19 && id == 1
    then lit "common_elem"
    else if t == 0x19 && id == 2
    then lit "custom_data"
    else []

unfoldable pub valid_element_type : ℕ → Bool
valid_element_type t =
    any (λ k. t == k)
      (1 ∷ 2 ∷ 3 ∷ 5 ∷ 6 ∷ 7 ∷ 0x08 ∷ 0x0c ∷ 0x0d ∷ 0x0e ∷ 0x10 ∷ 0x11 ∷ 0x12 ∷ 0x14 ∷ 0x15 ∷ 0x16
        ∷ 0x18 ∷ 0x19 ∷ 0x1a ∷ 0x1b ∷ 0x1e ∷ [])

unfoldable pub element_label : ℕ → Text
element_label t =
    if t == 1
    then lit "text"
    else if t == 2
    then lit "sysface"
    else if is_image t
    then lit "image"
    else if is_file t
    then lit "file_or_struct"
    else if t == 0x08
    then lit "message_metadata"
    else if t == 0x0c
    then lit "rich_context"
    else if t == 0x0d
    then lit "emoji"
    else if t == 0x0e
    then lit "layout_metadata"
    else if t == 0x10
    then lit "public_account"
    else if t == 0x12
    then lit "text_metadata"
    else if t == 0x14
    then lit "special_abstract"
    else if t == 0x15 || t == 0x16 || t == 0x18
    then lit "custom_data"
    else if t == 0x19
    then lit "custom_abstract"
    else if t == 0x1a
    then lit "video"
    else if t == 0x1b
    then lit "ark_app"
    else if t == 0x1e
    then lit "multi_msg"
    else lit "unknown"

-- The text of a text element: `candidate`, where it is clean.
abbrev clean_or_empty : Text → Text
clean_or_empty candidate =
    if not (is_empty candidate)
      && (not (any is_odd_control candidate) && not (any (λ c. c == 0xfffd) candidate))
    then candidate
    else []

abbrev reasonable_or_empty : Text → Text
reasonable_or_empty candidate = if reasonable_field_text candidate then candidate else []

unfoldable pub field_text : ℕ → ℕ → List ℕ → Text
field_text t id value =
    let allow_text = not (is_image t && not (id == 2)) in
    if t == 1 && id == 1 && (leb 2 (length value) && is_even (length value))
    then clean_or_empty (trim_start_by is_odd_control (utf16le_to_string value))
    else if allow_text && plausible_utf16le value
    then reasonable_or_empty (utf16le_to_string value)
    else if allow_text && plausible_ascii value
    then reasonable_or_empty (ascii_text value)
    else []

abbrev pub make_field : ℕ → ℕ → List ℕ → Field
make_field t id value = record {
  id = id;
  name = field_name t id;
  value = value;
  text = field_text t id value;
}

-- Each round takes three bytes at least; the fuel is the length of the payload.
unfoldable pub fields_from : ℕ → ℕ → List ℕ → List Field
fields_from t zero rest = []
fields_from t (suc fuel) rest =
    let n = le16 (drop 1 rest) in
    let behind = drop 3 rest in
    elim (ltb (length rest) 3 || ltb (length behind) n) [
      | true ↦ []
      | false ↦ make_field t (byte_at rest 0) (take n behind) ∷ fields_from t fuel (drop n behind)
    ]

unfoldable pub parse_fields : ℕ → List ℕ → List Field
parse_fields t payload = fields_from t (length payload) payload
